-- ===== src/Tests/Comm.antt =====
-- Two nodes go through a barrier.
use flexps.Base.{
  ℕ, ◌<◌, ◌≤◌, ◌≡◌, refl, [], ◌∷◌, some, true, arith, subst, Bool-cases, inl, inr, ◌==◌,
}
use flexps.Message.{Message, Flag}
use flexps.Comm.Mailbox.{BarrierState, Mailbox, on_barrier, barrier_done, register_queue}
use flexps.Comm.Barrier.{idle, sending, waiting, System, Step, Reach, start}
use flexps.Comm.Barrier.Safety.{passed-entered, receive_total, Settled-barrier_done, Settled}

abbrev Run : Type 0
Run = (x : System) × Reach 2 x

abbrev enter : (i : ℕ) (p : Run) → i < 2 → p.0.pc i ≡ idle → Run
enter i (x, h) l e = (_, Reach.later h (Step.enter i l e))

abbrev send : (i j : ℕ) (p : Run) → i < 2 → j < 2 → p.0.pc i ≡ sending j → Run
send i j (x, h) li lj e = (_, Reach.later h (Step.send i j li lj e))

abbrev sent : (i : ℕ) (p : Run) → i < 2 → p.0.pc i ≡ sending 2 → Run
sent i (x, h) l e = (_, Reach.later h (Step.sent i l e))

abbrev take :
    (s r : ℕ) (b : BarrierState) (p : Run)
    → s < 2
    → r < 2
    → p.0.net s r ≡ 0 ∷ []
    → on_barrier 2 0 (p.0.local r) ≡ some b
    → Run
take s r b (x, h) ls lr e f = (_, Reach.later h (Step.receive s r 0 [] b ls lr e f))

abbrev zero_lt : 0 < 2
zero_lt = omega arith

abbrev one_lt : 1 < 2
one_lt = omega arith

-- Node 0 has sent its messages.
abbrev first : Run
first =
    send 0 1 (send 0 0 (enter 0 (start, Reach.here) zero_lt refl) zero_lt zero_lt refl) zero_lt
      one_lt refl

-- Both nodes wait, and four messages are on their way.
abbrev both : Run
both =
    let one = enter 1 (sent 0 first zero_lt refl) one_lt refl in
    sent 1 (send 1 1 (send 1 0 one one_lt zero_lt refl) one_lt one_lt refl) one_lt refl

abbrev counted : ℕ → BarrierState
counted k = record { this_count = k; next_count = 0; progress = 0 }

counts : on_barrier 2 0 (counted 0) ≡ some (counted 1)
unfolding on_barrier
counts = refl

counts_again : on_barrier 2 0 (counted 1) ≡ some (counted 2)
unfolding on_barrier
counts_again = refl

-- All four have arrived.
abbrev arrived : Run
arrived =
    let two =
      take 1 0 (counted 2) (take 0 0 (counted 1) both zero_lt zero_lt refl counts) one_lt zero_lt
        refl counts_again in
    take 1 1 (counted 2) (take 0 1 (counted 1) two zero_lt one_lt refl counts) one_lt one_lt refl
      counts_again

-- Node 0 has left.
abbrev left : Run
left = (_, Reach.later arrived.1 (Step.leave 0 zero_lt refl refl))

passed-entered_example : 1 ≤ 1
passed-entered_example = passed-entered 2 0 1 left.0 left.1 zero_lt one_lt

receive_total_example : (b : BarrierState) × (on_barrier 2 0 (counted 0) ≡ some b)
receive_total_example = receive_total 2 0 1 0 [] first.0 first.1 zero_lt one_lt refl

-- A fact about the two nodes.
of_two : (P : ℕ → Type 0) → P 0 → P 1 → (i : ℕ) → i < 2 → P i
of_two P p q i l = elim (Bool-cases (i == 0)) [
  | inl same ↦ subst P (ground arith) p
  | inr other ↦ subst P (ground arith) q
]

arrived-Settled : Settled 2 arrived.0
arrived-Settled = record {
  all_wait = of_two (λ i. arrived.0.pc i ≡ waiting) refl refl;
  none_left = λ s r ls lr.
      of_two (λ t. arrived.0.net t r ≡ []) (of_two (λ q. arrived.0.net 0 q ≡ []) refl refl r lr)
        (of_two (λ q. arrived.0.net 1 q ≡ []) refl refl r lr) s ls;
}

Settled-barrier_done_example : barrier_done 2 (arrived.0.local 0) ≡ true
Settled-barrier_done_example =
    Settled-barrier_done 2 0 arrived.0 arrived.1 arrived-Settled zero_lt (λ j l. omega arith)

-- A mailbox without queues, of which one is to hold the messages of thread 0.
abbrev mailbox : Mailbox
mailbox = record {
  node_id = 0;
  nodes = 0 ∷ 1 ∷ [];
  queue_map = [];
  senders = (0, tt) ∷ (1, tt) ∷ [];
  barrier = counted 0;
}

abbrev mailbox_with_queue : Mailbox
mailbox_with_queue = record mailbox { queue_map = (0, 9) ∷ [] }

registers : register_queue 0 9 mailbox ≡ some mailbox_with_queue
unfolding register_queue
registers = refl

abbrev for_thread : Message
for_thread = record {
  meta = record { sender = 200; recver = 0; model_id = 0; flag = Flag.clock; version = 0 };
  body = [];
}
