-- ===== src/Comm/Barrier/Safety.antt =====
-- What the barriers promise, in every reachable state.
use flexps.Base.{
  ℕ, ◌+◌, ◌≤◌, ◌<◌, ◌≡◌, refl, sym, ap, subst, List, [], ◌∷◌, some, Bool, true, false, ltb, ◌==◌,
  if◌then◌else◌, count, count_lt, count_total, count_one_more, arith, Bool-cases, inl, inr, length,
  ==_refl,
}
use flexps.Comm.Mailbox.{BarrierState, on_barrier, barrier_done}
use flexps.Comm.Barrier.{waiting, System, Reach, entered, sent_to}
use flexps.Comm.Barrier.Invariant.{
  Inv, passed, head_seen, seen_self_le, sent_to-entered, entered_le,
}
use flexps.Comm.Barrier.Steps.{Reach-Inv}

-- A node leaves a barrier only after every node has entered it: in a reachable state, no node has
-- passed more barriers than another has entered.
pub passed-entered :
    (n i j : ℕ) (x : System)
    → Reach n x
    → i < n
    → j < n
    → (x.local i).progress ≤ entered (x.pc j) (x.local j).progress
passed-entered n i j x h li lj = (Reach-Inv h).near i j li lj

-- A message for the next barrier leaves the count of the next barrier below the number of nodes: the
-- receiver itself is never a barrier ahead.
next_room :
    {n : ℕ} {x : System} (v : Inv n x) (s r : ℕ)
    → s < n
    → r < n
    → v.seen s r ≡ (x.local r).progress + 1
    → v.seen s r < sent_to (x.pc s) r (x.local s).progress
    → (x.local r).next_count + 1 < n
next_room {n = n} {x = x} v s r ls lr q f =
    let k = (x.local r).progress + 1 in
    let now : ℕ → Bool = passed k (λ i. v.seen i r) in
    let after : ℕ → Bool = λ i. if i == s then true else now i in
    let self : now r ≡ false = ground (arith, seen_self_le v r lr) in
    let own : sent_to (x.pc r) r (x.local r).progress ≤ k = omega (
      arith,
      sent_to-entered (x.pc r) r (x.local r).progress,
      entered_le (x.pc r) (x.local r).progress,
    ) in
    let not_self : (r == s) ≡ false = elim (Bool-cases (r == s)) [
      | inl same ↦
          let e : s ≡ r = ground arith in
          let own_s : sent_to (x.pc s) r (x.local s).progress ≤ k =
            subst (λ i. sent_to (x.pc i) r (x.local i).progress ≤ k) (sym e) own in
          absurd (omega (arith, f, q, own_s))
      | inr other ↦ other
    ] in
    let still : after r ≡ false = rw (not_self, self) refl in
    let grown : count n after ≡ count n now + 1 =
      count_one_more n s now after ls (ground arith) (rw (==_refl s) refl)
        (λ j other. rw other refl) in
    omega (arith, v.next r lr, grown, count_lt n r after lr still)

-- In a reachable state the receiving thread takes every barrier message that can arrive: it is for the
-- current barrier or the next one, and no CHECK fails.
pub receive_total :
    (n s r w : ℕ) (rest : List ℕ) (x : System)
    → Reach n x
    → s < n
    → r < n
    → x.net s r ≡ w ∷ rest
    → (b : BarrierState) × (on_barrier n w (x.local r) ≡ some b)
unfolding on_barrier
receive_total n s r w rest x h ls lr e =
    let v = Reach-Inv h in
    let (ew, flow, left) = head_seen v s r w rest ls lr e in
    let ahead : w < (x.local r).progress + 2 = omega (
      arith,
      ew,
      left,
      sent_to-entered (x.pc s) r (x.local s).progress,
      entered_le (x.pc s) (x.local s).progress,
      v.near s r ls lr,
      entered_le (x.pc r) (x.local r).progress,
    ) in
    let behind : (x.local r).progress ≤ w = omega (arith, v.low s r ls lr, ew) in
    elim (Bool-cases (w == (x.local r).progress)) [
      | inl this ↦ (record (x.local r) { this_count = (x.local r).this_count + 1 }, rw this refl)
      | inr other ↦
          let second : (w == (x.local r).progress + 1) ≡ true = ground arith in
          let at_second : w ≡ (x.local r).progress + 1 = ground arith in
          let room : ltb ((x.local r).next_count + 1) n ≡ true =
            ground
              (arith, next_room v s r ls lr (omega (arith, ew, at_second)) (omega (arith, left))) in
          (
            record (x.local r) { next_count = (x.local r).next_count + 1 },
            rw (other, second, room) refl,
          )
    ]

-- Every node waits, and no barrier message is on its way.
pub record Settled (n : ℕ) (x : System) : Type 0 where
  pub all_wait : (i : ℕ) → i < n → x.pc i ≡ waiting
  pub none_left : (s r : ℕ) → s < n → r < n → x.net s r ≡ []

-- The barriers do not deadlock: in a reachable state in which every node waits and no barrier message is
-- on its way, the wait of each node that has passed the fewest barriers is over.
pub Settled-barrier_done :
    (n i : ℕ) (x : System)
    → Reach n x
    → Settled n x
    → i < n
    → ((j : ℕ) → j < n → (x.local i).progress ≤ (x.local j).progress)
    → barrier_done n (x.local i) ≡ true
Settled-barrier_done n i x h q li least =
    let v = Reach-Inv h in
    let arrived : (s : ℕ) → s < n → v.seen s i ≡ (x.local s).progress + 1 = λ s ls.
      let waits : sent_to (x.pc s) i (x.local s).progress ≡ (x.local s).progress + 1 =
        rw (q.all_wait s ls) refl in
      omega (arith, v.total s i ls li, waits, ap length (q.none_left s i ls li)) in
    let all : (s : ℕ) → s < n → passed (x.local i).progress (λ k. v.seen k i) s ≡ true =
      λ s ls. ground (arith, arrived s ls, least s ls) in
    rw (v.this i li, count_total n _ all) (==_refl n)
