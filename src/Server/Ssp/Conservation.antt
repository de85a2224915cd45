-- ===== src/Server/Ssp/Conservation.antt =====
-- No request is lost and none is answered twice: replies and waiting requests add up.
use flexps.Base.{
  ℕ, ◌+◌, ◌≤◌, ◌≡◌, refl, List, [], ◌∷◌, ◌++◌, some, find_or, put, erase, length, length-append,
  arith, Ascending, Above, put-Ascending, erase-Ascending, find-Above, inl, inr, >>=-eq-some, subst,
}
use flexps.Message.{Message, Platform, Flag}
use flexps.Server.PendingBuffer.{PendingBuffer, pop, push, waiting}
use flexps.Server.Storage
use flexps.Server.Storage.{StorageClass}
use flexps.Server.Storage.Replies.{length-get_all}
use flexps.Server.Reset.{reset_tracker}
use flexps.Server.Model.{dispatch, run, by_flag}
use flexps.Server.Ssp.{SspModel, clock, add, get, reset_worker, ssp_model}
use flexps.Server.Ssp.Staleness.{clock_cases}
use flexps.Server.Ssp.Blocked.{get_keeps}

-- The number of requests that wait.
abbrev pub pending : PendingBuffer → ℕ
pending [] = 0
pending ((k, msgs) ∷ b) = length msgs + pending b

pending-put :
    (k : ℕ) (msgs : List Message) (b : PendingBuffer)
    → Ascending b
    → pending (put k msgs b) + length (find_or k [] b) ≡ pending b + length msgs
pending-put k msgs [] a = omega arith
pending-put k msgs ((j, xs) ∷ b) a = ground (arith, pending-put k msgs b a.1, find-Above k j b a.0)

erase_absent : (k j : ℕ) (b : PendingBuffer) → Above j b → k ≤ j → pending (erase k b) ≡ pending b
erase_absent k j [] a h = refl
erase_absent k j ((i, xs) ∷ b) a h = ground (arith, erase_absent k j b a.1 h)

pending-erase :
    (k : ℕ) (b : PendingBuffer)
    → Ascending b
    → pending (erase k b) + length (find_or k [] b) ≡ pending b
pending-erase k [] a = refl
pending-erase k ((j, xs) ∷ b) a =
    ground (arith, pending-erase k b a.1, find-Above k j b a.0, erase_absent k j b a.0)

pub pending-push :
    (k : ℕ) (msg : Message) (b : PendingBuffer)
    → Ascending b
    → pending (push k msg b) ≡ pending b + 1
unfolding push
pending-push k msg b a = omega (
  arith,
  pending-put k (find_or k [] b ++ msg ∷ []) b a,
  length-append (find_or k [] b) (msg ∷ []),
)

pub pending-pop :
    (k : ℕ) (b : PendingBuffer)
    → Ascending b
    → pending (pop k b).1 + length (waiting k b) ≡ pending b
unfolding pop
pending-pop k b a = ground (arith, pending-erase k b a)

pub push-Ascending :
    (k : ℕ) (msg : Message) (b : PendingBuffer) → Ascending b → Ascending (push k msg b)
unfolding push
push-Ascending k msg b a = put-Ascending k (find_or k [] b ++ msg ∷ []) b a

pub pop-Ascending : (k : ℕ) (b : PendingBuffer) → Ascending b → Ascending (pop k b).1
unfolding pop
pop-Ascending k b a = ground (arith, erase-Ascending k b a)

-- The replies that a message asks for.
abbrev pub asks : Flag → ℕ
asks Flag.get = 1
asks Flag.reset_worker_in_model = 1
asks _ = 0

abbrev pub all_asks : List Message → ℕ
all_asks [] = 0
all_asks (msg ∷ msgs) = asks msg.flag + all_asks msgs

module _ {S : Type 0} ⦃p : Platform⦄ ⦃c : StorageClass S⦄ where
  -- After a message that asks for `n` replies.
  abbrev Accounts : ℕ → SspModel S → List Message → SspModel S → Type 0
  Accounts n m replies m' =
      Ascending m'.buffer × (length replies + pending m'.buffer ≡ pending m.buffer + n)

  clock-Accounts :
      (x : Message) (m m' : SspModel S) (replies : List Message)
      → Ascending m.buffer
      → clock x m ≡ some (replies, m')
      → Accounts 0 m replies m'
  clock-Accounts x m m' replies a e = elim (clock_cases x m m' replies e) [
    | inl (_, er, eb, _) ↦ rw eb (a, ground arith)
    | inr (s, all, _, up, eb) ↦ rw eb (
      pop-Ascending (m.progress_tracker.min_clock + 1) m.buffer a,
      omega (
        arith,
        length-get_all (waiting (m.progress_tracker.min_clock + 1) m.buffer) replies m.storage s
            all,
        pending-pop (m.progress_tracker.min_clock + 1) m.buffer a,
      ),
    )
  ]

  get-Accounts :
      (x : Message) (m m' : SspModel S) (replies : List Message)
      → Ascending m.buffer
      → get x m ≡ some (replies, m')
      → Accounts 1 m replies m'
  get-Accounts x m m' replies a e = elim (get_keeps x m m' replies e).1 [
    | inl (one, eb) ↦ rw eb (a, omega arith)
    | inr (zero_replies, (j, eb)) ↦
        rw eb (push-Ascending j x m.buffer a, omega (arith, pending-push j x m.buffer a))
  ]

  add-Accounts :
      (x : Message) (m m' : SspModel S) (replies : List Message)
      → Ascending m.buffer
      → add x m ≡ some (replies, m')
      → Accounts 0 m replies m'
  unfolding add
  add-Accounts x m m' replies a e =
      let (s, done, e1) = >>=-eq-some (Storage.add x m.storage) _ e in
      let eb : m'.buffer ≡ m.buffer = ground arith in rw eb (a, ground arith)

  reset_worker-Accounts :
      (x : Message) (m m' : SspModel S) (replies : List Message)
      → Ascending m.buffer
      → reset_worker x m ≡ some (replies, m')
      → Accounts 1 m replies m'
  unfolding reset_worker
  reset_worker-Accounts x m m' replies a e =
      let (t, done, e1) = >>=-eq-some (reset_tracker x.body) _ e in
      let eb : m'.buffer ≡ m.buffer = ground arith in rw eb (a, ground arith)

  by_flag-Accounts :
      (f : Flag) (x : Message) (m m' : SspModel S) (replies : List Message)
      → Ascending m.buffer
      → by_flag f x m ≡ some (replies, m')
      → Accounts (asks f) m replies m'
  unfolding by_flag
  by_flag-Accounts Flag.clock x m m' replies a e = clock-Accounts x m m' replies a e
  by_flag-Accounts Flag.add x m m' replies a e = add-Accounts x m m' replies a e
  by_flag-Accounts Flag.get x m m' replies a e = get-Accounts x m m' replies a e
  by_flag-Accounts Flag.reset_worker_in_model x m m' replies a e =
      reset_worker-Accounts x m m' replies a e
  by_flag-Accounts Flag.exit x m m' replies a e = absurd (cc)
  by_flag-Accounts Flag.barrier x m m' replies a e = absurd (cc)

  -- From a sorted buffer, over any messages that do not abort, the replies and the requests that still
  -- wait are together as many as the requests that waited before and the Gets and resets since. The
  -- buffer stays sorted.
  pub run-pending :
      (msgs replies : List Message) (m m' : SspModel S)
      → Ascending m.buffer
      → run msgs m ≡ some (replies, m')
      → Ascending m'.buffer
        × (length replies + pending m'.buffer ≡ pending m.buffer + all_asks msgs)
  unfolding run dispatch
  run-pending [] replies m m' a e =
      let last : m ≡ m' = ground arith in
      (subst (λ (y : SspModel S). Ascending y.buffer) last a, ground arith)
  run-pending (x ∷ msgs) replies m m' a e =
      let (r, done, e1) = >>=-eq-some (dispatch x m) _ e in
      let (rs, later, e2) = >>=-eq-some (run msgs r.1) _ e1 in
      let (a', n) = by_flag-Accounts x.flag x m r.1 r.0 a done in
      let (a'', n') = run-pending msgs rs.0 r.1 rs.1 a' later in
      let last : rs.1 ≡ m' = ground arith in
      let shape : replies ≡ r.0 ++ rs.0 = ground arith in
      (
        subst (λ (y : SspModel S). Ascending y.buffer) last a'',
        rw (← last, shape, length-append r.0 rs.0) (omega arith),
      )
