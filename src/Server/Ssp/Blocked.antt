-- ===== src/Server/Ssp/Blocked.antt =====
-- A Get that waits is answered at the clock that it waits for, not before and not after.
use flexps.Base.{
  ℕ, ◌+◌, ◌<◌, ◌≡◌, sym, ◌∙◌, List, [], ◌∷◌, ◌++◌, some, ◌==◌, ltb, arith, Bool-cases, inl, inr,
  ◌⊎◌, >>=-eq-some, Any, Any-append_left, Any-append_right, subst, add_u32, sub_u32, length,
}
use flexps.Message.{Message, Platform, Flag, Chars}
use flexps.Server.Tracker.{ProgressTracker, init, get_progress as progress_of}
use flexps.Server.PendingBuffer.{PendingBuffer, push, waiting, waiting-push, waiting-pop}
use flexps.Server.Storage
use flexps.Server.Storage.{StorageClass}
use flexps.Server.Storage.Replies.{Answers, get_all-Answers}
use flexps.Server.Reset.{reset_tracker}
use flexps.Server.Model.{dispatch, run, by_flag}
use flexps.Server.Ssp.{SspModel, clock, add, get, reset_worker, ssp_model}
use flexps.Server.Ssp.Staleness.{clock_cases}

-- The request waits in the buffer for the clock `k`, which the minimum has not reached.
abbrev pub Waits : {S : Type 0} → ℕ → Message → SspModel S → Type 0
Waits k msg m = (m.progress_tracker.min_clock < k) × Any (λ x. x ≡ msg) (waiting k m.buffer)

abbrev pub Answered : Message → List Message → Type 0
Answered msg replies = Any (λ r. Answers r msg) replies

Waits-push :
    (k j : ℕ) (msg x : Message) (b : PendingBuffer)
    → Any (λ y. y ≡ msg) (waiting k b)
    → Any (λ y. y ≡ msg) (waiting k (push j x b))
Waits-push k j msg x b h = elim (Bool-cases (k == j)) [
  | inl same ↦
      rw (waiting-push k j x b, same)
        (Any-append_left (λ y. y ≡ msg) (waiting j b) (x ∷ [])
          (subst (λ i. Any (λ y. y ≡ msg) (waiting i b)) (ground arith) h))
  | inr other ↦ rw (waiting-push k j x b, other) h
]

reset_tracker-min_clock :
    ⦃p : Platform⦄ (body : List Chars) (t : ProgressTracker)
    → reset_tracker body ≡ some t
    → t.min_clock ≡ 0
unfolding init
reset_tracker-min_clock [] t e = absurd (cc)
reset_tracker-min_clock (tids ∷ []) t e = ground arith
reset_tracker-min_clock (a ∷ b ∷ rest) t e = absurd (cc)

module _ {S : Type 0} ⦃p : Platform⦄ ⦃c : StorageClass S⦄ where
  -- What one message does to a request that waits.
  abbrev Next : ℕ → Message → List Message → SspModel S → Type 0
  Next k msg replies m' =
      Waits k msg m' ⊎ (m'.progress_tracker.min_clock ≡ k) × Answered msg replies

  Waits-same :
      (k : ℕ) (msg : Message) (m m' : SspModel S)
      → Waits k msg m
      → m'.progress_tracker.min_clock ≡ m.progress_tracker.min_clock
      → m'.buffer ≡ m.buffer
      → Waits k msg m'
  Waits-same k msg m m' h et eb = (rw et h.0, rw eb h.1)

  clock-Next :
      (k : ℕ) (msg x : Message) (m m' : SspModel S) (replies : List Message)
      → Waits k msg m
      → clock x m ≡ some (replies, m')
      → Next k msg replies m'
  clock-Next k msg x m m' replies h e = elim (clock_cases x m m' replies e) [
    | inl (same, _, eb, _) ↦ inl (Waits-same k msg m m' h same eb)
    | inr (s, all, _, up, eb) ↦ elim (Bool-cases (k == m.progress_tracker.min_clock + 1)) [
      | inl due ↦
          let at_k : k ≡ m.progress_tracker.min_clock + 1 = ground arith in
          inr (
            up ∙ sym at_k,
            get_all-Answers msg (waiting (m.progress_tracker.min_clock + 1) m.buffer) replies
                m.storage s all (subst (λ i. Any (λ y. y ≡ msg) (waiting i m.buffer)) at_k h.1),
          )
      | inr early ↦ inl (
        ground arith,
        rw (eb, waiting-pop k (m.progress_tracker.min_clock + 1) m.buffer, early) h.1,
      )
    ]
  ]

  -- A Get leaves the clocks alone, and at most adds itself to the requests that wait.
  pub get_keeps :
      (x : Message) (m m' : SspModel S) (replies : List Message)
      → get x m ≡ some (replies, m')
      → (m'.progress_tracker ≡ m.progress_tracker)
        × ((length replies ≡ 1) × (m'.buffer ≡ m.buffer)
            ⊎ (length replies ≡ 0) × ((j : ℕ) × (m'.buffer ≡ push j x m.buffer)))
  unfolding get
  get_keeps x m m' replies e =
      let (q, found, e1) = >>=-eq-some (progress_of x.sender m.progress_tracker) _ e in
      elim (Bool-cases (ltb (add_u32 m.progress_tracker.min_clock m.staleness) q)) [
        | inl far ↦
            let e2 = rw far at e1 in
            (ground arith, inr (ground arith, (sub_u32 q m.staleness, ground arith)))
        | inr near ↦
            let (r, done, e2) = >>=-eq-some (Storage.get x m.storage) _ (rw near at e1) in
            (ground arith, inl (ground arith, ground arith))
      ]

  get-Waits :
      (k : ℕ) (msg x : Message) (m m' : SspModel S) (replies : List Message)
      → Waits k msg m
      → get x m ≡ some (replies, m')
      → Waits k msg m'
  get-Waits k msg x m m' replies h e = elim (get_keeps x m m' replies e).1 [
    | inl (_, eb) ↦ Waits-same k msg m m' h (rw (get_keeps x m m' replies e).0) eb
    | inr (_, (j, eb)) ↦
        (rw (get_keeps x m m' replies e).0 h.0, rw eb (Waits-push k j msg x m.buffer h.1))
  ]

  add-Waits :
      (k : ℕ) (msg x : Message) (m m' : SspModel S) (replies : List Message)
      → Waits k msg m
      → add x m ≡ some (replies, m')
      → Waits k msg m'
  unfolding add
  add-Waits k msg x m m' replies h e =
      let (s, done, e1) = >>=-eq-some (Storage.add x m.storage) _ e in
      Waits-same k msg m m' h (ground arith) (ground arith)

  reset_worker-Waits :
      (k : ℕ) (msg x : Message) (m m' : SspModel S) (replies : List Message)
      → Waits k msg m
      → reset_worker x m ≡ some (replies, m')
      → Waits k msg m'
  unfolding reset_worker init
  reset_worker-Waits k msg x m m' replies h e =
      let (t, done, e1) = >>=-eq-some (reset_tracker x.body) _ e in
      let et : m'.progress_tracker ≡ t = ground arith in
      let eb : m'.buffer ≡ m.buffer = ground arith in
      (rw et (omega (arith, h.0, reset_tracker-min_clock x.body t done)), rw eb h.1)

  by_flag-Next :
      (f : Flag) (k : ℕ) (msg x : Message) (m m' : SspModel S) (replies : List Message)
      → Waits k msg m
      → by_flag f x m ≡ some (replies, m')
      → Next k msg replies m'
  unfolding by_flag
  by_flag-Next Flag.clock k msg x m m' replies h e = clock-Next k msg x m m' replies h e
  by_flag-Next Flag.add k msg x m m' replies h e = inl (add-Waits k msg x m m' replies h e)
  by_flag-Next Flag.get k msg x m m' replies h e = inl (get-Waits k msg x m m' replies h e)
  by_flag-Next Flag.reset_worker_in_model k msg x m m' replies h e =
      inl (reset_worker-Waits k msg x m m' replies h e)
  by_flag-Next Flag.exit k msg x m m' replies h e = absurd (cc)
  by_flag-Next Flag.barrier k msg x m m' replies h e = absurd (cc)

  -- A request that waits for the clock `k` still waits as long as the minimum has not reached `k`,
  -- and it is answered by the message that brings the minimum to `k`.
  pub dispatch-Next :
      (k : ℕ) (msg x : Message) (m m' : SspModel S) (replies : List Message)
      → Waits k msg m
      → dispatch x m ≡ some (replies, m')
      → Waits k msg m' ⊎ (m'.progress_tracker.min_clock ≡ k) × Answered msg replies
  unfolding dispatch
  dispatch-Next k msg x m m' replies h e = by_flag-Next x.flag k msg x m m' replies h e

  -- A request that waits for the clock `k`, which the minimum has not reached, still does after any
  -- messages, or one of the replies answers it.
  pub run-Waits :
      (k : ℕ) (msg : Message) (msgs replies : List Message) (m m' : SspModel S)
      → Waits k msg m
      → run msgs m ≡ some (replies, m')
      → Waits k msg m' ⊎ Answered msg replies
  unfolding run
  run-Waits k msg [] replies m m' h e = inl (Waits-same k msg m m' h (ground arith) (ground arith))
  run-Waits k msg (x ∷ msgs) replies m m' h e =
      let (r, done, e1) = >>=-eq-some (dispatch x m) _ e in
      let (rs, later, e2) = >>=-eq-some (run msgs r.1) _ e1 in
      let shape : replies ≡ r.0 ++ rs.0 = ground arith in
      elim (dispatch-Next k msg x m r.1 r.0 h done) [
        | inr (_, now) ↦ inr (rw shape (Any-append_left (λ y. Answers y msg) r.0 rs.0 now))
        | inl waits ↦ elim (run-Waits k msg msgs rs.0 r.1 rs.1 waits later) [
          | inl still ↦ let last : rs.1 ≡ m' = ground arith in inl (subst (Waits k msg) last still)
          | inr then_on ↦ inr (rw shape (Any-append_right (λ y. Answers y msg) r.0 rs.0 then_on))
        ]
      ]
