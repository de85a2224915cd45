-- ===== src/Server/Bsp/Waiting.antt =====
-- server/bsp_model.cpp: a Get of a thread that is one clock ahead is kept until a Clock ends the round,
-- and is answered by that Clock.
use flexps.Base.{
  ℕ, ◌+◌, ◌≡◌, refl, ap, subst, ◌∙◌, List, [], ◌∷◌, ◌++◌, some, ◌==◌, arith, Bool-cases, inl, inr,
  ◌⊎◌, >>=-eq-some, Any, check, Any-append_left, Any-append_right,
}
use flexps.Message.{Message, Platform, Flag}
use flexps.Server.Tracker.{ProgressTracker, get_progress as progress_of}
use flexps.Server.Tracker.Minimum.{advance-Advances}
use flexps.Server.Storage
use flexps.Server.Storage.{StorageClass}
use flexps.Server.Storage.Replies.{Answers, get_all-Answers}
use flexps.Server.Reset.{reset_tracker}
use flexps.Server.Model.{dispatch, run, by_flag}
use flexps.Server.Bsp.{BspModel, clock, add, get, reset_worker, bsp_model}
use flexps.Server.Bsp.Rounds.{Flushes, clock_cases}

-- The request is kept for the end of the round.
abbrev pub Kept : {S : Type 0} → Message → BspModel S → Type 0
Kept msg m = Any (λ x. x ≡ msg) m.get_buffer

abbrev pub min_of : {S : Type 0} → BspModel S → ℕ
min_of m = m.progress_tracker.min_clock

module _ {S : Type 0} ⦃p : Platform⦄ ⦃c : StorageClass S⦄ where
  -- A message that ends no round: it leaves the minimum as it is, or it is a reset.
  abbrev Quiet : Message → BspModel S → BspModel S → Type 0
  Quiet x m m' = (x.flag ≡ Flag.reset_worker_in_model) ⊎ (min_of m' ≡ min_of m)

  -- No message of a run ends a round.
  abbrev pub AllQuiet : List Message → BspModel S → Type 0
  AllQuiet [] m = Unit
  AllQuiet (x ∷ msgs) m =
      (replies : List Message) × (m' : BspModel S) × (dispatch x m ≡ some (replies, m'))
      × Quiet x m m'
      × AllQuiet msgs m'

  -- The message ends the round: it applies the additions that were kept, then answers the Gets that
  -- were kept, this one with them.
  pub record EndsRound (msg x : Message) (m : BspModel S) : Type 0 where
    pub tracker : ProgressTracker
    pub replies : List Message
    pub next : BspModel S
    pub is_clock : x.flag ≡ Flag.clock
    pub ran : dispatch x m ≡ some (replies, next)
    pub up : min_of next ≡ min_of m + 1
    pub flushes : Flushes tracker m replies next
    pub answered : Any (λ r. Answers r msg) replies

  -- Some message of a run ends the round, and none before it does.
  pub record Answered (msg : Message) (msgs : List Message) (m : BspModel S) : Type 0 where
    pub before : List Message
    pub x : Message
    pub after : List Message
    pub replies : List Message
    pub between : BspModel S
    pub split : msgs ≡ before ++ x ∷ after
    pub ran : run before m ≡ some (replies, between)
    pub quiet : AllQuiet before m
    pub still : Kept msg between
    pub ends : EndsRound msg x between

  abbrev Next : Message → Message → BspModel S → BspModel S → Type 0
  Next msg x m m' = ((Kept msg m') × Quiet x m m') ⊎ EndsRound msg x m

  clock-Next :
      (msg x : Message) (m m' : BspModel S) (replies : List Message)
      → x.flag ≡ Flag.clock
      → dispatch x m ≡ some (replies, m')
      → Kept msg m
      → clock x m ≡ some (replies, m')
      → (Kept msg m' × Quiet x m m') ⊎ EndsRound msg x m
  clock-Next msg x m m' replies is_clock ran h e =
      let (changed, t, moved, far, how) = clock_cases x m m' replies e in
      elim how [
        | inl (none_changed, empty, same) ↦
            let still : m'.get_buffer ≡ m.get_buffer = ap (λ i. i.get_buffer) same in
            let at_min : min_of m' ≡ t.min_clock = ap min_of same in
            inl (
              rw still h,
              inr (
                  at_min ∙ elim (advance-Advances x.sender m.progress_tracker t changed moved).1 [
                    | inl (_, stays) ↦ stays
                    | inr (bad, _) ↦ absurd (ground (arith, none_changed, bad))
                  ]),
            )
        | inr (up, flushes) ↦
            let (s, s', added, got, _, same, _, _) = flushes in
            inr (record {
              tracker = t;
              replies = replies;
              next = m';
              is_clock = is_clock;
              ran = ran;
              up =
                  ap (λ (i : ProgressTracker). i.min_clock) same
                  ∙ elim (advance-Advances x.sender m.progress_tracker t changed moved).1 [
                    | inl (bad, _) ↦ absurd (ground (arith, up, bad))
                    | inr (_, more) ↦ more
                  ];
              flushes = flushes;
              answered = get_all-Answers msg m.get_buffer replies s s' got h;
            })
      ]

  get-Next :
      (msg x : Message) (m m' : BspModel S) (replies : List Message)
      → Kept msg m
      → get x m ≡ some (replies, m')
      → Kept msg m' × Quiet x m m'
  unfolding get
  get-Next msg x m m' replies h e =
      let (q, found, e1) = >>=-eq-some (progress_of x.sender m.progress_tracker) _ e in
      elim (Bool-cases (q == (m.progress_tracker.min_clock + 1))) [
        | inl ahead ↦
            let e2 = rw ahead at e1 in
            let more : m'.get_buffer ≡ m.get_buffer ++ x ∷ [] = ground arith in
            (rw more (Any-append_left (λ y. y ≡ msg) m.get_buffer (x ∷ []) h), inr (ground arith))
        | inr near ↦ elim (Bool-cases (q == m.progress_tracker.min_clock)) [
          | inl at_min ↦
              let (r, done, e2) =
                >>=-eq-some (Storage.get x m.storage) _ (rw (near, at_min) at e1) in
              let same : m'.get_buffer ≡ m.get_buffer = ground arith in
              (rw same h, inr (ground arith))
          | inr behind ↦ absurd (ground (arith, rw (near, behind) at e1))
        ]
      ]

  add-Next :
      (msg x : Message) (m m' : BspModel S) (replies : List Message)
      → Kept msg m
      → add x m ≡ some (replies, m')
      → Kept msg m' × Quiet x m m'
  unfolding add
  add-Next msg x m m' replies h e =
      let (q, found, e1) = >>=-eq-some (progress_of x.sender m.progress_tracker) _ e in
      let (u, fits, e2) = >>=-eq-some (check (q == m.progress_tracker.min_clock)) _ e1 in
      let same : m'.get_buffer ≡ m.get_buffer = ground arith in (rw same h, inr (ground arith))

  reset_worker-Next :
      (msg x : Message) (m m' : BspModel S) (replies : List Message)
      → x.flag ≡ Flag.reset_worker_in_model
      → Kept msg m
      → reset_worker x m ≡ some (replies, m')
      → Kept msg m' × Quiet x m m'
  unfolding reset_worker
  reset_worker-Next msg x m m' replies is_reset h e =
      let (t, done, e1) = >>=-eq-some (reset_tracker x.body) _ e in
      let same : m'.get_buffer ≡ m.get_buffer = ground arith in (rw same h, inl is_reset)

  by_flag-Round :
      (f : Flag) (msg x : Message) (m m' : BspModel S) (replies : List Message)
      → x.flag ≡ f
      → dispatch x m ≡ some (replies, m')
      → Kept msg m
      → by_flag f x m ≡ some (replies, m')
      → Next msg x m m'
  unfolding by_flag
  by_flag-Round Flag.clock msg x m m' replies is ran h e = clock-Next msg x m m' replies is ran h e
  by_flag-Round Flag.add msg x m m' replies is ran h e = inl (add-Next msg x m m' replies h e)
  by_flag-Round Flag.get msg x m m' replies is ran h e = inl (get-Next msg x m m' replies h e)
  by_flag-Round Flag.reset_worker_in_model msg x m m' replies is ran h e =
      inl (reset_worker-Next msg x m m' replies is h e)
  by_flag-Round Flag.exit msg x m m' replies is ran h e = absurd (cc)
  by_flag-Round Flag.barrier msg x m m' replies is ran h e = absurd (cc)

  dispatch-Round :
      (msg x : Message) (m m' : BspModel S) (replies : List Message)
      → Kept msg m
      → dispatch x m ≡ some (replies, m')
      → Next msg x m m'
  unfolding dispatch
  dispatch-Round msg x m m' replies h e = by_flag-Round x.flag msg x m m' replies refl e h e

  -- What happens to a request that is kept over a run.
  abbrev pub Waited : Message → List Message → BspModel S → BspModel S → Type 0
  Waited msg msgs m m' = (Kept msg m' × AllQuiet msgs m) ⊎ Answered msg msgs m

  run-Waited :
      (msg : Message) (msgs replies : List Message) (m m' : BspModel S)
      → Kept msg m
      → run msgs m ≡ some (replies, m')
      → Waited msg msgs m m'
  unfolding run
  run-Waited msg [] replies m m' h e =
      let last : m ≡ m' = ground arith in inl (subst (Kept msg) last h, tt)
  run-Waited msg (x ∷ msgs) replies m m' h e =
      let (r, done, e1) = >>=-eq-some (dispatch x m) _ e in
      let (rs, later, e2) = >>=-eq-some (run msgs r.1) _ e1 in
      let last : rs.1 ≡ m' = ground arith in
      elim (dispatch-Round msg x m r.1 r.0 h done) [
        | inr ends ↦ inr (record {
          before = [];
          x = x;
          after = msgs;
          replies = [];
          between = m;
          split = refl;
          ran = refl;
          quiet = tt;
          still = h;
          ends = ends;
        })
        | inl (kept, quiet) ↦ elim (run-Waited msg msgs rs.0 r.1 rs.1 kept later) [
          | inl (still, silent) ↦ inl (subst (Kept msg) last still, (r.0, r.1, done, quiet, silent))
          | inr a ↦ inr (record {
            before = x ∷ a.before;
            x = a.x;
            after = a.after;
            replies = r.0 ++ a.replies;
            between = a.between;
            split = ap (λ l. x ∷ l) a.split;
            ran = rw (done, a.ran) refl;
            quiet = (r.0, r.1, done, quiet, a.quiet);
            still = a.still;
            ends = a.ends;
          })
        ]
      ]

  -- A Get of a thread one clock ahead of the minimum is not answered at once. Over any messages after
  -- it that do not abort, either it is still kept, and each of them left the minimum as it was or was a
  -- reset; or it is kept over messages of this kind, and the next one, a Clock that moves the minimum by
  -- one, applies the additions that were kept, answers the Gets that were kept, and answers it with
  -- them.
  pub get-Waited :
      (msg : Message) (msgs replies : List Message) (m m' : BspModel S)
      → msg.flag ≡ Flag.get
      → progress_of msg.sender m.progress_tracker ≡ some (m.progress_tracker.min_clock + 1)
      → run (msg ∷ msgs) m ≡ some (replies, m')
      → (m0 : BspModel S) × (dispatch msg m ≡ some ([], m0)) × Waited msg msgs m0 m'
  unfolding run dispatch by_flag get
  get-Waited msg msgs replies m m' is_get ahead e =
      let m0 : BspModel S = record m { get_buffer = m.get_buffer ++ msg ∷ [] } in
      let done : dispatch msg m ≡ some ([], m0) = ground (arith, is_get, ahead) in
      let (rs, later, e2) = >>=-eq-some (run msgs m0) _ (rw done at e) in
      let last : rs.1 ≡ m' = ground arith in
      (
        m0,
        done,
        run-Waited msg msgs rs.0 m0 m'
            (Any-append_right (λ y. y ≡ msg) m.get_buffer (msg ∷ []) (inl refl))
            (later ∙ ap (λ i. some (rs.0, i)) last),
      )
