-- ===== src/Server/SparseSsp/Pacing.antt =====
-- The kept clocks of a sparse SSP server stay ahead of the minimum, if each thread counts its clocks.
use flexps.Base.{
  ℕ, suc, subst, ◌+◌, ◌≡◌, refl, sym, ap, ◌∙◌, List, [], ◌∷◌, ◌++◌, none, some, ◌==◌, if◌then◌else◌,
  >>=-eq-some, arith, Bool-cases, Option-cases, inl, inr, All, All-append, All-imp, find-put, find,
}
use flexps.Message.{Message, Platform}
use flexps.Server.Tracker.Minimum.{advance-IsMin, advance_cases}
use flexps.Server.Storage.{StorageClass}
use flexps.Server.Recorder.{MainRecorder}
use flexps.Server.SparseSsp.{SparseSspModel, too_fast, keep_clock, take_clock, clock}
use flexps.Server.SparseSsp.Clocks.{limit, take_clock_lem}
use flexps.Server.SparseSsp.Buffered.{
  Late, Ahead, Paced, Slow, take_clock-Slow, take_each, clock_in_turn, moved_lem,
  clock-clock_in_turn,
}

module _ {S R : Type 0} ⦃p : Platform⦄ ⦃c : StorageClass S⦄ ⦃r : MainRecorder R⦄ where
  -- The Clock carries the number of clocks that its thread has sent before.
  abbrev pub Paces : Message → SparseSspModel S R → Type 0
  Paces msg m = find msg.sender m.progress_tracker.progresses ≡ some msg.version

  take_each-Slow :
      (mover : ℕ) (msgs : List Message) (m m' : SparseSspModel S R) (replies : List Message)
      → Slow mover m
      → All (Late mover (limit m)) msgs
      → take_each msgs m ≡ some (replies, m')
      → Slow mover m'
  unfolding take_each
  take_each-Slow mover [] m m' replies v late e =
      let same : m ≡ m' = ground arith in subst (Slow mover) same v
  take_each-Slow mover (msg ∷ msgs) m m' replies v late e =
      let ((changed, rs, m1), taken, e1) = >>=-eq-some (take_clock msg m) _ e in
      let (_, (v1, (same_limit, same_buffer))) =
        take_clock-Slow mover msg m m1 changed rs v late.0.1 taken in
      let ((more, m2), each, e2) = >>=-eq-some (take_each msgs m1) _ e1 in
      let v2 = take_each-Slow mover msgs m1 m2 more v1 (rw same_limit late.1) each in
      let same : m2 ≡ m' = ground arith in subst (Slow mover) same v2

  -- A Clock that does not move the minimum leaves the threads ahead of it there.
  stays_Ahead :
      (msg : Message) (m m' : SparseSspModel S R) (replies : List Message)
      → take_clock msg m ≡ some (none, replies, m')
      → (x : Message) → Ahead m x
      → Ahead m' x
  stays_Ahead msg m m' replies e x (low, (progress, there, fast)) =
      let (moved, (same_buffer, (same_st, same_sp))) = take_clock_lem msg m m' none replies e in
      let (q, found, em, moves) =
        advance_cases msg.sender m.progress_tracker m'.progress_tracker none moved in
      let still : m'.progress_tracker.min_clock ≡ m.progress_tracker.min_clock =
        ground (arith, moves) in
      let found' : find x.sender m'.progress_tracker.progresses
          ≡ (if x.sender == msg.sender then some (q + 1) else some progress) =
        rw em
          (find-put x.sender msg.sender (q + 1) m.progress_tracker.progresses ∙ rw there refl) in
      elim (Bool-cases (x.sender == msg.sender)) [
        | inl same ↦
            let sender : x.sender ≡ msg.sender = ground arith in
            let both : some progress ≡ some q =
              sym there ∙ ap (λ i. find i m.progress_tracker.progresses) sender ∙ found in
            (
              omega (arith, low, still, same_st, same_sp),
              (q + 1, found' ∙ rw same refl, ground (arith, both, fast, still)),
            )
        | inr other ↦ (
          omega (arith, low, still, same_st, same_sp),
          (progress, found' ∙ rw other refl, omega (arith, fast, still)),
        )
      ]

  -- A Clock that carries the number of clocks that its thread has sent before, and does not abort, leaves
  -- the minimum the least progress and only clocks of threads ahead of it in the buffer, if this was so.
  pub clock-Paced :
      (fuel : ℕ) (msg : Message) (m m' : SparseSspModel S R) (replies : List Message)
      → Paced m
      → Paces msg m
      → clock (suc (suc fuel)) msg m ≡ some (replies, m')
      → Paced m'
  unfolding clock_in_turn keep_clock
  clock-Paced fuel msg m m' replies v paces e =
      let e0 : clock_in_turn msg m ≡ some (replies, m') =
        sym (clock-clock_in_turn fuel msg m v) ∙ e in
      elim (Bool-cases (too_fast msg m)) [
        | inl fast ↦
            let at_limit : msg.version ≡ limit m = ground arith in
            let shape : record m { buffer = m.buffer ++ msg ∷ [] } ≡ m' = ground arith in
            subst Paced shape (record {
              is_min = v.is_min;
              kept =
                  All-append (Ahead m) m.buffer (msg ∷ []) v.kept
                    ((omega (arith, at_limit), (msg.version, paces, omega (arith, at_limit))), tt);
            })
        | inr slow ↦
            let ((changed, rs, m1), taken, e1) = >>=-eq-some (take_clock msg m) _ (rw slow at e0) in
            let (moved, (same_buffer, _)) = take_clock_lem msg m m1 changed rs taken in
            elim (Option-cases changed) [
              | inl still ↦
                  let same : m1 ≡ m' = ground arith in
                  subst Paced same (record {
                    is_min =
                        advance-IsMin msg.sender m.progress_tracker m1.progress_tracker changed
                          v.is_min moved;
                    kept = rw same_buffer (
                        All-imp (Ahead m) (Ahead m1) (stays_Ahead msg m m1 rs (rw (← still) taken))
                          m.buffer v.kept);
                  })
              | inr (k, up) ↦
                  let (slow_mover, late) = moved_lem msg m m1 k rs v (rw (← up) taken) in
                  let ((more, m2), each, e2) =
                    >>=-eq-some (take_each m1.buffer m1) _ (rw up at e1) in
                  let v2 = take_each-Slow msg.sender m1.buffer m1 m2 more slow_mover late each in
                  let same : record m2 { buffer = [] } ≡ m' = ground arith in
                  subst Paced same (record { is_min = v2.is_min; kept = tt })
            ]
      ]
