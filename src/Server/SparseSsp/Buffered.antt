-- ===== src/Server/SparseSsp/Buffered.antt =====
-- The clocks that a sparse SSP server has kept, when the minimum moves.
use flexps.Base.{
  ℕ, suc, ◌+◌, ◌≤◌, ◌<◌, ◌≡◌, ◌≢◌, refl, sym, ap, ◌∙◌, List, [], ◌∷◌, ◌++◌, Option, none, some,
  false, if◌then◌else◌, ◌>>=◌, arith, Option-cases, inl, inr, All, All-find, All-imp, find-put,
  find, length, ==_refl,
}
use flexps.Message.{Message, Platform}
use flexps.Server.Tracker.Minimum.{IsMin, advance-IsMin, advance-Advances, advance_cases}
use flexps.Server.Storage.{StorageClass}
use flexps.Server.Recorder.{MainRecorder}
use flexps.Server.SparseSsp.{
  SparseSspModel, too_fast, keep_clock, take_clock, clock_buffered, clock,
}
use flexps.Server.SparseSsp.Clocks.{limit, take_clock_lem}

-- A kept Clock that is not too fast any more, of another thread than the slow one.
abbrev pub Late : ℕ → ℕ → Message → Type 0
Late mover bound msg = (msg.version < bound) × (msg.sender ≢ mover)

module _ {S R : Type 0} ⦃p : Platform⦄ ⦃c : StorageClass S⦄ ⦃r : MainRecorder R⦄ where
  -- A thread that is not the slowest one, with a Clock that is at most one too fast.
  abbrev pub Ahead : SparseSspModel S R → Message → Type 0
  Ahead m msg =
      (msg.version ≤ limit m)
      × ((progress : ℕ) × (find msg.sender m.progress_tracker.progresses ≡ some progress)
          × (m.progress_tracker.min_clock < progress))

  -- The minimum is the least progress, and the clocks that are kept are of threads ahead of it.
  pub record Paced (m : SparseSspModel S R) : Type 0 where
    pub is_min : IsMin m.progress_tracker
    pub kept : All (Ahead m) m.buffer

  -- The thread `mover` is one of the slowest.
  pub record Slow (mover : ℕ) (m : SparseSspModel S R) : Type 0 where
    pub is_min : IsMin m.progress_tracker
    pub at_min : find mover m.progress_tracker.progresses ≡ some m.progress_tracker.min_clock

  -- While a thread stays at the minimum, the Clock of another one does not move the minimum.
  pub take_clock-Slow :
      (mover : ℕ) (msg : Message) (m m' : SparseSspModel S R) (changed : Option ℕ)
      (replies : List Message)
      → Slow mover m
      → msg.sender ≢ mover
      → take_clock msg m ≡ some (changed, replies, m')
      → (changed ≡ none) × (Slow mover m' × ((limit m' ≡ limit m) × (m'.buffer ≡ m.buffer)))
  take_clock-Slow mover msg m m' changed replies v other e =
      let (moved, (same_buffer, (same_st, same_sp))) = take_clock_lem msg m m' changed replies e in
      let (others, minimum) =
        advance-Advances msg.sender m.progress_tracker m'.progress_tracker changed moved in
      let still_min =
        advance-IsMin msg.sender m.progress_tracker m'.progress_tracker changed v.is_min moved in
      let there : find mover m'.progress_tracker.progresses ≡ some m.progress_tracker.min_clock =
        ground (arith, others mover, v.at_min) in
      elim minimum [
        | inl (unchanged, same_min) ↦ (
          unchanged,
          (
            record { is_min = still_min; at_min = rw same_min there },
            (rw (same_st, same_sp, same_min), same_buffer),
          ),
        )
        | inr (_, up) ↦ absurd (
            omega (
              arith,
              up,
              All-find (λ x. m'.progress_tracker.min_clock ≤ x.1) mover
                  m'.progress_tracker.progresses still_min.lower there,
            ))
      ]

  -- The clocks of `msgs`, one after the other.
  unfoldable pub take_each :
      List Message → SparseSspModel S R → Option (List Message × SparseSspModel S R)
  take_each [] m = some ([], m)
  take_each (msg ∷ msgs) m = do
    (changed, replies, m') ← take_clock msg m
    (more, m'') ← take_each msgs m'
    some (replies ++ more, m'')

  -- A Clock that takes the clocks that are kept one after the other, and does not call itself.
  unfoldable pub clock_in_turn :
      Message → SparseSspModel S R → Option (List Message × SparseSspModel S R)
  unfolding take_each keep_clock
  clock_in_turn msg m = if too_fast msg m then (do m' ← keep_clock msg m; some ([], m')) else (do
    (changed, replies, m') ← take_clock msg m
    elim changed [
      | none ↦ some (replies, m')
      | some updated_min_clock ↦ do
        (more, m'') ← take_each m'.buffer m'
        some (replies ++ more, record m'' { buffer = [] })
    ])

  clock-take_clock :
      (fuel mover : ℕ) (msg : Message) (m : SparseSspModel S R)
      → Slow mover m
      → Late mover (limit m) msg
      → clock (suc fuel) msg m ≡ (take_clock msg m >>= λ (changed, replies, m'). some (replies, m'))
  unfolding clock
  clock-take_clock fuel mover msg m v late =
      let slow : too_fast msg m ≡ false = ground (arith, late.0) in
      elim (Option-cases (take_clock msg m)) [
        | inl fails ↦ rw (slow, fails) refl
        | inr ((changed, replies, m'), e) ↦
            let (unchanged, _) = take_clock-Slow mover msg m m' changed replies v late.1 e in
            rw (slow, e, unchanged) refl
      ]

  clock_buffered-take_each :
      (fuel mover : ℕ) (msgs : List Message) (m : SparseSspModel S R)
      → Slow mover m
      → All (Late mover (limit m)) msgs
      → clock_buffered (clock (suc fuel)) msgs m ≡ take_each msgs m
  unfolding clock_buffered take_each
  clock_buffered-take_each fuel mover [] m v late = refl
  clock_buffered-take_each fuel mover (msg ∷ msgs) m v late =
      elim (Option-cases (take_clock msg m)) [
        | inl fails ↦ rw (clock-take_clock fuel mover msg m v late.0, fails) refl
        | inr ((changed, replies, m'), e) ↦
            let (unchanged, (v', (same_limit, same_buffer))) =
              take_clock-Slow mover msg m m' changed replies v late.0.1 e in
            rw
              (
                clock-take_clock fuel mover msg m v late.0,
                e,
                clock_buffered-take_each fuel mover msgs m' v' (rw same_limit late.1),
                ap length same_buffer,
                ==_refl (length m.buffer),
              )
              refl
      ]

  -- The thread that moves the minimum is at the new one, and the clocks that are kept are of others.
  pub moved_lem :
      (msg : Message) (m m' : SparseSspModel S R) (k : ℕ) (replies : List Message)
      → Paced m
      → take_clock msg m ≡ some (some k, replies, m')
      → Slow msg.sender m' × All (Late msg.sender (limit m')) m'.buffer
  moved_lem msg m m' k replies v e =
      let (moved, (same_buffer, (same_st, same_sp))) = take_clock_lem msg m m' (some k) replies e in
      let (q, found, em, moves) =
        advance_cases msg.sender m.progress_tracker m'.progress_tracker (some k) moved in
      let (others, minimum) =
        advance-Advances msg.sender m.progress_tracker m'.progress_tracker (some k) moved in
      elim moves [
        | inl (at_min, single, _, up) ↦ (
          record {
            is_min =
                advance-IsMin msg.sender m.progress_tracker m'.progress_tracker (some k) v.is_min
                  moved;
            at_min = ground (
              arith,
              em,
              up,
              at_min,
              find-put msg.sender msg.sender (q + 1) m.progress_tracker.progresses,
            );
          },
          rw same_buffer (
              All-imp (Ahead m) (Late msg.sender (limit m'))
                (λ x h. (
                  omega (arith, h.0, up, same_st, same_sp),
                  λ same.
                      let (progress, there, fast) = h.1 in
                      let both : some progress ≡ some q =
                        sym there ∙ ap (λ i. find i m.progress_tracker.progresses) same ∙ found in
                      absurd (ground (arith, both, fast, at_min)),
                ))
                m.buffer v.kept),
        )
        | inr (_, still, _) ↦ absurd (ground arith)
      ]

  -- While the kept clocks are of threads ahead of the minimum, `Clock` calls itself for each kept clock
  -- in turn, no deeper, and none of these calls keeps a Clock or moves the minimum: it is the loop that
  -- does not call itself, failures included.
  pub clock-clock_in_turn :
      (fuel : ℕ) (msg : Message) (m : SparseSspModel S R)
      → Paced m
      → clock (suc (suc fuel)) msg m ≡ clock_in_turn msg m
  unfolding clock clock_in_turn
  clock-clock_in_turn fuel msg m v = elim (Option-cases (take_clock msg m)) [
    | inl fails ↦ rw fails refl
    | inr ((changed, replies, m'), e) ↦ elim (Option-cases changed) [
      | inl still ↦ rw (e, still) refl
      | inr (k, up) ↦
          let (slow, late) = moved_lem msg m m' k replies v (rw (← up) e) in
          rw (e, up, clock_buffered-take_each fuel msg.sender m'.buffer m' slow late) refl
    ]
  ]
