-- ===== src/Server/SparseSsp/Clocks.antt =====
-- Which Clocks a sparse SSP server takes, and which it keeps.
use flexps.Base.{
  ℕ, ◌+◌, ◌<◌, ◌≡◌, List, [], ◌∷◌, ◌++◌, Option, some, >>=-eq-some, arith, Bool-cases, Option-cases,
  inl, inr, ◌⊎◌,
}
use flexps.Message.{Message, Platform}
use flexps.Server.Tracker.{advance_and_get_changed_min_clock, get_progress as progress_of}
use flexps.Server.Storage
use flexps.Server.Storage.{StorageClass}
use flexps.Server.Recorder.{MainRecorder, get_non_conflict_msgs, handle_too_fast_buffer}
use flexps.Server.SparseSsp.{
  SparseSspModel, too_fast, keep_clock, take_clock, move_min_clock, clock_before_buffered,
}

module _ {S R : Type 0} ⦃p : Platform⦄ ⦃c : StorageClass S⦄ ⦃r : MainRecorder R⦄ where
  move_keeps :
      (k : ℕ) (m m' : SparseSspModel S R) (replies : List Message)
      → move_min_clock k m ≡ some (replies, m')
      → (m'.progress_tracker ≡ m.progress_tracker)
        × ((m'.buffer ≡ m.buffer)
            × ((m'.staleness ≡ m.staleness) × (m'.speculation ≡ m.speculation)))
  unfolding move_min_clock
  move_keeps k m m' replies e =
      let ((msgs, recorder'), handled, e1) = >>=-eq-some (handle_too_fast_buffer k _) _ e in
      let ((rs, s), got, e2) = >>=-eq-some (Storage.get_all msgs m.storage) _ e1 in
      (ground arith, (ground arith, (ground arith, ground arith)))

  -- What a Clock that is not too fast does to the state.
  pub take_clock_lem :
      (msg : Message) (m m' : SparseSspModel S R) (changed : Option ℕ) (replies : List Message)
      → take_clock msg m ≡ some (changed, replies, m')
      → (advance_and_get_changed_min_clock msg.sender m.progress_tracker
          ≡ some (changed, m'.progress_tracker))
        × ((m'.buffer ≡ m.buffer)
            × ((m'.staleness ≡ m.staleness) × (m'.speculation ≡ m.speculation)))
  unfolding take_clock
  take_clock_lem msg m m' changed replies e =
      let ((up, t), moved, e1) =
        >>=-eq-some (advance_and_get_changed_min_clock msg.sender m.progress_tracker) _ e in
      let (progress, found, e2) = >>=-eq-some (progress_of msg.sender t) _ e1 in
      let ((msgs, recorder'), free, e3) =
        >>=-eq-some (get_non_conflict_msgs progress msg.sender t.min_clock m.recorder) _ e2 in
      let ((rs, s), got, e4) = >>=-eq-some (Storage.get_all msgs m.storage) _ e3 in
      let m1 : SparseSspModel S R = record m {
        progress_tracker = t;
        recorder = recorder';
        storage = s;
      } in
      elim (Option-cases up) [
        | inl still ↦
            let e5 = rw still at e4 in
            let same : m'.progress_tracker ≡ t = ground arith in
            let same_up : changed ≡ up = ground arith in
            (rw (same, same_up) moved, (ground arith, (ground arith, ground arith)))
        | inr (k, is_up) ↦
            let ((more, m2), after, e5) = >>=-eq-some (move_min_clock k m1) _ (rw is_up at e4) in
            let (same_tracker, (same_buffer, (same_st, same_sp))) = move_keeps k m1 m2 more after in
            let same : m'.progress_tracker ≡ t = ground (arith, same_tracker) in
            let same_up : changed ≡ up = ground arith in
            (
              rw (same, same_up) moved,
              (ground (arith, same_buffer), (ground (arith, same_st), ground (arith, same_sp))),
            )
      ]

  -- The bound on how far a Clock may be ahead of the minimum.
  abbrev pub limit : SparseSspModel S R → ℕ
  limit m = m.staleness + m.speculation + m.progress_tracker.min_clock + 1

  abbrev pub Kept : Message → SparseSspModel S R → List Message → SparseSspModel S R → Type 0
  Kept msg m replies m' =
      (msg.version ≡ limit m)
      × (replies ≡ [])
      × (m'.buffer ≡ m.buffer ++ msg ∷ [])
      × (m'.progress_tracker ≡ m.progress_tracker)

  abbrev pub Taken : Message → SparseSspModel S R → SparseSspModel S R → Type 0
  Taken msg m m' =
      (msg.version < limit m)
      × (m'.buffer ≡ m.buffer)
      × ((changed : Option ℕ) × (advance_and_get_changed_min_clock msg.sender m.progress_tracker
            ≡ some (changed, m'.progress_tracker)))

  -- A Clock that does not abort is at the limit, and then it is kept for later, no thread moves and
  -- nothing is answered; or it is below the limit, and then its thread moves on and nothing is kept.
  pub clock_before_buffered_cases :
      (msg : Message) (m m' : SparseSspModel S R) (replies : List Message)
      → clock_before_buffered msg m ≡ some (replies, m')
      → Kept msg m replies m' ⊎ Taken msg m m'
  unfolding clock_before_buffered keep_clock
  clock_before_buffered_cases msg m m' replies e = elim (Bool-cases (too_fast msg m)) [
    | inl fast ↦ inl (ground arith, ground arith, ground arith, ground arith)
    | inr slow ↦
        let e0 = rw slow at e in
        let ((changed, rs, m1), taken, e1) = >>=-eq-some (take_clock msg m) _ e0 in
        let (moved, (same_buffer, _)) = take_clock_lem msg m m1 changed rs taken in
        let same : m' ≡ m1 = ground arith in
        inr (ground arith, rw same same_buffer, (changed, rw same moved))
  ]
