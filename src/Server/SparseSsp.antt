-- ===== src/Server/SparseSsp.antt =====
-- server/sparsessp/sparse_ssp_model.hpp and .cpp, over either recorder. Clocks are natural
-- numbers.
pub mod Clocks
pub mod Buffered
pub mod Pacing
use flexps.Base.{
  ℕ, zero, suc, ◌+◌, ◌-◌, List, [], ◌∷◌, ◌++◌, Option, none, some, Bool, true, false, leb, ◌==◌,
  if◌then◌else◌, ◌>>=◌, ◌>>◌, check, length,
}
use flexps.Message.{Message, Platform}
use flexps.Server.Tracker.{
  ProgressTracker, advance_and_get_changed_min_clock, check_thread_valid,
  get_progress as progress_of,
}
use flexps.Server.Storage
use flexps.Server.Storage.{StorageClass}
use flexps.Server.Reset.{reset_tracker, reset_reply}
use flexps.Server.Recorder.{
  MainRecorder, SparseRecorder, get_non_conflict_msgs, handle_too_fast_buffer, add_record,
}

pub record SparseSspModel (S R : Type 0) : Type 0 where
  pub model_id : ℕ
  pub storage : S
  pub progress_tracker : ProgressTracker
  pub recorder : SparseRecorder R
  pub buffer : List Message
  pub staleness : ℕ
  pub speculation : ℕ

module _ {S R : Type 0} ⦃p : Platform⦄ ⦃c : StorageClass S⦄ ⦃r : MainRecorder R⦄ where
  -- Whether a Clock is so fast that it is kept for later.
  abbrev pub too_fast : Message → SparseSspModel S R → Bool
  too_fast msg m = leb (m.staleness + m.speculation + m.progress_tracker.min_clock + 1) msg.version

  -- A Clock that is too fast, by one at most.
  unfoldable pub keep_clock : Message → SparseSspModel S R → Option (SparseSspModel S R)
  keep_clock msg m = do
    check (msg.version == m.staleness + m.speculation + m.progress_tracker.min_clock + 1)
    some (record m { buffer = m.buffer ++ msg ∷ [] })

  -- Where the minimum has moved to `updated_min_clock`: the record of the version before is removed,
  -- and the Gets that were too fast are answered or forwarded.
  unfoldable pub move_min_clock :
      ℕ → SparseSspModel S R → Option (List Message × SparseSspModel S R)
  move_min_clock updated_min_clock m = do
    let records = r.remove_record (updated_min_clock - 1) m.recorder.main_recorder
    (msgs, recorder') ←
        handle_too_fast_buffer updated_min_clock (record m.recorder { main_recorder = records })
    (replies, s) ← Storage.get_all msgs m.storage
    some (replies, record m { recorder = recorder'; storage = c.finish_iter s })

  -- A Clock that is not too fast, but for the clocks that were kept: where the minimum moves, the
  -- answer has its new value.
  unfoldable pub take_clock :
      Message → SparseSspModel S R → Option (Option ℕ × List Message × SparseSspModel S R)
  unfolding move_min_clock
  take_clock msg m = do
    (changed, t) ← advance_and_get_changed_min_clock msg.sender m.progress_tracker
    progress ← progress_of msg.sender t
    (msgs, recorder') ← get_non_conflict_msgs progress msg.sender t.min_clock m.recorder
    (replies, s) ← Storage.get_all msgs m.storage
    let m' : SparseSspModel S R = record m {
      progress_tracker = t;
      recorder = recorder';
      storage = s;
    }
    elim changed [
      | none ↦ some (none, replies, m')
      | some updated_min_clock ↦ do
        (more, m'') ← move_min_clock updated_min_clock m'
        some (some updated_min_clock, replies ++ more, m'')
    ]

  -- `Clock`, but for the clocks that were too fast, which it handles last.
  unfoldable pub clock_before_buffered :
      Message → SparseSspModel S R → Option (List Message × SparseSspModel S R)
  unfolding keep_clock take_clock
  clock_before_buffered msg m =
      if too_fast msg m
      then (do m' ← keep_clock msg m; some ([], m'))
      else (do (changed, replies, m') ← take_clock msg m; some (replies, m'))

  -- The loop over `buffer_`, in which `run` is the call of `Clock`. A call that changes the buffer leaves
  -- the loop without a valid iterator, which is a fault.
  unfoldable pub clock_buffered :
      (Message → SparseSspModel S R → Option (List Message × SparseSspModel S R))
      → List Message
      → SparseSspModel S R
      → Option (List Message × SparseSspModel S R)
  clock_buffered run [] m = some ([], m)
  clock_buffered run (msg ∷ msgs) m = do
    (replies, m') ← run msg m
    check (length m'.buffer == length m.buffer)
    (more, m'') ← clock_buffered run msgs m'
    some (replies ++ more, m'')

  -- `Clock`, which calls itself at most `fuel` deep.
  unfoldable pub clock :
      ℕ → Message → SparseSspModel S R → Option (List Message × SparseSspModel S R)
  unfolding keep_clock take_clock clock_buffered
  clock zero msg m = none
  clock (suc fuel) msg m = if too_fast msg m then (do m' ← keep_clock msg m; some ([], m')) else (do
    (changed, replies, m') ← take_clock msg m
    elim changed [
      | none ↦ some (replies, m')
      | some updated_min_clock ↦ do
        (more, m'') ← clock_buffered (clock fuel) m'.buffer m'
        some (replies ++ more, record m'' { buffer = [] })
    ])

  unfoldable pub get : Message → SparseSspModel S R → Option (List Message × SparseSspModel S R)
  get msg m = do
    check (check_thread_valid msg.sender m.progress_tracker)
    check (length msg.body == 1)
    (replies, s) ←
        (if msg.version == 0 then Storage.get_all (msg ∷ []) m.storage else some ([], m.storage))
    recorder' ← add_record msg m.recorder
    some (replies, record m { storage = s; recorder = recorder' })

  unfoldable pub add : Message → SparseSspModel S R → Option (List Message × SparseSspModel S R)
  add msg m = do
    progress ← progress_of msg.sender m.progress_tracker
    check (msg.version == progress)
    s ← Storage.add msg m.storage
    some ([], record m { storage = s })

  unfoldable pub reset_worker :
      Message → SparseSspModel S R → Option (List Message × SparseSspModel S R)
  reset_worker msg m = do
    t ← reset_tracker msg.body
    some (reset_reply m.model_id msg ∷ [], record m { progress_tracker = t })

abbrev pub get_progress : {S R : Type 0} → ℕ → SparseSspModel S R → Option ℕ
get_progress tid m = progress_of tid m.progress_tracker
