-- ===== src/Server/Bsp.antt =====
-- server/bsp_model.hpp and .cpp: bulk synchronous parallel. Each operation returns the messages
-- that it pushes to the reply queue, in order, and the new state; `none` is a failed CHECK.
pub mod Rounds
pub mod Waiting
pub mod Sequential
use flexps.Base.{
  ℕ, ◌+◌, List, [], ◌∷◌, ◌++◌, Option, none, some, ◌>>=◌, ◌>>◌, check, length, leb, ◌==◌,
  if◌then◌else◌,
}
use flexps.Message.{Message, Platform}
use flexps.Server.Tracker.{
  ProgressTracker, advance_and_get_changed_min_clock, get_progress as progress_of,
}
use flexps.Server.Storage
use flexps.Server.Storage.{StorageClass}
use flexps.Server.Model.{AbstractModel}
use flexps.Server.Reset.{reset_tracker, reset_reply}

pub record BspModel (S : Type 0) : Type 0 where
  pub model_id : ℕ
  pub storage : S
  pub progress_tracker : ProgressTracker
  pub get_buffer : List Message
  pub add_buffer : List Message

module _ {S : Type 0} ⦃p : Platform⦄ ⦃c : StorageClass S⦄ where
  -- The body of `Clock` where the minimum has moved: the tracker is `t` by now.
  unfoldable pub flush : ProgressTracker → BspModel S → Option (List Message × BspModel S)
  flush t m = do
    s ← Storage.add_all m.add_buffer m.storage
    (replies, s') ← Storage.get_all m.get_buffer s
    some (
      replies,
      record {
        model_id = m.model_id;
        storage = c.finish_iter s';
        progress_tracker = t;
        get_buffer = [];
        add_buffer = [];
      },
    )

  unfoldable pub clock : Message → BspModel S → Option (List Message × BspModel S)
  clock msg m = do
    (updated_min_clock, t) ← advance_and_get_changed_min_clock msg.sender m.progress_tracker
    progress ← progress_of msg.sender t
    check (leb progress (t.min_clock + 1))
    elim updated_min_clock [
      | none ↦ some ([], record m { progress_tracker = t })
      | some _ ↦ flush t m
    ]

  unfoldable pub add : Message → BspModel S → Option (List Message × BspModel S)
  add msg m = do
    progress ← progress_of msg.sender m.progress_tracker
    check (progress == m.progress_tracker.min_clock)
    some ([], record m { add_buffer = m.add_buffer ++ msg ∷ [] })

  unfoldable pub get : Message → BspModel S → Option (List Message × BspModel S)
  get msg m = do
    progress ← progress_of msg.sender m.progress_tracker
    if progress == m.progress_tracker.min_clock + 1
        then some ([], record m { get_buffer = m.get_buffer ++ msg ∷ [] })
        else if progress == m.progress_tracker.min_clock
        then (do
          (reply, s) ← Storage.get msg m.storage
          some (reply ∷ [], record m { storage = s }))
        else none

  unfoldable pub reset_worker : Message → BspModel S → Option (List Message × BspModel S)
  reset_worker msg m = do
    t ← reset_tracker msg.body
    some (reset_reply m.model_id msg ∷ [], record m { progress_tracker = t })

  instance abbrev pub bsp_model : AbstractModel (BspModel S)
  bsp_model = record { clock = clock; add = add; get = get; reset_worker = reset_worker }

abbrev pub get_progress : {S : Type 0} → ℕ → BspModel S → Option ℕ
get_progress tid m = progress_of tid m.progress_tracker

abbrev pub get_get_pending_size : {S : Type 0} → BspModel S → ℕ
get_get_pending_size m = length m.get_buffer

abbrev pub get_add_pending_size : {S : Type 0} → BspModel S → ℕ
get_add_pending_size m = length m.add_buffer
