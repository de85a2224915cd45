-- ===== src/Server/Asp.antt =====
-- server/asp_model.hpp and .cpp: asynchronous parallel. Each operation returns the messages that
-- it pushes to the reply queue, in order, and the new state; `none` is a failed CHECK.
use flexps.Base.{ℕ, List, [], ◌∷◌, Option, some, ◌>>=◌, ◌>>◌, check}
use flexps.Message.{Message, Platform}
use flexps.Server.Tracker.{
  ProgressTracker, advance_and_get_changed_min_clock, check_thread_valid,
  get_progress as progress_of,
}
use flexps.Server.Storage
use flexps.Server.Storage.{StorageClass}
use flexps.Server.Model.{AbstractModel}
use flexps.Server.Reset.{reset_tracker, reset_reply}

pub record AspModel (S : Type 0) : Type 0 where
  pub model_id : ℕ
  pub storage : S
  pub progress_tracker : ProgressTracker

module _ {S : Type 0} ⦃p : Platform⦄ ⦃c : StorageClass S⦄ where
  unfoldable pub clock : Message → AspModel S → Option (List Message × AspModel S)
  clock msg m = do
    (_, t) ← advance_and_get_changed_min_clock msg.sender m.progress_tracker
    some ([], record m { progress_tracker = t })

  unfoldable pub add : Message → AspModel S → Option (List Message × AspModel S)
  add msg m = do
    check (check_thread_valid msg.sender m.progress_tracker)
    s ← Storage.add msg m.storage
    some ([], record m { storage = s })

  unfoldable pub get : Message → AspModel S → Option (List Message × AspModel S)
  get msg m = do
    check (check_thread_valid msg.sender m.progress_tracker)
    (reply, s) ← Storage.get msg m.storage
    some (reply ∷ [], record m { storage = s })

  unfoldable pub reset_worker : Message → AspModel S → Option (List Message × AspModel S)
  reset_worker msg m = do
    t ← reset_tracker msg.body
    some (reset_reply m.model_id msg ∷ [], record m { progress_tracker = t })

  instance abbrev pub asp_model : AbstractModel (AspModel S)
  asp_model = record { clock = clock; add = add; get = get; reset_worker = reset_worker }

abbrev pub get_progress : {S : Type 0} → ℕ → AspModel S → Option ℕ
get_progress tid m = progress_of tid m.progress_tracker
