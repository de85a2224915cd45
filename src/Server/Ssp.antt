-- ===== src/Server/Ssp.antt =====
-- server/ssp_model.hpp and .cpp: stale synchronous parallel. Each operation returns the messages
-- that it pushes to the reply queue, in order, and the new state; `none` is a failed CHECK.
-- `staleness_` is a uint32_t, so the sum and the difference with it wrap at 2^32; a clock is an
-- int, whose overflow is undefined, and does not wrap.
pub mod Staleness
pub mod Blocked
pub mod Conservation
use flexps.Base.{
  ℕ, ◌+◌, List, [], ◌∷◌, Option, none, some, ◌>>=◌, ltb, if◌then◌else◌, add_u32, sub_u32,
}
use flexps.Message.{Message, Platform}
use flexps.Server.Tracker.{
  ProgressTracker, advance_and_get_changed_min_clock, get_progress as progress_of,
}
use flexps.Server.PendingBuffer
use flexps.Server.PendingBuffer.{PendingBuffer}
use flexps.Server.Storage
use flexps.Server.Storage.{StorageClass}
use flexps.Server.Model.{AbstractModel}
use flexps.Server.Reset.{reset_tracker, reset_reply}

pub record SspModel (S : Type 0) : Type 0 where
  pub model_id : ℕ
  pub staleness : ℕ
  pub storage : S
  pub progress_tracker : ProgressTracker
  pub buffer : PendingBuffer

module _ {S : Type 0} ⦃p : Platform⦄ ⦃c : StorageClass S⦄ where
  -- The body of `Clock` where the minimum has moved to `min_clock`: the tracker is `t` by now.
  unfoldable pub release : ℕ → ProgressTracker → SspModel S → Option (List Message × SspModel S)
  release min_clock t m = do
    let (reqs_blocked_at_this_min_clock, b) = PendingBuffer.pop min_clock m.buffer
    (replies, s) ← Storage.get_all reqs_blocked_at_this_min_clock m.storage
    some (replies, record m { storage = c.finish_iter s; progress_tracker = t; buffer = b })

  unfoldable pub clock : Message → SspModel S → Option (List Message × SspModel S)
  clock msg m = do
    (updated_min_clock, t) ← advance_and_get_changed_min_clock msg.sender m.progress_tracker
    elim updated_min_clock [
      | none ↦ some ([], record m { progress_tracker = t })
      | some min_clock ↦ release min_clock t m
    ]

  unfoldable pub add : Message → SspModel S → Option (List Message × SspModel S)
  add msg m = do s ← Storage.add msg m.storage; some ([], record m { storage = s })

  unfoldable pub get : Message → SspModel S → Option (List Message × SspModel S)
  get msg m = do
    progress ← progress_of msg.sender m.progress_tracker
    if ltb (add_u32 m.progress_tracker.min_clock m.staleness) progress
        then some (
          [],
          record m { buffer = PendingBuffer.push (sub_u32 progress m.staleness) msg m.buffer },
        )
        else (do
          (reply, s) ← Storage.get msg m.storage
          some (reply ∷ [], record m { storage = s }))

  unfoldable pub reset_worker : Message → SspModel S → Option (List Message × SspModel S)
  reset_worker msg m = do
    t ← reset_tracker msg.body
    some (reset_reply m.model_id msg ∷ [], record m { progress_tracker = t })

  instance abbrev pub ssp_model : AbstractModel (SspModel S)
  ssp_model = record { clock = clock; add = add; get = get; reset_worker = reset_worker }

abbrev pub get_progress : {S : Type 0} → ℕ → SspModel S → Option ℕ
get_progress tid m = progress_of tid m.progress_tracker

abbrev pub get_pending_size : {S : Type 0} → ℕ → SspModel S → ℕ × SspModel S
get_pending_size progress m =
    let (n, b) = PendingBuffer.size progress m.buffer in (n, record m { buffer = b })
