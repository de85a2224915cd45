-- ===== src/Tests/Recorder.antt =====
-- The clock 2 of the thread 100, while the thread 101 is at the clock 0 and has read the key 7.
use flexps.Base.{ℕ, ◌≡◌, refl, List, [], ◌∷◌, some, All}
use flexps.Message.{Message, Flag}
use flexps.Server.Recorder.{
  SparseRecorder, has_conflict, first_recorded, get_non_conflict_msgs, get_blocked, get_own,
  place_own, reply_or_forward, reply_or_forward_all, handle_too_fast_buffer,
}
use flexps.Server.Recorder.UnorderedMap.{MapRecords, map_records}
use flexps.Server.Recorder.Vector.{vector_records}
use flexps.Server.Recorder.Conflicts.{
  Conflict, NoConflict, has_conflict-Conflict, handle_too_fast_buffer-NoConflict,
}
use flexps.Server.Recorder.Replies.{get_non_conflict_msgs-NoConflict}
use flexps.Server.Storage.MapStorage.{MapStorage, map_storage}
use flexps.Server.SparseSsp.{SparseSspModel, clock_before_buffered}
use flexps.Tests.Fixtures.{plain, numbers, value_of}

abbrev ahead : ℕ → ℕ → Message
ahead tid key = record {
  meta = record { sender = tid; recver = 0; model_id = 0; flag = Flag.get; version = 2 };
  body = (key ∷ []) ∷ [];
}

abbrev records : MapRecords
records = (0, (7, (1, [])) ∷ []) ∷ []

has_conflict-Conflict_example : Conflict (5 ∷ 7 ∷ []) 0 2 records (some (0, 7))
unfolding has_conflict first_recorded
has_conflict-Conflict_example = has_conflict-Conflict (5 ∷ 7 ∷ []) 0 2 records (some (0, 7)) refl

-- The Get of the key 7 waits for the thread 101; the Get of the key 8 need not.
abbrev recorder : SparseRecorder MapRecords
recorder = record {
  staleness = 0;
  speculation = 2;
  main_recorder = records;
  future_keys = (100, []) ∷ [];
  future_msgs = (100, (2, ahead 100 8) ∷ []) ∷ [];
  too_fast_buffer = ahead 100 7 ∷ ahead 102 8 ∷ [];
}

abbrev after : SparseRecorder MapRecords
after = record recorder {
  main_recorder = (0, (7, (1, ahead 100 7 ∷ [])) ∷ []) ∷ [];
  too_fast_buffer = [];
}

handle_too_fast_buffer-NoConflict_example :
    All (NoConflict 0 0 after.main_recorder) (ahead 102 8 ∷ [])
    × (after.too_fast_buffer ≡ [])
    × ((v k : ℕ) → map_records.recorded v k after.main_recorder ≡ map_records.recorded v k records)
unfolding handle_too_fast_buffer reply_or_forward_all reply_or_forward has_conflict first_recorded
handle_too_fast_buffer-NoConflict_example =
    handle_too_fast_buffer-NoConflict 0 recorder after (ahead 102 8 ∷ []) refl

get_non_conflict_msgs-NoConflict_example : All (NoConflict 0 0 records) (ahead 100 8 ∷ [])
unfolding get_non_conflict_msgs get_blocked get_own place_own reply_or_forward has_conflict
    first_recorded
get_non_conflict_msgs-NoConflict_example =
    get_non_conflict_msgs-NoConflict 2 100 0 recorder
      (record recorder { future_msgs = (100, []) ∷ [] }) (ahead 100 8 ∷ []) refl

-- The thread 100 ends its round 1, and its Get of the key 8 at the clock 2 is answered.
abbrev model : SparseSspModel (MapStorage ℕ) MapRecords
model = record {
  model_id = 0;
  storage = (8, 30) ∷ [];
  progress_tracker = record { progresses = (100, 1) ∷ (101, 0) ∷ []; min_clock = 0 };
  recorder = recorder;
  buffer = [];
  staleness = 0;
  speculation = 2;
}

abbrev clock_of_round_1 : Message
clock_of_round_1 = record {
  meta = record { sender = 100; recver = 0; model_id = 0; flag = Flag.clock; version = 1 };
  body = [];
}

abbrev outcome : List Message × SparseSspModel (MapStorage ℕ) MapRecords
outcome = value_of ([], model) (clock_before_buffered clock_of_round_1 model)
