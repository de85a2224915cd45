-- ===== src/Tests/Kept.antt =====
-- The thread 102 has ended its round 1 before the thread 101 has ended its round 0.
use flexps.Base.{ℕ, ◌≡◌, refl, List, [], ◌∷◌, arith}
use flexps.Message.{Message, Flag}
use flexps.Server.Tracker.{advance_and_get_changed_min_clock}
use flexps.Server.Storage
use flexps.Server.Storage.MapStorage.{MapStorage, map_storage, sub_get}
use flexps.Server.Recorder.{
  has_conflict, first_recorded, get_non_conflict_msgs, get_blocked, get_own, place_own,
  reply_or_forward, reply_or_forward_all, handle_too_fast_buffer,
}
use flexps.Server.Recorder.UnorderedMap.{MapRecords, map_records}
use flexps.Server.SparseSsp.{
  SparseSspModel, clock, clock_buffered, take_clock, keep_clock, move_min_clock,
}
use flexps.Server.SparseSsp.Buffered.{Paced, clock_in_turn, clock-clock_in_turn}
use flexps.Server.SparseSsp.Pacing.{clock-Paced}
use flexps.Tests.Fixtures.{plain, numbers, value_of}

abbrev round_end : ℕ → ℕ → Message
round_end tid round = record {
  meta = record { sender = tid; recver = 0; model_id = 0; flag = Flag.clock; version = round };
  body = [];
}

abbrev model : SparseSspModel (MapStorage ℕ) MapRecords
model = record {
  model_id = 0;
  storage = [];
  progress_tracker = record { progresses = (101, 0) ∷ (102, 1) ∷ []; min_clock = 0 };
  recorder = record {
    staleness = 0;
    speculation = 0;
    main_recorder = [];
    future_keys = (101, (0, []) ∷ []) ∷ (102, (1, []) ∷ []) ∷ [];
    future_msgs = [];
    too_fast_buffer = [];
  };
  buffer = round_end 102 1 ∷ [];
  staleness = 0;
  speculation = 0;
}

model-Paced : Paced model
model-Paced = record {
  is_min = record {
    ascending = ((omega arith, tt), (tt, tt));
    lower = (omega arith, (omega arith, tt));
    attained = omega arith;
  };
  kept = ((omega arith, (1, refl, omega arith)), tt);
}

clock-clock_in_turn_example :
    clock 2 (round_end 101 0) model ≡ clock_in_turn (round_end 101 0) model
clock-clock_in_turn_example = clock-clock_in_turn 0 (round_end 101 0) model model-Paced

abbrev outcome : List Message × SparseSspModel (MapStorage ℕ) MapRecords
outcome = value_of ([], model) (clock 2 (round_end 101 0) model)

clock-Paced_example : Paced outcome.1
unfolding clock clock_buffered take_clock keep_clock move_min_clock
    advance_and_get_changed_min_clock get_non_conflict_msgs get_blocked get_own place_own
    reply_or_forward has_conflict first_recorded Storage.get_all Storage.get sub_get
    handle_too_fast_buffer reply_or_forward_all
clock-Paced_example =
    clock-Paced 0 (round_end 101 0) model outcome.1 outcome.0 model-Paced refl refl
