-- ===== src/Tests/Ssp.antt =====
-- Two threads, 100 and 101, with staleness 1: the thread 100 is two clocks ahead and waits.
use flexps.Base.{
  ℕ, ◌+◌, ◌≡◌, refl, List, [], ◌∷◌, Option, some, arith, inl, ◌⊎◌, length, Ascending, add_u32,
  sub_u32, find,
}
use flexps.Message.{Message}
use flexps.Server.Tracker.{advance_and_get_changed_min_clock}
use flexps.Server.PendingBuffer
use flexps.Server.Storage
use flexps.Server.Storage.MapStorage.{MapStorage, map_storage, sub_add, sub_get}
use flexps.Server.Model.{run, dispatch}
use flexps.Server.Ssp
use flexps.Server.Ssp.{SspModel, ssp_model}
use flexps.Server.Ssp.Staleness.{
  NoneOverdue, Fits, Gets, Releases, get-Gets, clock_cases, clock-NoneOverdue,
}
use flexps.Server.Ssp.Blocked.{Waits, Answered, run-Waits}
use flexps.Server.Ssp.Conservation.{pending, all_asks, run-pending}
use flexps.Tests.Fixtures.{plain, numbers, clock_of, get_of, add_of, value_of}

-- The thread 100 is at the clock 2, the thread 101 at 0.
abbrev ahead : SspModel (MapStorage ℕ)
ahead = record {
  model_id = 0;
  staleness = 1;
  storage = (7, 5) ∷ [];
  progress_tracker = record { progresses = (100, 2) ∷ (101, 0) ∷ []; min_clock = 0 };
  buffer = [];
}

abbrev Outcome : Type 0
Outcome = List Message × SspModel (MapStorage ℕ)

abbrev outcome : Option Outcome → Outcome
outcome = value_of ([], ahead)

abbrev blocked : SspModel (MapStorage ℕ)
blocked = record ahead { buffer = (1, get_of 100 ∷ []) ∷ [] }

get_blocks : Ssp.get (get_of 100) ahead ≡ some ([], blocked)
unfolding Ssp.get PendingBuffer.push add_u32 sub_u32
get_blocks = refl

ahead-Fits : Fits ahead
ahead-Fits = record { min_fits = omega arith; progress_fits = λ tid p e. ground arith }

get-Gets_example :
    (q : ℕ) × (find 100 ahead.progress_tracker.progresses ≡ some q)
    × (blocked.progress_tracker ≡ ahead.progress_tracker)
    × (blocked.staleness ≡ ahead.staleness)
    × Gets (get_of 100) ahead q [] blocked
get-Gets_example = get-Gets (get_of 100) ahead blocked [] ahead-Fits get_blocks

abbrev script : List Message
script = add_of 101 3 ∷ clock_of 101 ∷ []

run-Waits_example :
    Waits 1 (get_of 100) (outcome (run script blocked)).1
    ⊎ Answered (get_of 100) (outcome (run script blocked)).0
unfolding run dispatch Ssp.clock Ssp.add Ssp.release advance_and_get_changed_min_clock
    PendingBuffer.pop Storage.add Storage.get Storage.get_all sub_add sub_get
run-Waits_example =
    run-Waits 1 (get_of 100) script (outcome (run script blocked)).0 blocked
      (outcome (run script blocked)).1 (omega arith, inl refl) refl

run-pending_example :
    Ascending (outcome (run script blocked)).1.buffer
    × (length (outcome (run script blocked)).0 + pending (outcome (run script blocked)).1.buffer
        ≡ pending blocked.buffer + all_asks script)
unfolding run dispatch Ssp.clock Ssp.add Ssp.release advance_and_get_changed_min_clock
    PendingBuffer.pop Storage.add Storage.get Storage.get_all sub_add sub_get
run-pending_example =
    run-pending script (outcome (run script blocked)).0 blocked (outcome (run script blocked)).1
      (tt, tt) refl

-- The Clock of the thread 101 moves the minimum to 1, and answers the thread 100.
clock_cases_example :
    let r = outcome (Ssp.clock (clock_of 101) blocked) in
    ((r.1.progress_tracker.min_clock ≡ 0)
      × (r.0 ≡ [])
      × (r.1.buffer ≡ blocked.buffer)
      × (r.1.storage ≡ blocked.storage))
    ⊎ Releases blocked (0 + 1) r.0 r.1
unfolding Ssp.clock Ssp.release advance_and_get_changed_min_clock PendingBuffer.pop Storage.get
    Storage.get_all sub_get
clock_cases_example =
    clock_cases (clock_of 101) blocked (outcome (Ssp.clock (clock_of 101) blocked)).1
      (outcome (Ssp.clock (clock_of 101) blocked)).0 refl

clock-NoneOverdue_example : NoneOverdue (outcome (Ssp.clock (clock_of 101) blocked)).1
unfolding Ssp.clock Ssp.release advance_and_get_changed_min_clock PendingBuffer.pop Storage.get
    Storage.get_all sub_get
clock-NoneOverdue_example =
    clock-NoneOverdue (clock_of 101) blocked (outcome (Ssp.clock (clock_of 101) blocked)).1
      (outcome (Ssp.clock (clock_of 101) blocked)).0 (λ k h. ground arith) refl
