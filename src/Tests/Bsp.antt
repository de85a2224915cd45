-- ===== src/Tests/Bsp.antt =====
-- Two threads, 100 and 101, in the round 0; the storage is a vector over the keys [5, 10).
use flexps.Base.{ℕ, ◌≡◌, refl, List, [], ◌∷◌, Option, some, arith, ◌>>=◌}
use flexps.Message.{Message}
use flexps.Server.Tracker.{advance_and_get_changed_min_clock}
use flexps.Server.Tracker.Minimum.{IsMin}
use flexps.Server.Storage
use flexps.Server.Storage.Replies.{ReadOnly}
use flexps.Server.Storage.VectorStorage.{VectorStorage, vector_storage, sub_add, sub_get}
use flexps.Server.Model.{run, dispatch}
use flexps.Server.Bsp
use flexps.Server.Bsp.{BspModel, bsp_model}
use flexps.Server.Bsp.Rounds.{Window, clock-Window}
use flexps.Server.Bsp.Waiting.{Waited, get-Waited}
use flexps.Server.Bsp.Sequential.{applied, adds, run-applied}
use flexps.Tests.Fixtures.{plain, numbers, clock_of, get_of, add_of, value_of}

abbrev round : BspModel (VectorStorage ℕ)
round = record {
  model_id = 0;
  storage = record { first = 5; last = 10; storage = 0 ∷ 0 ∷ 4 ∷ 0 ∷ 0 ∷ [] };
  progress_tracker = record { progresses = (100, 1) ∷ (101, 0) ∷ []; min_clock = 0 };
  get_buffer = get_of 100 ∷ [];
  add_buffer = add_of 100 3 ∷ [];
}

abbrev Outcome : Type 0
Outcome = List Message × BspModel (VectorStorage ℕ)

abbrev outcome : Option Outcome → Outcome
outcome = value_of ([], round)

vector-ReadOnly : ReadOnly (vector_storage {Val = ℕ})
unfolding sub_get
vector-ReadOnly = record { get_keeps = λ keys chars s s' e. ground arith; finish_keeps = λ s. refl }

abbrev script : List Message
script = add_of 101 2 ∷ clock_of 101 ∷ get_of 101 ∷ []

run-applied_example :
    applied (outcome (run script round)).1 ≡ (applied round >>= Storage.add_all (adds script))
unfolding run dispatch Bsp.clock Bsp.add Bsp.get Bsp.flush advance_and_get_changed_min_clock
    Storage.add Storage.add_all Storage.get Storage.get_all sub_add sub_get
run-applied_example =
    run-applied vector-ReadOnly script (outcome (run script round)).0 round
      (outcome (run script round)).1 refl

round-IsMin : IsMin round.progress_tracker
round-IsMin = record { ascending = omega arith; lower = omega arith; attained = omega arith }

clock-Window_example :
    IsMin (outcome (Bsp.clock (clock_of 101) round)).1.progress_tracker
    × Window (outcome (Bsp.clock (clock_of 101) round)).1.progress_tracker
unfolding Bsp.clock Bsp.flush advance_and_get_changed_min_clock Storage.add Storage.add_all
    Storage.get Storage.get_all sub_add sub_get
clock-Window_example =
    clock-Window (clock_of 101) round (outcome (Bsp.clock (clock_of 101) round)).1
      (outcome (Bsp.clock (clock_of 101) round)).0 round-IsMin (omega arith) refl

get-Waited_example :
    (m0 : BspModel (VectorStorage ℕ)) × (dispatch (get_of 100) round ≡ some ([], m0))
    × Waited (get_of 100) script m0 (outcome (run (get_of 100 ∷ script) round)).1
unfolding run dispatch Bsp.clock Bsp.add Bsp.get Bsp.flush advance_and_get_changed_min_clock
    Storage.add Storage.add_all Storage.get Storage.get_all sub_add sub_get
get-Waited_example =
    get-Waited (get_of 100) script (outcome (run (get_of 100 ∷ script) round)).0 round
      (outcome (run (get_of 100 ∷ script) round)).1 refl refl refl
