-- ===== src/Tests/Thread.antt =====
-- A server thread with an ASP model 0 and an SSP model 4.
use flexps.Base.{ℕ, refl, List, [], ◌∷◌}
use flexps.Message.{Message, Flag, ThreadsafeQueue}
use flexps.Server.Tracker.{advance_and_get_changed_min_clock}
use flexps.Server.Storage
use flexps.Server.Storage.MapStorage.{MapStorage, map_storage, sub_add, sub_get}
use flexps.Server.Model.{dispatch}
use flexps.Server.Asp
use flexps.Server.Thread.{
  ServerThread, Model, asp, any_model, main, handle, model_clock, model_add, model_get,
}
use flexps.Server.Thread.Isolation.{addressed_to, Served, main-get_model}
use flexps.Tests.Fixtures.{plain, numbers, message, clock_of, get_of, add_of, value_of}

abbrev parallel : Model (MapStorage ℕ)
parallel = asp (record {
  model_id = 0;
  storage = [];
  progress_tracker = record { progresses = (100, 0) ∷ []; min_clock = 0 };
})

abbrev thread : ServerThread (Model (MapStorage ℕ))
thread = record { server_id = 0; models = (0, parallel) ∷ (4, parallel) ∷ [] }

abbrev queue : ThreadsafeQueue Message
queue = add_of 100 3 ∷ clock_of 100 ∷ get_of 100 ∷ message Flag.exit 0 [] ∷ get_of 100 ∷ []

abbrev Outcome : Type 0
Outcome = List Message × ThreadsafeQueue Message × ServerThread (Model (MapStorage ℕ))

abbrev outcome : Outcome
outcome = value_of ([], [], thread) (main queue thread)

main-get_model_example : Served 0 (addressed_to 0 queue) parallel outcome.2
unfolding main handle dispatch model_clock model_add model_get Asp.clock Asp.add Asp.get
    advance_and_get_changed_min_clock Storage.add Storage.get sub_add sub_get
main-get_model_example =
    main-get_model 0 queue outcome.1 thread outcome.2 outcome.0 parallel refl refl
