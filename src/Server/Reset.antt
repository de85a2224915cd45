-- ===== src/Server/Reset.antt =====
-- The `ResetWorker` of each model (server/asp_model.cpp, bsp_model.cpp, ssp_model.cpp): the three
-- have the same text. It initialises the tracker and answers the sender.
use flexps.Base.{ℕ, List, [], ◌∷◌, Option, none, some}
use flexps.Message.{Chars, Flag, Message, Platform}
use flexps.Server.Tracker.{ProgressTracker, init}

module _ ⦃p : Platform⦄ where
  -- `CHECK_EQ(msg.data.size(), 1)` and `Init`.
  abbrev pub reset_tracker : List Chars → Option ProgressTracker
  reset_tracker (tids ∷ []) = some (init (p.as_keys tids))
  reset_tracker _ = none

  -- The fields that the code does not set are indeterminate.
  abbrev pub reset_reply : ℕ → Message → Message
  reset_reply model_id msg = record {
    meta = record p.fresh_meta {
      model_id = model_id;
      recver = msg.sender;
      flag = Flag.reset_worker_in_model;
    };
    body = [];
  }
