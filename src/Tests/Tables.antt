-- ===== src/Tests/Tables.antt =====
-- A Get of the keys 2, 5 and 6 from two server threads, of which the second answers first.
use flexps.Base.{ℕ, ◌≡◌, refl, List, [], ◌∷◌, some, arith, true, false}
use mathlib.Core.List.{Permᴰ}
use flexps.Message.{Message, Flag}
use flexps.Worker.RangeManager.{
  KvPairs, SlicedKvs, AbstractPartitionManager, range_manager, slice, slice_from,
}
use flexps.Worker.Blocker.{AppBlocker, wait_request}
use flexps.Worker.Blocker.Responses.{add_responses}
use flexps.Worker.TableBox.{TableBox, send, received}
use flexps.Worker.TableBox.Replies.{Covers}
use flexps.Worker.SimpleTable
use flexps.Worker.SimpleTable.{SimpleTable}
use flexps.Worker.SimpleTable.Gets.{get_-Covers}
use flexps.Worker.ClientTable
use flexps.Worker.ClientTable.{Client, make}
use flexps.Worker.ClientTable.Gets.{make-Registered, get_-Awaited}
use flexps.Tests.Fixtures.{plain, numbers, message}

abbrev manager : AbstractPartitionManager
manager = range_manager (record { ranges = (2, 4) ∷ (4, 7) ∷ []; server_thread_ids = 0 ∷ 1 ∷ [] })

abbrev keys : List ℕ
keys = 2 ∷ 5 ∷ 6 ∷ []

abbrev sliced : SlicedKvs
sliced =
    (0, record { keys = 2 ∷ []; vals = [] }) ∷ (1, record { keys = 5 ∷ 6 ∷ []; vals = [] }) ∷ []

abbrev low : KvPairs ℕ
low = record { keys = 2 ∷ []; vals = 20 ∷ [] }

abbrev high : KvPairs ℕ
high = record { keys = 5 ∷ 6 ∷ []; vals = 50 ∷ 60 ∷ [] }

abbrev reply : KvPairs ℕ → Message
reply kvs = message Flag.get 200 (kvs.keys ∷ kvs.vals ∷ [])

abbrev box : TableBox ℕ
box = record { app_thread_id = 200; model_id = 0; recv_kvs = [] }

abbrev filled : TableBox ℕ
filled = record box { recv_kvs = high ∷ low ∷ [] }

covers : Covers keys (low ∷ high ∷ []) (high ∷ low ∷ [])
covers = record {
  cut = refl;
  rising = ((omega arith, (omega arith, tt)), ((omega arith, tt), (tt, tt)));
  small = (omega arith, (omega arith, (omega arith, tt)));
  have_keys = (omega arith, (omega arith, tt));
  any_order = Permᴰ.swap refl refl;
}

abbrev table : SimpleTable ℕ
table = record {
  current_responses = 0;
  expected_responses = 0;
  recv_queue = reply high ∷ reply low ∷ reply high ∷ [];
  kv_table_box = box;
}

get_-Covers_example :
    SimpleTable.get_ manager keys [] table
    ≡ some (send box false sliced, 20 ∷ 50 ∷ 60 ∷ [], record table { recv_queue = reply high ∷ [] })
unfolding slice slice_from received
get_-Covers_example =
    get_-Covers manager keys [] table sliced (reply high) (reply low ∷ []) (reply high ∷ [])
      (low ∷ high ∷ []) (high ∷ low ∷ []) refl (omega arith) refl refl refl refl covers

abbrev blocker : AppBlocker (Client ℕ)
blocker = record { tracker = []; recv_handle = []; recv_finish_handle = [] }

get_-Awaited_example :
    (b2 : AppBlocker (Client ℕ)) × (b3 : AppBlocker (Client ℕ)) × (ClientTable.get_ manager keys box
        (make box blocker)
      ≡ some (send box false sliced, b2))
    × (wait_request 200 0 b2 ≡ some false)
    × (add_responses 200 0
          (reply high ∷ reply low ∷ [])
          b2
          (record { kv_table_box = box; vals = [] })
        ≡ some
            (b3, record { kv_table_box = record box { recv_kvs = [] }; vals = 20 ∷ 50 ∷ 60 ∷ [] }))
    × (wait_request 200 0 b3 ≡ some true)
unfolding slice slice_from received
get_-Awaited_example =
    get_-Awaited manager keys box (make box blocker) sliced (reply high) (reply low ∷ [])
      (low ∷ high ∷ []) (high ∷ low ∷ []) [] (make-Registered box blocker) refl (omega arith) refl
      refl refl covers
