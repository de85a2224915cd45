-- ===== src/Tests/Sparse.antt =====
-- Two rounds of a sparse table that sends its Gets one iteration ahead.
use flexps.Base.{
  ℕ, ◌≡◌, refl, List, [], ◌∷◌, ◌++◌, none, some, All, length, ◌>>=◌, add_u32, sub_u32, arith,
}
use mathlib.Core.List.{Permᴰ}
use flexps.Message.{Message, Flag}
use flexps.Worker.RangeManager.{KvPairs, AbstractPartitionManager, range_manager, slice, slice_from}
use flexps.Worker.Blocker.{
  register_recv_handle, sanity_check, tracked, AppBlocker, new_request, register_recv_finish_handle,
  add_response, wait_request,
}
use flexps.Worker.TableBox.{received, sort}
use flexps.Worker.SparseTable.{
  setup, SparseTable, SparseClient, get_, make, send_gets, send, send_part, add, recv_handle,
  recv_finish_handle,
}
use flexps.Worker.SparseTable.Gets.{Sliceable}
use flexps.Worker.SparseTable.Waits.{Ready}
use flexps.Worker.SparseTable.Bounds.{fresh, make-Ready, get_-no_speculation}
use flexps.Worker.SparseTable.Sends.{gets_in}
use flexps.Worker.SparseTable.Rounds.{Round, Served, rounds, sent_before, rounds-Served}
use flexps.Tests.Fixtures.{plain, numbers, message}

abbrev manager : AbstractPartitionManager
manager = range_manager (record { ranges = (2, 4) ∷ (4, 7) ∷ []; server_thread_ids = 0 ∷ 1 ∷ [] })

abbrev requests : List (List ℕ)
requests = (2 ∷ 5 ∷ 6 ∷ []) ∷ (5 ∷ []) ∷ (2 ∷ []) ∷ []

requests-Sliceable : All (Sliceable manager) requests
unfolding slice slice_from
requests-Sliceable =
    ((_, refl, omega arith), ((_, refl, omega arith), ((_, refl, omega arith), tt)))

abbrev blocker : AppBlocker (SparseClient ℕ)
blocker = record { tracker = []; recv_handle = []; recv_finish_handle = [] }

abbrev table : SparseTable ℕ
table = fresh manager 200 0 1 requests

table_made :
    (b : AppBlocker (SparseClient ℕ)) × (make 200 0 1 requests blocker ≡ some (table, b))
    × Ready manager table b
table_made =
    make-Ready manager 200 0 1 requests blocker (omega arith) requests-Sliceable (omega arith)

abbrev part : List ℕ → List ℕ → KvPairs ℕ
part keys vals = record { keys = keys; vals = vals }

abbrev reply : KvPairs ℕ → Message
reply kvs = message Flag.get 200 (kvs.keys ∷ kvs.vals ∷ [])

abbrev low : KvPairs ℕ
low = part (2 ∷ []) (20 ∷ [])

abbrev high : KvPairs ℕ
high = part (5 ∷ 6 ∷ []) (50 ∷ 60 ∷ [])

abbrev again : KvPairs ℕ
again = part (5 ∷ []) (51 ∷ [])

-- The second server answers first.
abbrev round_0 : Round ℕ
round_0 = record { replies = reply high ∷ reply low ∷ []; add_keys = 5 ∷ []; add_vals = 1 ∷ [] }

abbrev round_1 : Round ℕ
round_1 = record { replies = reply again ∷ []; add_keys = 2 ∷ []; add_vals = 3 ∷ [] }

round_0-Served : Served manager requests 0 round_0 (low ∷ high ∷ [])
unfolding slice slice_from received
round_0-Served = record {
  keys = 2 ∷ 5 ∷ 6 ∷ [];
  first = reply high;
  others = reply low ∷ [];
  kvs = high ∷ low ∷ [];
  at = refl;
  replied = refl;
  enough = refl;
  got = refl;
  answers = record {
    cut = refl;
    rising = ((omega arith, (omega arith, tt)), ((omega arith, tt), (tt, tt)));
    have_keys = (omega arith, (omega arith, tt));
    any_order = Permᴰ.swap refl refl;
  };
  add_parts = (1, part (5 ∷ []) (1 ∷ [])) ∷ [];
  add_cut = refl;
}

round_1-Served : Served manager requests 1 round_1 (again ∷ [])
unfolding slice slice_from received
round_1-Served = record {
  keys = 5 ∷ [];
  first = reply again;
  others = [];
  kvs = again ∷ [];
  at = refl;
  replied = refl;
  enough = refl;
  got = refl;
  answers = record {
    cut = refl;
    rising = (tt, tt);
    have_keys = (omega arith, tt);
    any_order = Permᴰ.cons refl Permᴰ.nil;
  };
  add_parts = (0, part (2 ∷ []) (3 ∷ [])) ∷ [];
  add_cut = refl;
}

rounds-Served_example :
    (msgs : List Message) × (t' : SparseTable ℕ) × (b' : AppBlocker (SparseClient ℕ)) × (rounds
        manager
        (round_0 ∷ round_1 ∷ [])
        table
        table_made.0
      ≡ some (msgs, (20 ∷ 50 ∷ 60 ∷ []) ∷ (51 ∷ []) ∷ [], t', b'))
    × Ready manager t' b'
    × (t'.get_count ≡ 2)
    × (sent_before manager table 0 ++ gets_in msgs ≡ sent_before manager table 2)
rounds-Served_example =
    rounds-Served manager (round_0 ∷ round_1 ∷ []) table table_made.0
      ((low ∷ high ∷ []) ∷ (again ∷ []) ∷ []) table_made.2 (omega arith) (omega arith)
      (round_0-Served, (round_1-Served, tt))

-- A table with speculation 0, after its first round.
abbrev late : SparseTable ℕ
late = record (fresh manager 200 0 0 requests) { num_reqs = 2 ∷ []; get_count = 1; add_count = 1 }

late-Ready : Ready manager late table_made.0
unfolding slice slice_from
late-Ready = record {
  paired = refl;
  counted = refl;
  box_empty = refl;
  registered = table_made.2.registered;
  sliceable = requests-Sliceable;
  few = omega arith;
}

get_-no_speculation_example :
    (length late.num_reqs ≡ 1)
    × (get_ manager late table_made.0 ≡ none)
    × ((n : ℕ)
        → (msgs : List Message) × (t' : SparseTable ℕ) × (b' : AppBlocker (SparseClient ℕ)) × (get_
              manager
              (record late { num_reqs = late.num_reqs ++ n ∷ [] })
              table_made.0
            ≡ some (msgs, t', b')))
get_-no_speculation_example =
    get_-no_speculation manager late table_made.0 late-Ready refl refl (omega arith)

-- It is what the first round leaves of a new table, where the helper thread takes both replies.
late_reached :
    (msgs : List Message) × (b : AppBlocker (SparseClient ℕ)) × ((make 200 0 0 requests blocker
        >>= λ (t, b'). rounds manager (round_0 ∷ []) t b')
      ≡ some (msgs, (20 ∷ 50 ∷ 60 ∷ []) ∷ [], late, b))
unfolding make setup register_recv_handle get_ send_gets send send_part new_request sanity_check
    register_recv_finish_handle add_response tracked wait_request add slice slice_from received
    recv_handle recv_finish_handle add_u32 sub_u32 sort
late_reached = (_, _, refl)
