-- ===== src/Tests/Worker.antt =====
-- Two server threads, of the keys [2, 4) and [4, 7), and a request of one app thread.
use flexps.Base.{ℕ, ◌+◌, ◌≡◌, ◌==◌, refl, [], ◌∷◌, Option, some, arith, All, if◌then◌else◌, ◌>>=◌}
use flexps.Message.{Message, Flag}
use flexps.Worker.RangeManager.{KvPairs, SlicedKvs, SimpleRangePartitionManager, slice}
use flexps.Worker.RangeManager.Partition.{Servable, slice_partitions}
use flexps.Worker.RangeManager.Parts.{Placed, all_keys, all_vals}
use flexps.Worker.Blocker.{AppBlocker, put2, tracked, wait_request}
use flexps.Worker.Blocker.Responses.{Awaits, add_responses, add_responses-Awaits, handle_all}
use flexps.Tests.Fixtures.{plain, message}

abbrev manager : SimpleRangePartitionManager
manager = record { ranges = (2, 4) ∷ (4, 7) ∷ []; server_thread_ids = 0 ∷ 1 ∷ [] }

abbrev send : KvPairs ℕ
send = record { keys = 2 ∷ 5 ∷ 6 ∷ []; vals = 20 ∷ 21 ∷ 50 ∷ 51 ∷ 60 ∷ 61 ∷ [] }

abbrev send-Servable : Servable manager send 2
send-Servable = record {
  first = 2;
  last = 4;
  others = (4, 7) ∷ [];
  has_range = refl;
  contiguous = (refl, omega arith, (refl, omega arith, tt));
  same_length = refl;
  sorted = ((omega arith, (omega arith, tt)), ((omega arith, tt), (tt, tt)));
  has_key = omega arith;
  above = (omega arith, (omega arith, (omega arith, tt)));
  below = (omega arith, (omega arith, (omega arith, tt)));
  even = refl;
}

slice_partitions_example :
    (parts : SlicedKvs) × (slice manager send ≡ some parts)
    × (all_keys parts ≡ send.keys)
    × (all_vals parts ≡ send.vals)
    × All (Placed manager.ranges manager.server_thread_ids) parts
slice_partitions_example = slice_partitions manager send 2 send-Servable

-- The callbacks add up the senders, and double the sum at the end.
abbrev handle : Message → ℕ → Option ℕ
handle msg c = some (c + msg.sender)

abbrev finish : ℕ → Option ℕ
finish c = some (c + c)

abbrev blocker : AppBlocker ℕ
blocker = record {
  tracker = put2 200 0 (2, 0) [];
  recv_handle = put2 200 0 handle [];
  recv_finish_handle = put2 200 0 finish [];
}

abbrev reply_of : ℕ → Message
reply_of tid = message Flag.get tid []

blocker-Awaits : Awaits 200 0 handle finish 2 0 blocker
unfolding tracked
blocker-Awaits = record { handled = refl; finished = refl; counted = refl }

add_responses-Awaits_example :
    (b' : AppBlocker ℕ) × (add_responses 200 0 (reply_of 3 ∷ reply_of 4 ∷ []) blocker 0 ≡ (
      handle_all handle (reply_of 3 ∷ reply_of 4 ∷ []) 0
      >>= (λ c. if 2 == 2 then finish c else some c)
      >>= λ c'. some (b', c')))
    × (wait_request 200 0 b' ≡ some (2 == 2))
add_responses-Awaits_example =
    add_responses-Awaits 200 0 handle finish 2 (reply_of 3) (reply_of 4 ∷ []) blocker 0
      (omega arith) (omega arith) blocker-Awaits
