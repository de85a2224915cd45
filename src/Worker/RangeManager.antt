-- ===== src/Worker/RangeManager.antt =====
-- worker/kvpairs.hpp, worker/abstract_partition_manager.hpp and worker/simple_range_manager.hpp:
-- a table's keys are cut into ranges, one for each server thread. The keys of a request are sorted,
-- as `std::lower_bound` wants them.
pub mod Parts
pub mod Partition
use flexps.Base.{
  ℕ, ◌+◌, ◌*◌, ◌/◌, List, [], ◌∷◌, Option, none, some, Bool, ltb, ◌==◌, not, if◌then◌else◌, ◌>>=◌,
  ◌>>◌, check, length, drop, lower_bound,
}
use flexps.Message.{Chars, Platform}

-- `KVPairs<Val>`
pub record KvPairs (Val : Type 0) : Type 0 where
  pub keys : List ℕ
  pub vals : List Val

-- `KVPairs<char>`, and the slices: the server thread of each part, and the part.
abbrev pub SlicedKvs : Type 0
SlicedKvs = List (ℕ × KvPairs ℕ)

-- `third_party::Range`, as its two ends.
abbrev pub Range : Type 0
Range = ℕ × ℕ

pub record AbstractPartitionManager : Type 0 where
  pub server_thread_ids : List ℕ
  pub slice : KvPairs ℕ → Option SlicedKvs

pub record SimpleRangePartitionManager : Type 0 where
  pub ranges : List Range
  pub server_thread_ids : List ℕ

-- The constructor.
unfoldable pub make : List Range → List ℕ → Option SimpleRangePartitionManager
make ranges ids = do
  check (length ranges == length ids)
  some (record { ranges = ranges; server_thread_ids = ids })

abbrev pub get_num_servers : SimpleRangePartitionManager → ℕ
get_num_servers m = length m.ranges

module _ ⦃p : Platform⦄ where
  -- The loop of `Slice`, from the index `begin_idx`; `begin` points at that index.
  unfoldable pub slice_from : KvPairs ℕ → ℕ → ℕ → List Range → List ℕ → SlicedKvs
  slice_from send ratio begin_idx ((first, last) ∷ ranges) (id ∷ ids) =
      let split = begin_idx + lower_bound (drop begin_idx send.keys) last in
      let rest = slice_from send ratio split ranges ids in
      if ltb begin_idx split
      then (
        id,
        record {
          keys = p.segment send.keys begin_idx split;
          vals = p.segment send.vals (begin_idx * ratio) (split * ratio);
        },
      )
        ∷ rest
      else rest
  slice_from send ratio begin_idx _ _ = []

  -- `none` is a fault: `ranges_[0]` of no ranges, and the division by a number of keys that is 0.
  unfoldable pub slice : SimpleRangePartitionManager → KvPairs ℕ → Option SlicedKvs
  unfolding slice_from
  slice m send = elim m.ranges [
    | [] ↦ none
    | (first, last) ∷ _ ↦ do
      check (not (length send.keys == 0))
      let ratio = length send.vals / length send.keys
      some (slice_from send ratio (lower_bound send.keys first) m.ranges m.server_thread_ids)
  ]

  abbrev pub range_manager : SimpleRangePartitionManager → AbstractPartitionManager
  range_manager m = record { server_thread_ids = m.server_thread_ids; slice = slice m }
