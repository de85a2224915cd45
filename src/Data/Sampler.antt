-- ===== src/Data/Sampler.antt =====
-- lib/batch_data_sampler.cpp: batches of the data, taken in turn and from the start again after the
-- end. The pointers of a batch are the data that they point to, which never change. The start point
-- that `rand` gives is an argument.
pub mod Batches
use flexps.Base.{
  ℕ, zero, suc, List, [], ◌∷◌, map, Option, none, some, Bool, true, false, Dict, put, get_elem?,
  length, replicate, ◌==◌, ◌%◌, if◌then◌else◌, ◌>>=◌,
}

-- A feature vector with its label.
abbrev pub DataObj : Type 0 → Type 0
DataObj V = List (ℕ × V) × V

pub record BatchDataSampler (V : Type 0) : Type 0 where
  pub data_ : List (DataObj V)
  pub cur_pos : ℕ
  pub batch_size : ℕ
  pub batch_data : List (DataObj V)

-- `std::set<Key>`
abbrev pub Keys : Type 0
Keys = Dict (Unit {0})

module _ {V : Type 0} where
  abbrev pub empty : BatchDataSampler V → Bool
  empty s = length s.data_ == 0

  abbrev pub get_batch_size : BatchDataSampler V → ℕ
  get_batch_size s = s.batch_size

  -- `rand() % data_.size()`; without data it is a fault.
  abbrev pub random_start_point : ℕ → BatchDataSampler V → Option (BatchDataSampler V)
  random_start_point rand s =
      if empty s then none else some (record s { cur_pos = rand % length s.data_ })

  -- `cur_pos++`, from the start again after the end.
  abbrev pub next_pos : List (DataObj V) → ℕ → ℕ
  next_pos data_ pos = if suc pos == length data_ then 0 else suc pos

  -- The loop over the batch, with `n` rounds left: the data, and the position at the end.
  unfoldable pub fill : List (DataObj V) → ℕ → ℕ → Option (List (DataObj V) × ℕ)
  fill data_ zero pos = some ([], pos)
  fill data_ (suc n) pos = do
    x ← get_elem? data_ pos
    (batch, pos') ← fill data_ n (next_pos data_ pos)
    some (x ∷ batch, pos')

  unfoldable pub insert_fields : List (ℕ × V) → Keys → Keys
  insert_fields [] keys = keys
  insert_fields ((k, v) ∷ fields) keys = insert_fields fields (put k tt keys)

  unfoldable pub insert_all : List (DataObj V) → Keys → Keys
  unfolding insert_fields
  insert_all [] keys = keys
  insert_all (x ∷ batch) keys = insert_all batch (insert_fields x.0 keys)

  unfoldable pub prepare_next_batch : BatchDataSampler V → Option (List ℕ × BatchDataSampler V)
  unfolding fill insert_all
  prepare_next_batch s = if empty s then some ([], s) else (do
    (batch, pos) ← fill s.data_ s.batch_size s.cur_pos
    some (map (λ e. e.0) (insert_all batch []), record s { cur_pos = pos; batch_data = batch }))

  abbrev pub get_data_ptrs : BatchDataSampler V → List (DataObj V)
  get_data_ptrs s = if empty s then [] else s.batch_data
