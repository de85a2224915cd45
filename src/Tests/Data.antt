-- ===== src/Tests/Data.antt =====
-- Batches of two out of three data.
use flexps.Base.{ℕ, ◌≡◌, List, [], ◌∷◌, some, arith, mem}
use flexps.Data.Sampler.{BatchDataSampler, DataObj, prepare_next_batch}
use flexps.Data.Sampler.Batches.{Fills, has_key, prepare_next_batch-Fills}

abbrev datum : ℕ → DataObj ℕ
datum k = ((k, 1) ∷ [], 0)

abbrev sampler : BatchDataSampler ℕ
sampler = record {
  data_ = datum 4 ∷ datum 9 ∷ datum 6 ∷ [];
  cur_pos = 2;
  batch_size = 2;
  batch_data = [];
}

prepare_next_batch-Fills_example :
    (keys : List ℕ) × (s' : BatchDataSampler ℕ) × (prepare_next_batch sampler ≡ some (keys, s'))
    × (s'.data_ ≡ sampler.data_)
    × Fills sampler.data_ 2 2 (s'.batch_data, s'.cur_pos)
    × ((k : ℕ) → mem k keys ≡ has_key k s'.batch_data)
prepare_next_batch-Fills_example = prepare_next_batch-Fills sampler (omega arith)
