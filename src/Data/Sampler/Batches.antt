-- ===== src/Data/Sampler/Batches.antt =====
-- What a batch holds: the next data in turn, and their keys.
use flexps.Base.{
  ℕ, zero, suc, ◌+◌, ◌-◌, ◌<◌, ◌≡◌, refl, sym, ap, ◌∙◌, List, [], ◌∷◌, map, some, Bool, false, put,
  contains, find-put, get_elem?, length, ◌==◌, ltb, if◌then◌else◌, arith, mem, ◌||◌,
}
use flexps.Data.Sampler.{
  DataObj, BatchDataSampler, Keys, next_pos, fill, insert_fields, insert_all, prepare_next_batch,
}

-- The position `i` rounds after `pos`, within one turn over `n` data.
abbrev pub turn : ℕ → ℕ → ℕ → ℕ
turn n pos i = if ltb (pos + i) n then pos + i else pos + i - n

mem-keys : (k : ℕ) (keys : Keys) → mem k (map (λ e. e.0) keys) ≡ contains k keys
mem-keys k [] = refl
mem-keys k (e ∷ keys) = ground (arith, mem-keys k keys)

module _ {V : Type 0} where
  in_range :
      (xs : List (DataObj V)) (i : ℕ) → i < length xs → (x : DataObj V) × (get_elem? xs i ≡ some x)
  in_range [] i h = elim h [ ]
  in_range (x ∷ xs) zero h = (x, refl)
  in_range (x ∷ xs) (suc i) h = in_range xs i (omega arith)

  abbrev pub Fills : List (DataObj V) → ℕ → ℕ → List (DataObj V) × ℕ → Type 0
  Fills data_ n pos r =
      (length r.0 ≡ n)
      × (r.1 < length data_)
      × ((i : ℕ)
          → i < n
          → i < length data_
          → get_elem? r.0 i ≡ get_elem? data_ (turn (length data_) pos i))

  next_pos_lem :
      (data_ : List (DataObj V)) (pos i : ℕ)
      → pos < length data_
      → suc i < length data_
      → turn (length data_) (next_pos data_ pos) i ≡ turn (length data_) pos (suc i)
  next_pos_lem data_ pos i h l = ground arith

  fill_lem :
      (data_ : List (DataObj V)) (n pos : ℕ)
      → pos < length data_
      → (r : List (DataObj V) × ℕ) × (fill data_ n pos ≡ some r) × Fills data_ n pos r
  unfolding fill
  fill_lem data_ zero pos h = (([], pos), refl, (refl, h, λ i l m. absurd (omega (arith, l))))
  fill_lem data_ (suc n) pos h =
      let (x, found) = in_range data_ pos h in
      let (r, filled, (len, bound, same)) = fill_lem data_ n (next_pos data_ pos) (ground arith) in
      ((x ∷ r.0, r.1), rw (found, filled), (ap suc len, bound, λ i l m. nth x r.0 found same i l m))
    where
      nth :
          (x : DataObj V) (xs : List (DataObj V))
          → get_elem? data_ pos ≡ some x
          → ((i : ℕ)
              → i < n
              → i < length data_
              → get_elem? xs i ≡ get_elem? data_ (turn (length data_) (next_pos data_ pos) i))
          → (i : ℕ) → i < suc n
          → i < length data_
          → get_elem? (x ∷ xs) i ≡ get_elem? data_ (turn (length data_) pos i)
      nth x xs f later zero l m =
          let here : turn (length data_) pos 0 ≡ pos = ground arith in
          sym f ∙ ap (get_elem? data_) (sym here)
      nth x xs f later (suc i) l m =
          later i (omega (arith, l)) (omega (arith, m))
          ∙ ap (get_elem? data_) (next_pos_lem data_ pos i h m)

  -- Whether some datum of a batch has the key.
  abbrev pub has_field : ℕ → List (ℕ × V) → Bool
  has_field k [] = false
  has_field k ((j, v) ∷ fields) = (k == j) || has_field k fields

  abbrev pub has_key : ℕ → List (DataObj V) → Bool
  has_key k [] = false
  has_key k (x ∷ batch) = has_field k x.0 || has_key k batch

  contains-insert_fields :
      (k : ℕ) (fields : List (ℕ × V)) (keys : Keys)
      → contains k (insert_fields fields keys) ≡ (has_field k fields || contains k keys)
  unfolding insert_fields
  contains-insert_fields k [] keys = refl
  contains-insert_fields k ((j, v) ∷ fields) keys =
      ground (arith, contains-insert_fields k fields (put j tt keys), find-put k j tt keys)

  contains-insert_all :
      (k : ℕ) (batch : List (DataObj V)) (keys : Keys)
      → contains k (insert_all batch keys) ≡ (has_key k batch || contains k keys)
  unfolding insert_all
  contains-insert_all k [] keys = refl
  contains-insert_all k (x ∷ batch) keys = ground (
    arith,
    contains-insert_all k batch (insert_fields x.0 keys),
    contains-insert_fields k x.0 keys,
  )

  -- From a position within the data, `prepare_next_batch` succeeds. Its batch is of the batch size, and
  -- holds, up to one turn, the data from the position on and from the start again after the end. The
  -- new position is within the data, and the keys are those of the batch's data and no others.
  pub prepare_next_batch-Fills :
      (s : BatchDataSampler V)
      → s.cur_pos < length s.data_
      → (keys : List ℕ) × (s' : BatchDataSampler V) × (prepare_next_batch s ≡ some (keys, s'))
        × (s'.data_ ≡ s.data_)
        × Fills s.data_ s.batch_size s.cur_pos (s'.batch_data, s'.cur_pos)
        × ((k : ℕ) → mem k keys ≡ has_key k s'.batch_data)
  unfolding prepare_next_batch
  prepare_next_batch-Fills s h =
      let (r, filled, v) = fill_lem s.data_ s.batch_size s.cur_pos h in
      let some_data : (length s.data_ == 0) ≡ false = ground arith in
      (
        map (λ e. e.0) (insert_all r.0 []),
        record s { cur_pos = r.1; batch_data = r.0 },
        rw (some_data, filled),
        refl,
        v,
        λ k. mem-keys k (insert_all r.0 []) ∙ contains-insert_all k r.0 [] ∙ ground arith,
      )
