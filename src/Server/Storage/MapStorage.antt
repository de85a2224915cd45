-- ===== src/Server/Storage/MapStorage.antt =====
-- server/map_storage.hpp.
use flexps.Base.{ℕ, List, [], ◌∷◌, Option, some, Dict, find_or, put, length, check, ◌==◌, ◌>>◌}
use flexps.Message.{Chars, Values}
use flexps.Server.Storage.{StorageClass}

abbrev pub MapStorage : Type 0 → Type 0
MapStorage Val = Dict Val

module _ {Val : Type 0} ⦃w : Values Val⦄ where
  -- `storage_[key] += val` for each index.
  unfoldable pub add_each : List ℕ → List Val → MapStorage Val → MapStorage Val
  add_each (key ∷ keys) (val ∷ vals) s =
      add_each keys vals (put key (w.plus (find_or key w.default s) val) s)
  add_each _ _ s = s

  unfoldable pub sub_add : List ℕ → Chars → MapStorage Val → Option (MapStorage Val)
  unfolding add_each
  sub_add keys chars s = do
    let vals = w.as_vals chars
    check (length keys == length vals)
    some (add_each keys vals s)

  -- `reply_vals[i] = storage_[typed_keys[i]]`, which inserts `Val()` at a missing key.
  unfoldable pub get_each : List ℕ → MapStorage Val → List Val × MapStorage Val
  get_each [] s = ([], s)
  get_each (key ∷ keys) s =
      let val = find_or key w.default s in
      let (vals, s') = get_each keys (put key val s) in (val ∷ vals, s')

  unfoldable pub sub_get : List ℕ → MapStorage Val → Option (Chars × MapStorage Val)
  unfolding get_each
  sub_get keys s = let (vals, s') = get_each keys s in some (w.of_vals vals, s')

  instance abbrev pub map_storage : StorageClass (MapStorage Val)
  map_storage = record { sub_add = sub_add; sub_get = sub_get; finish_iter = λ s. s }
