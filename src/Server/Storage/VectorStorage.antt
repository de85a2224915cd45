-- ===== src/Server/Storage/VectorStorage.antt =====
-- server/vector_storage.hpp.
use flexps.Base.{
  ℕ, ◌-◌, List, [], ◌∷◌, Option, some, length, get_elem?, set, replicate, check, leb, ltb, ◌==◌,
  ◌>>=◌, ◌>>◌,
}
use flexps.Message.{Chars, Values}
use flexps.Server.Storage.{StorageClass}

-- In charge of the keys in [first, last). A `third_party::Range` is its two ends.
pub record VectorStorage (Val : Type 0) : Type 0 where
  pub first : ℕ
  pub last : ℕ
  pub storage : List Val

module _ {Val : Type 0} ⦃w : Values Val⦄ where
  -- The constructor.
  unfoldable pub make : ℕ → ℕ → Option (VectorStorage Val)
  make first last = do
    check (leb first last)
    some (record { first = first; last = last; storage = replicate (last - first) w.default })

  -- The CHECKs on a key, and the value in its place.
  abbrev pub at_key : ℕ → VectorStorage Val → Option Val
  at_key key s = do
    check (leb s.first key)
    check (ltb key s.last)
    get_elem? s.storage (key - s.first)

  unfoldable pub add_each : List ℕ → List Val → VectorStorage Val → Option (VectorStorage Val)
  add_each (key ∷ keys) (val ∷ vals) s = do
    old ← at_key key s
    add_each keys vals (record s { storage = set s.storage (key - s.first) (w.plus old val) })
  add_each _ _ s = some s

  unfoldable pub sub_add : List ℕ → Chars → VectorStorage Val → Option (VectorStorage Val)
  unfolding add_each
  sub_add keys chars s = do
    let vals = w.as_vals chars
    check (length keys == length vals)
    add_each keys vals s

  unfoldable pub get_each : List ℕ → VectorStorage Val → Option (List Val)
  get_each [] s = some []
  get_each (key ∷ keys) s = do val ← at_key key s; vals ← get_each keys s; some (val ∷ vals)

  unfoldable pub sub_get : List ℕ → VectorStorage Val → Option (Chars × VectorStorage Val)
  unfolding get_each
  sub_get keys s = do vals ← get_each keys s; some (w.of_vals vals, s)

  -- `Size`
  unfoldable pub size : VectorStorage Val → Option ℕ
  size s = do check (s.last - s.first == length s.storage); some (length s.storage)

  instance abbrev pub vector_storage : StorageClass (VectorStorage Val)
  vector_storage = record { sub_add = sub_add; sub_get = sub_get; finish_iter = λ s. s }
