-- ===== src/Server/Storage/Refinement.antt =====
-- Both storages keep one sum for each key: the map over all keys, the vector over its range.
use flexps.Base.{
  ℕ, zero, suc, ◌-◌, ◌≤◌, ◌<◌, ◌≡◌, ◌≢◌, refl, ap, ◌∙◌, List, [], ◌∷◌, Option, none, some, find_or,
  put, length, get_elem?, get_elem?-set, set, replicate, All, ◌==◌, if◌then◌else◌, arith, find-put,
  ==_refl,
}
use flexps.Message.{Chars, Values}
use flexps.Server.Storage.MapStorage
use flexps.Server.Storage.MapStorage.{MapStorage}
use flexps.Server.Storage.VectorStorage
use flexps.Server.Storage.VectorStorage.{VectorStorage, at_key}

get_elem?-replicate {ℓ} :
    {A : Type ℓ} (n i : ℕ) (v : A) → i < n → get_elem? (replicate n v) i ≡ some v
get_elem?-replicate zero i v h = elim h [ ]
get_elem?-replicate (suc n) zero v h = refl
get_elem?-replicate (suc n) (suc i) v h = get_elem?-replicate n i v (omega arith)

module _ {Val : Type 0} ⦃w : Values Val⦄ where
  -- The value of a key in the map, where a missing key reads as `Val()`.
  abbrev pub value_at : ℕ → MapStorage Val → Val
  value_at k m = find_or k w.default m

  abbrev pub InRange : VectorStorage Val → List ℕ → Type 0
  InRange v keys = All (λ k. (v.first ≤ k) × (k < v.last)) keys

  -- The two storages hold the same value at each key of the vector's range.
  abbrev pub Agrees : VectorStorage Val → MapStorage Val → Type 0
  Agrees v m =
      (k : ℕ) → v.first ≤ k → k < v.last → get_elem? v.storage (k - v.first) ≡ some (value_at k m)

  -- What one key receives of a list of additions.
  abbrev pub added_to : ℕ → List ℕ → List Val → Val → Val
  added_to k (key ∷ keys) (val ∷ vals) acc =
      added_to k keys vals (if k == key then w.plus acc val else acc)
  added_to k _ _ acc = acc

  value_at-put :
      (k key : ℕ) (val : Val) (m : MapStorage Val)
      → value_at k (put key val m) ≡ (if k == key then val else value_at k m)
  value_at-put k key val m = ground (arith, find-put k key val m)

  value_at-step :
      (k key : ℕ) (val : Val) (m : MapStorage Val)
      → value_at k (put key (w.plus (value_at key m) val) m)
        ≡ (if k == key then w.plus (value_at k m) val else value_at k m)
  value_at-step k key val m = ground (arith, value_at-put k key (w.plus (value_at key m) val) m)

  -- After the loop of `MapStorage::SubAdd` each key has received the values that came with it, in
  -- their order.
  pub value_at-add_each :
      (k : ℕ) (keys : List ℕ) (vals : List Val) (m : MapStorage Val)
      → value_at k (MapStorage.add_each keys vals m) ≡ added_to k keys vals (value_at k m)
  unfolding MapStorage.add_each
  value_at-add_each k [] vals m = refl
  value_at-add_each k (key ∷ keys) [] m = refl
  value_at-add_each k (key ∷ keys) (val ∷ vals) m =
      value_at-add_each k keys vals (put key (w.plus (value_at key m) val) m)
      ∙ ap (added_to k keys vals) (value_at-step k key val m)

  -- A new vector agrees with the empty map.
  pub make-Agrees :
      (first last : ℕ) (v : VectorStorage Val)
      → VectorStorage.make first last ≡ some v
      → Agrees v []
  unfolding VectorStorage.make
  make-Agrees first last v e k lo hi =
      ground (arith, get_elem?-replicate (last - first) (k - first) w.default)

  at_key_in :
      (v : VectorStorage Val) (m : MapStorage Val) (k : ℕ)
      → Agrees v m
      → v.first ≤ k
      → k < v.last
      → at_key k v ≡ some (value_at k m)
  at_key_in v m k a lo hi = ground (arith, a k lo hi)

  -- One addition keeps the agreement.
  step-Agrees :
      (v : VectorStorage Val) (m : MapStorage Val) (key : ℕ) (val : Val)
      → Agrees v m
      → v.first ≤ key
      → key < v.last
      → Agrees
          (record v { storage = set v.storage (key - v.first) (w.plus (value_at key m) val) })
          (put key (w.plus (value_at key m) val) m)
  step-Agrees v m key val a lo hi k lo' hi' = ground (
    arith,
    get_elem?-set v.storage (key - v.first) (k - v.first) (value_at key m)
        (w.plus (value_at key m) val) (a key lo hi),
    value_at-put k key (w.plus (value_at key m) val) m,
    a k lo' hi',
  )

  -- What a successful addition to the vector leaves, against the map after the same addition.
  abbrev pub Refines : VectorStorage Val → Option (VectorStorage Val) → MapStorage Val → Type 0
  Refines v r m' =
      (v' : VectorStorage Val) × (r ≡ some v')
      × (v'.first ≡ v.first)
      × (v'.last ≡ v.last)
      × Agrees v' m'

  pub add_each-Refines :
      (keys : List ℕ) (vals : List Val) (v : VectorStorage Val) (m : MapStorage Val)
      → Agrees v m
      → InRange v keys
      → Refines v (VectorStorage.add_each keys vals v) (MapStorage.add_each keys vals m)
  unfolding MapStorage.add_each VectorStorage.add_each
  add_each-Refines [] vals v m a r = (v, refl, refl, refl, a)
  add_each-Refines (key ∷ keys) [] v m a r = (v, refl, refl, refl, a)
  add_each-Refines (key ∷ keys) (val ∷ vals) v m a r =
      let new = w.plus (value_at key m) val in
      rw (at_key_in v m key a r.0.0 r.0.1) (
        add_each-Refines keys vals (record v { storage = set v.storage (key - v.first) new })
          (put key new m) (step-Agrees v m key val a r.0.0 r.0.1) r.1)

  -- On keys of the vector's range, with one value each, a vector and a map that agree both take the
  -- additions, and agree again.
  pub sub_add-Refines :
      (keys : List ℕ) (chars : Chars) (v : VectorStorage Val) (m : MapStorage Val)
      → Agrees v m
      → InRange v keys
      → length keys ≡ length (w.as_vals chars)
      → (m' : MapStorage Val) × (MapStorage.sub_add keys chars m ≡ some m')
        × Refines v (VectorStorage.sub_add keys chars v) m'
  unfolding MapStorage.sub_add VectorStorage.sub_add
  sub_add-Refines keys chars v m a r e = (
    MapStorage.add_each keys (w.as_vals chars) m,
    rw (e, ==_refl),
    rw (e, ==_refl) (add_each-Refines keys (w.as_vals chars) v m a r),
  )

  get_each-Agrees :
      (keys : List ℕ) (v : VectorStorage Val) (m : MapStorage Val)
      → Agrees v m
      → InRange v keys
      → (VectorStorage.get_each keys v ≡ some (MapStorage.get_each keys m).0)
        × Agrees v (MapStorage.get_each keys m).1
  unfolding MapStorage.get_each VectorStorage.get_each
  get_each-Agrees [] v m a r = (refl, a)
  get_each-Agrees (key ∷ keys) v m a r =
      let touched : Agrees v (put key (value_at key m) m) =
        λ k lo hi. ground (arith, a k lo hi, value_at-put k key (value_at key m) m) in
      let rest = get_each-Agrees keys v (put key (value_at key m) m) touched r.1 in
      (rw (at_key_in v m key a r.0.0 r.0.1, rest.0), rest.1)

  -- On keys of the vector's range, a vector and a map that agree give the same answer to a `SubGet`, and
  -- agree again.
  pub sub_get-Agrees :
      (keys : List ℕ) (v : VectorStorage Val) (m : MapStorage Val)
      → Agrees v m
      → InRange v keys
      → (chars : Chars) × (m' : MapStorage Val) × (VectorStorage.sub_get keys v ≡ some (chars, v))
        × (MapStorage.sub_get keys m ≡ some (chars, m'))
        × Agrees v m'
  unfolding MapStorage.sub_get VectorStorage.sub_get
  sub_get-Agrees keys v m a r =
      let (e, a') = get_each-Agrees keys v m a r in
      (w.of_vals (MapStorage.get_each keys m).0, (MapStorage.get_each keys m).1, rw e, refl, a')

  get_each-InRange :
      (keys : List ℕ) (v : VectorStorage Val)
      → VectorStorage.get_each keys v ≢ none
      → InRange v keys
  unfolding VectorStorage.get_each
  get_each-InRange [] v h = tt
  get_each-InRange (key ∷ keys) v h = ground (arith, get_each-InRange keys v)

  -- `VectorStorage::SubGet` succeeds only on keys of its range.
  pub sub_get-InRange :
      (keys : List ℕ) (v : VectorStorage Val) → VectorStorage.sub_get keys v ≢ none → InRange v keys
  unfolding VectorStorage.sub_get
  sub_get-InRange keys v h = get_each-InRange keys v (λ e. h (rw e))
