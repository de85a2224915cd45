-- ===== src/Base/Dicts.antt =====
-- `std::map` and `std::unordered_map` with integer keys: an association list, in the order of its
-- keys. Where the code iterates over a map, it meets the entries in that order.
use Prim.Native.Nat.{ℕ, ◌≤◌, ◌<◌}
use mathlib.Core.Path.{◌≡◌, refl, subst}
use mathlib.Core.Logic.{inl, inr}
use mathlib.Core.Bool.{Bool, true, false}
use mathlib.Core.List.{List, [], ◌∷◌}
use mathlib.Core.Option.{Option, none, some}
use native.Mathlib.Omega.{arith}
use flexps.Base.Tests.{ltb, ◌==◌, if◌then◌else◌, Bool-cases}
use flexps.Base.Lists.{All}

abbrev pub Dict {ℓ} : Type ℓ → Type ℓ
Dict V = List (ℕ × V)

module _ {ℓ} {V : Type ℓ} where
  -- `m.find(k)`; `none` is `m.end()`.
  abbrev pub find : ℕ → Dict V → Option V
  find k [] = none
  find k ((j, v) ∷ m) = if k == j then some v else find k m

  -- `m.find(k) != m.end()`
  abbrev pub contains : ℕ → Dict V → Bool
  contains k m = elim (find k m) [ none ↦ false | some _ ↦ true ]

  -- `m[k] = v`
  abbrev pub put : ℕ → V → Dict V → Dict V
  put k v [] = (k, v) ∷ []
  put k v ((j, w) ∷ m) =
      if k == j then (k, v) ∷ m else if ltb k j then (k, v) ∷ (j, w) ∷ m else (j, w) ∷ put k v m

  -- `m.insert({k, v})`, which keeps the old value of a key that is there.
  abbrev pub insert : ℕ → V → Dict V → Dict V
  insert k v m = elim (find k m) [ none ↦ put k v m | some _ ↦ m ]

  -- `m.erase(k)`
  abbrev pub erase : ℕ → Dict V → Dict V
  erase k [] = []
  erase k ((j, w) ∷ m) = if k == j then erase k m else (j, w) ∷ erase k m

  -- The value that `m[k]` reads, where a missing key reads as `d`.
  abbrev pub find_or : ℕ → V → Dict V → V
  find_or k d m = elim (find k m) [ none ↦ d | some v ↦ v ]

  pub find-put :
      (j k : ℕ) (v : V) (m : Dict V) → find j (put k v m) ≡ (if j == k then some v else find j m)
  find-put j k v [] = refl
  find-put j k v (e ∷ m) = ground (arith, find-put j k v m)

  pub find-erase : (j k : ℕ) (m : Dict V) → find j (erase k m) ≡ (if j == k then none else find j m)
  find-erase j k [] = ground arith
  find-erase j k (e ∷ m) = ground (arith, find-erase j k m)

  -- Every key lies above `k`.
  abbrev pub Above : ℕ → Dict V → Type 0
  Above k m = All (λ e. k < e.0) m

  -- The keys rise along the list, as the iteration over a `std::map` meets them.
  abbrev pub Ascending : Dict V → Type 0
  Ascending [] = Unit
  Ascending ((k, v) ∷ m) = Above k m × Ascending m

module _ {ℓ} {V : Type ℓ} where
  pub find-Above : (j k : ℕ) (m : Dict V) → Above k m → j ≤ k → find j m ≡ none
  find-Above j k [] a h = refl
  find-Above j k (e ∷ m) a h = ground (arith, find-Above j k m a.1 h)

  Above-put : (j k : ℕ) (v : V) (m : Dict V) → j < k → Above j m → Above j (put k v m)
  Above-put j k v [] h a = (h, tt)
  Above-put j k v (e ∷ m) h a = ground (arith, Above-put j k v m h a.1)

  Above-trans : (j k : ℕ) (m : Dict V) → j ≤ k → Above k m → Above j m
  Above-trans j k [] h a = tt
  Above-trans j k (e ∷ m) h a = (omega arith, Above-trans j k m h a.1)

  pub put-Ascending : (k : ℕ) (v : V) (m : Dict V) → Ascending m → Ascending (put k v m)
  put-Ascending k v [] a = (tt, tt)
  put-Ascending k v ((j, w) ∷ m) a =
      ground (arith, put-Ascending k v m a.1, Above-put j k v m, Above-trans k j m)

  Above-erase : (j k : ℕ) (m : Dict V) → Above j m → Above j (erase k m)
  Above-erase j k [] a = tt
  Above-erase j k (e ∷ m) a = ground (arith, Above-erase j k m a.1)

  pub erase-Ascending : (k : ℕ) (m : Dict V) → Ascending m → Ascending (erase k m)
  erase-Ascending k [] a = tt
  erase-Ascending k ((j, w) ∷ m) a = ground (arith, erase-Ascending k m a.1, Above-erase j k m a.0)

  pub insert-Ascending : (k : ℕ) (v : V) (m : Dict V) → Ascending m → Ascending (insert k v m)
  insert-Ascending k v m a = ground (arith, put-Ascending k v m a)

  pub find-insert :
      (j k : ℕ) (v : V) (m : Dict V)
      → find j (insert k v m) ≡ (if j == k then some (find_or k v m) else find j m)
  find-insert j k v m = ground (arith, find-put j k v m)

  -- What holds of every entry holds of the one that is found.
  pub All-find {κ} :
      (P : ℕ × V → Type κ) (k : ℕ) {v : V} (m : Dict V) → All P m → find k m ≡ some v → P (k, v)
  All-find P k [] a e = cc
  All-find P k ((j, w) ∷ m) a e = elim (Bool-cases (k == j)) [
    | inl hit ↦ subst P (ground arith) a.0
    | inr miss ↦ All-find P k m a.1 (ground arith)
  ]
