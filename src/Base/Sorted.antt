-- ===== src/Base/Sorted.antt =====
-- Sorted arrays and `std::lower_bound`, which is specified on sorted arrays alone.
use Prim.Native.Nat.{ℕ, zero, suc, ◌+◌, ◌-◌, ◌≤◌, ◌<◌}
use mathlib.Core.Path.{◌≡◌, refl, ap}
use mathlib.Core.List.{List, [], ◌∷◌, ◌++◌}
use native.Mathlib.Omega.{arith}
use native.Mathlib.Nat.{zero-add}
use flexps.Base.Tests.{ltb, if◌then◌else◌}
use flexps.Base.Lists.{All, length, take, drop}

abbrev pub IsSorted : List ℕ → Type 0
IsSorted [] = Unit
IsSorted (x ∷ xs) = All (λ y. x ≤ y) xs × IsSorted xs

-- The index of the first element that is not below `x`.
abbrev pub lower_bound : List ℕ → ℕ → ℕ
lower_bound [] x = 0
lower_bound (y ∷ ys) x = if ltb y x then suc (lower_bound ys x) else 0

pub lower_bound-le : (ys : List ℕ) (x : ℕ) → lower_bound ys x ≤ length ys
lower_bound-le [] x = omega arith
lower_bound-le (y ∷ ys) x = ground (arith, lower_bound-le ys x)

pub take-lower_bound : (ys : List ℕ) (x : ℕ) → All (λ y. y < x) (take (lower_bound ys x) ys)
take-lower_bound [] x = tt
take-lower_bound (y ∷ ys) x = ground (arith, take-lower_bound ys x)

All-mono : (a b : ℕ) (ys : List ℕ) → a ≤ b → All (λ y. b ≤ y) ys → All (λ y. a ≤ y) ys
All-mono a b [] h w = tt
All-mono a b (y ∷ ys) h w = (omega (arith, w.0), All-mono a b ys h w.1)

pub drop-lower_bound :
    (ys : List ℕ) (x : ℕ) → IsSorted ys → All (λ y. x ≤ y) (drop (lower_bound ys x) ys)
drop-lower_bound [] x s = tt
drop-lower_bound (y ∷ ys) x s = ground (arith, drop-lower_bound ys x s.1, All-mono x y ys)

module _ {ℓ} {A : Type ℓ} where
  pub take-append-drop : (n : ℕ) (xs : List A) → take n xs ++ drop n xs ≡ xs
  take-append-drop zero xs = refl
  take-append-drop (suc n) [] = refl
  take-append-drop (suc n) (x ∷ xs) = rw (take-append-drop n xs)

  drop-nil : (n : ℕ) → drop {A = A} n [] ≡ []
  drop-nil zero = refl
  drop-nil (suc n) = refl

  pub drop-drop : (b n : ℕ) (xs : List A) → drop n (drop b xs) ≡ drop (b + n) xs
  drop-drop zero n xs = rw (zero-add n)
  drop-drop (suc b) n [] = ground (arith, drop-nil n, drop-nil (suc b + n))
  drop-drop (suc b) n (x ∷ xs) =
      let e : suc b + n ≡ suc (b + n) = omega arith in rw e (drop-drop b n xs)

  pub length-drop : (n : ℕ) (xs : List A) → length (drop n xs) ≡ length xs - n
  length-drop zero xs = omega arith
  length-drop (suc n) [] = omega arith
  length-drop (suc n) (x ∷ xs) = omega (arith, length-drop n xs)

  pub length-take_le : (n : ℕ) (xs : List A) → n ≤ length xs → length (take n xs) ≡ n
  length-take_le zero xs h = refl
  length-take_le (suc n) [] h = elim h [ ]
  length-take_le (suc n) (x ∷ xs) h = ap suc (length-take_le n xs (omega arith))

  pub drop_all : (n : ℕ) (xs : List A) → length xs ≤ n → drop n xs ≡ []
  drop_all zero [] h = refl
  drop_all zero (x ∷ xs) h = elim h [ ]
  drop_all (suc n) [] h = refl
  drop_all (suc n) (x ∷ xs) h = drop_all n xs (omega arith)

module _ {ℓ κ} {A : Type ℓ} (P : A → Type κ) where
  pub All-take : (n : ℕ) (xs : List A) → All P xs → All P (take n xs)
  All-take zero xs a = tt
  All-take (suc n) [] a = tt
  All-take (suc n) (x ∷ xs) a = (a.0, All-take n xs a.1)

  pub All-drop : (n : ℕ) (xs : List A) → All P xs → All P (drop n xs)
  All-drop zero xs a = a
  All-drop (suc n) [] a = tt
  All-drop (suc n) (x ∷ xs) a = All-drop n xs a.1

pub IsSorted-drop : (n : ℕ) (xs : List ℕ) → IsSorted xs → IsSorted (drop n xs)
IsSorted-drop zero xs s = s
IsSorted-drop (suc n) [] s = tt
IsSorted-drop (suc n) (x ∷ xs) s = IsSorted-drop n xs s.1
