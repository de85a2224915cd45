-- ===== src/Base/Counts.antt =====
-- How many of the first `n` numbers pass a test, and families indexed by numbers.
use Prim.Native.Nat.{ℕ, zero, suc, ◌+◌, ◌≤◌, ◌<◌}
use mathlib.Core.Path.{◌≡◌, refl}
use mathlib.Core.Bool.{Bool, true, false}
use native.Mathlib.Omega.{arith}
use mathlib.Core.Logic.{inl, inr}
use flexps.Base.Tests.{◌==◌, if◌then◌else◌, Bool-cases}

-- The family with another value at one index.
abbrev pub update {ℓ} : {A : Type ℓ} → (ℕ → A) → ℕ → A → ℕ → A
update f i a j = if j == i then a else f j

abbrev pub count : ℕ → (ℕ → Bool) → ℕ
count zero f = 0
count (suc n) f = count n f + (if f n then 1 else 0)

pub count-ext : (n : ℕ) (f g : ℕ → Bool) → ((i : ℕ) → i < n → f i ≡ g i) → count n f ≡ count n g
count-ext zero f g h = refl
count-ext (suc n) f g h =
    rw (count-ext n f g (λ i l. h i (omega (arith, l))), h n (omega arith)) refl

pub count_le : (n : ℕ) (f : ℕ → Bool) → count n f ≤ n
count_le zero f = omega arith
count_le (suc n) f = ground (arith, count_le n f)

pub count_lt : (n i : ℕ) (f : ℕ → Bool) → i < n → f i ≡ false → count n f < n
count_lt zero i f l e = absurd (omega (arith, l))
count_lt (suc n) i f l e = elim (Bool-cases (i == n)) [
  | inl last ↦ ground (arith, count_le n f)
  | inr before ↦ ground (arith, count_lt n i f)
]

pub count_all : (n i : ℕ) (f : ℕ → Bool) → count n f ≡ n → i < n → f i ≡ true
count_all n i f e l = elim (Bool-cases (f i)) [
  | inl holds ↦ holds
  | inr fails ↦ absurd (omega (arith, count_lt n i f l fails, e))
]

pub count_none : (n : ℕ) (f : ℕ → Bool) → ((i : ℕ) → i < n → f i ≡ false) → count n f ≡ 0
count_none zero f h = refl
count_none (suc n) f h =
    ground (arith, count_none n f (λ i l. h i (omega (arith, l))), h n (omega arith))

-- The same test but at one index, which fails the one and passes the other.
pub count_one_more :
    (n i : ℕ) (f g : ℕ → Bool)
    → i < n
    → f i ≡ false
    → g i ≡ true
    → ((j : ℕ) → (j == i) ≡ false → g j ≡ f j)
    → count n g ≡ count n f + 1
count_one_more zero i f g l ef eg h = absurd (omega (arith, l))
count_one_more (suc n) i f g l ef eg h = elim (Bool-cases (i == n)) [
  | inl last ↦ ground (arith, count-ext n g f (λ j b. h j (ground (arith, b))))
  | inr before ↦ ground (arith, count_one_more n i f g (ground arith) ef eg h, h n)
]

pub count_total : (n : ℕ) (f : ℕ → Bool) → ((i : ℕ) → i < n → f i ≡ true) → count n f ≡ n
count_total zero f h = refl
count_total (suc n) f h =
    ground (arith, count_total n f (λ i l. h i (omega (arith, l))), h n (omega arith))
