-- ===== src/Base/Checks.antt =====
-- glog's CHECK aborts the process. A computation that may meet a failed CHECK returns an Option,
-- whose `none` is the abort.
use mathlib.Core.Path.{◌≡◌, refl}
use mathlib.Core.Bool.{Bool, true, false}
use mathlib.Core.Option.{Option, none, some}

infixl 5 ◌>>=◌ ◌>>◌
abbrev pub ◌>>=◌ {ℓ κ} : {A : Type ℓ} {B : Type κ} → Option A → (A → Option B) → Option B
none >>= f = none
some a >>= f = f a

abbrev pub ◌>>◌ {ℓ} : {B : Type ℓ} → Option (Unit {0}) → Option B → Option B
m >> k = m >>= λ _. k

-- `CHECK(b)`.
abbrev pub check : Bool → Option (Unit {0})
check true = some tt
check false = none

-- Inversion of a bind that did not abort.
pub >>=-eq-some {ℓ κ} :
    {A : Type ℓ} {B : Type κ} (m : Option A) (f : A → Option B) {b : B}
    → (m >>= f) ≡ some b
    → (a : A) × (m ≡ some a) × (f a ≡ some b)
>>=-eq-some none f h = cc
>>=-eq-some (some a) f h = (a, refl, h)

pub check-eq-some : (b : Bool) {u : Unit {0}} → check b ≡ some u → b ≡ true
check-eq-some true h = refl
check-eq-some false h = cc
