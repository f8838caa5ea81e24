-- ===== src/Base/Results.antt =====
-- Fallible code: a Go function that returns a value and an error.
use mathlib.Core.Path.{◌≡◌, refl}
use mathlib.Core.Bool.{Bool, true, false}

-- A Go error of a type of the component's own, or the value.
pub data Result {ℓ κ} (E : Type κ) (A : Type ℓ) : Type (ℓ ⊔ κ) where
  err : (error : E) → Result E A
  ok : (value : A) → Result E A

infixl 5 ◌>>=◌
abbrev pub ◌>>=◌ {ℓ κ ι} :
    {A : Type ℓ} {B : Type κ} {E : Type ι} → Result E A → (A → Result E B) → Result E B
err failure >>= next = err failure
ok value >>= next = next value

-- Inversion of a successful bind.
pub >>=-eq-ok {ℓ κ ι} :
    {E : Type ι} {A : Type ℓ} {B : Type κ} (m : Result E A) (next : A → Result E B) {b : B}
    → (m >>= next) ≡ ok b
    → (a : A) × (m ≡ ok a) × (next a ≡ ok b)
>>=-eq-ok (err failure) next h = cc
>>=-eq-ok (ok value) next h = (value, refl, h)

-- One check, and then the rest.
infixl 5 ◌>>◌
abbrev pub ◌>>◌ {ℓ ι} : {E : Type ι} {A : Type ℓ} → Result E (Unit {0}) → Result E A → Result E A
check >> rest = check >>= λ done. rest

-- `if !b { return e }`
abbrev pub guard {ι} : {E : Type ι} → Bool → E → Result E (Unit {0})
guard false failure = err failure
guard true failure = ok tt

-- Inversion of a successful sequence of checks.
pub >>-eq-ok {ℓ ι} :
    {E : Type ι} {B : Type ℓ} (m : Result E (Unit {0})) (k : Result E B) {b : B}
    → (m >> k) ≡ ok b
    → (m ≡ ok tt) × (k ≡ ok b)
>>-eq-ok (ok tt) k h = (refl, h)
>>-eq-ok (err e) k h = cc

pub guard-eq-ok {ι} : {E : Type ι} (b : Bool) (e : E) → guard b e ≡ ok tt → b ≡ true
guard-eq-ok true e h = refl
guard-eq-ok false e h = cc
