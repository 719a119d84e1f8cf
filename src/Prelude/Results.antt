-- ===== src/Prelude/Results.antt =====
-- Go's `(value, error)` returns: a result that is either a value or an error of a component's type.
use mathlib.Core.Path.{◌≡◌, refl}
use mathlib.Core.Bool.{Bool, true, false}

pub data Result {ℓ κ} (E : Type ℓ) (A : Type κ) : Type (ℓ ⊔ κ) where
  ok : A → Result E A
  err : E → Result E A

-- `if !holds { return e }`.
abbrev pub guard {ℓ} : {E : Type ℓ} → Bool → E → Result E (Unit {0})
guard holds e = elim holds [ true ↦ ok tt | false ↦ err e ]

-- `x, e := m; if e != nil { return e }`, and the same where there is no value.
infixl 5 ◌>>=◌ ◌>>◌
abbrev pub ◌>>=◌ {ℓ κ μ} :
    {E : Type ℓ} {A : Type κ} {B : Type μ} → Result E A → (A → Result E B) → Result E B
◌>>=◌ (err e) rest = err e
◌>>=◌ (ok x) rest = rest x

abbrev pub ◌>>◌ {ℓ μ} : {E : Type ℓ} {B : Type μ} → Result E (Unit {0}) → Result E B → Result E B
check >> rest = check >>= λ done. rest

-- Inversion of a successful check followed by the rest of a function.
pub >>-eq-ok {ℓ μ} :
    {E : Type ℓ} {B : Type μ} (m : Result E (Unit {0})) (k : Result E B) {b : B}
    → (m >> k) ≡ ok b
    → (m ≡ ok tt) × (k ≡ ok b)
>>-eq-ok (ok tt) k h = (refl, h)
>>-eq-ok (err e) k h = cc

-- The first of two steps that succeed together.
pub first_step {ℓ κ μ} :
    {E : Type ℓ} {A : Type κ} {B : Type μ} (x : Result E A) (f : A → Result E B) {b : B}
    → x >>= f ≡ ok b
    → (a : A) × (f a ≡ ok b) × (x ≡ ok a)
first_step (err e) f h = cc
first_step (ok a) f h = (a, h, refl)

pub first_guard {ℓ μ} :
    {E : Type ℓ} {B : Type μ} (holds : Bool) (e : E) (rest : Result E B) {b : B}
    → guard holds e >> rest ≡ ok b
    → (rest ≡ ok b) × (holds ≡ true)
first_guard true e rest h = (h, refl)
first_guard false e rest h = cc
