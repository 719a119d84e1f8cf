-- ===== src/Prelude/Checks.antt =====
-- Chains and loops of checks, `if err := check(x); err != nil { return err }`.
use mathlib.Core.Path.{◌≡◌, refl, sym, subst}
use mathlib.Core.Logic.{◌≢◌, ◌↔◌}
use mathlib.Core.Bool.{Bool, true, false, not}
use mathlib.Core.List.{List, [], ◌∷◌, Memᴰ}
use Prim.Native.String.{String}
use text.Mathlib.Text.{◌==◌}
use relay_flow.Prelude.Tests.{==-ne, ne-==}
use relay_flow.Prelude.Results.{Result, ok, err, ◌>>◌, guard}

-- A loop that stops at the first error.
abbrev pub each {ℓ κ} :
    {E : Type ℓ} {A : Type κ} → (A → Result E (Unit {0})) → List A → Result E (Unit {0})
each f [] = ok tt
each f (x ∷ xs) = f x >> each f xs

pub >>_iff {ℓ} :
    {E : Type ℓ} (m k : Result E (Unit {0})) → ((m >> k) ≡ ok tt) ↔ ((m ≡ ok tt) × (k ≡ ok tt))
>>_iff (ok tt) k = (λ h. (refl, h), λ h. h.1)
>>_iff (err e) k = (λ h. cc, λ h. cc (h.0))

pub guard_iff {ℓ} : {E : Type ℓ} (b : Bool) (e : E) → (guard b e ≡ ok tt) ↔ (b ≡ true)
guard_iff true e = (λ h. refl, λ h. refl)
guard_iff false e = (λ h. cc, λ h. cc)

pub each_iff {ℓ κ} :
    {E : Type ℓ} {A : Type κ} (f : A → Result E (Unit {0})) (xs : List A)
    → (each f xs ≡ ok tt) ↔ ((a : A) → Memᴰ a xs → f a ≡ ok tt)
each_iff f [] = (λ h a m. elim m [ ], λ h. refl)
each_iff f (x ∷ xs) = (
  λ h a m. elim m [
    | Memᴰ.head e ↦ subst (λ b. f b ≡ ok tt) (sym e) ((>>_iff (f x) (each f xs)).0 h).0
    | Memᴰ.tail r ↦ (each_iff f xs).0 ((>>_iff (f x) (each f xs)).0 h).1 a r
  ],
  λ h.
      (>>_iff (f x) (each f xs)).1
        (h x (Memᴰ.head refl), (each_iff f xs).1 (λ a m. h a (Memᴰ.tail m))),
)

pub not_iff : (b : Bool) → (not b ≡ true) ↔ (b ≡ false)
not_iff true = (λ h. cc, λ h. cc)
not_iff false = (λ h. refl, λ h. refl)

pub not_==_iff : (s t : String) → (not (s == t) ≡ true) ↔ (s ≢ t)
not_==_iff s t = (λ h. ==-ne ((not_iff (s == t)).0 h), λ h. (not_iff (s == t)).1 (ne-== h))
