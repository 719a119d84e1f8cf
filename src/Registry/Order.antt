-- ===== src/Registry/Order.antt =====
-- The order of texts by which internal/workflow/store.go sorts names.
use Prim.Native.Nat.{ℕ, Ordering, compare as compare_ℕ}
use Prim.Native.String.compare
use Prim.Native.String.{String, then, compare}
use Prim.Native.Char.{code}
use text.Mathlib.Text.{is_le}
use mathlib.Core.Path.{◌≡◌, ap, ◌∙◌, sym}
use mathlib.Core.Bool.{true, false}
use native.Mathlib.Omega.{arith}

then_total :
    (a b : ℕ) (x y : Ordering)
    → (is_le x ≡ false → is_le y ≡ true)
    → is_le (then (compare_ℕ a b) x) ≡ false
    → is_le (then (compare_ℕ b a) y) ≡ true
then_total a b x y f h = ground (arith, f)

-- Of two texts one is at most the other.
pub is_le_total : (s t : String) → is_le (compare s t) ≡ false → is_le (compare t s) ≡ true
is_le_total String.[] String.[] h =
    let e : is_le (compare String.[] String.[]) ≡ true = ap is_le (λ i. compare.nil-nil i) in cc
is_le_total String.[] (String.◌∷◌ d t) h = cc (ap is_le (λ i. compare.nil-cons d t i))
is_le_total (String.◌∷◌ c s) String.[] h = ap is_le (λ i. compare.nil-cons c s i)
is_le_total (String.◌∷◌ c s) (String.◌∷◌ d t) h =
    ap is_le (λ i. compare.cons-cons d c t s i)
    ∙ then_total (code c) (code d) (compare s t) (compare t s) (is_le_total s t)
        (sym (ap is_le (λ i. compare.cons-cons c d s t i)) ∙ h)
