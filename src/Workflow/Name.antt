-- ===== src/Workflow/Name.antt =====
-- `namePattern` of internal/workflow/workflow.go, `^[a-z][a-zA-Z0-9]*$`, over the code points of a
-- name. In Go `$` matches at the end of the text only.
use Prim.Native.Char.{code}
use relay_flow.Prelude.{
  ℕ, ◌≤◌, ◌≡◌, ◌↔◌, ◌⊎◌, refl, String, Bool, true, false, List, [], ◌∷◌, All, ◌&&◌, ◌||◌, leb,
  arith, &&-eq-true,
}

abbrev pub codes : String → List ℕ
codes String.[] = []
codes (String.◌∷◌ c s) = code c ∷ codes s

abbrev is_lower : ℕ → Bool
is_lower c = leb b'a' c && leb c b'z'

abbrev is_alphanumeric : ℕ → Bool
is_alphanumeric c = is_lower c || (leb b'A' c && leb c b'Z') || (leb b'0' c && leb c b'9')

all_alphanumeric : List ℕ → Bool
all_alphanumeric [] = true
all_alphanumeric (c ∷ s) = is_alphanumeric c && all_alphanumeric s

unfoldable pub matches_name : List ℕ → Bool
unfolding all_alphanumeric
matches_name [] = false
matches_name (c ∷ s) = is_lower c && all_alphanumeric s

-- The language of the pattern.
abbrev InRange : ℕ → ℕ → ℕ → Type 0
InRange lo hi c = (lo ≤ c) × (c ≤ hi)

abbrev IsAlphanumeric : ℕ → Type 0
IsAlphanumeric c = InRange b'a' b'z' c ⊎ InRange b'A' b'Z' c ⊎ InRange b'0' b'9' c

abbrev pub IsName : List ℕ → Type 0
IsName [] = ⊥
IsName (c ∷ s) = InRange b'a' b'z' c × All IsAlphanumeric s

all_alphanumeric_sound : (s : List ℕ) → all_alphanumeric s ≡ true → All IsAlphanumeric s
unfolding all_alphanumeric
all_alphanumeric_sound [] h = tt
all_alphanumeric_sound (c ∷ s) h =
    let (hc, hs) = &&-eq-true {a = is_alphanumeric c} h in
    (ground arith, all_alphanumeric_sound s hs)

all_alphanumeric_complete : (s : List ℕ) → All IsAlphanumeric s → all_alphanumeric s ≡ true
unfolding all_alphanumeric
all_alphanumeric_complete [] h = refl
all_alphanumeric_complete (c ∷ s) h = ground (arith, all_alphanumeric_complete s h.1, h.0)

pub matches_name_iff : (s : List ℕ) → (matches_name s ≡ true) ↔ IsName s
unfolding matches_name
matches_name_iff [] = (λ h. cc, λ h. absurd h)
matches_name_iff (c ∷ s) = (
  λ h. let (hc, hs) = &&-eq-true {a = is_lower c} h in (ground arith, all_alphanumeric_sound s hs),
  λ h. ground (arith, all_alphanumeric_complete s h.1, h.0),
)
