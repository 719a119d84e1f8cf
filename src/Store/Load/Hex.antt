-- ===== src/Store/Load/Hex.antt =====
-- Hexadecimal sums in internal/workflow/store.go: comparison without regard to case.
use relay_flow.Prelude.{
  ℕ, String, true, false, List, [], ◌∷◌, ◌++◌, ◌+++◌, map, eqb, &&-eq-true, ◌≡◌, ◌↔◌, refl, ap, ap₂,
  ◌∙◌, arith,
}
use Prim.Native.Char.{code}
use Prim.Native.String.append
use relay_flow.Workflow.Name.{codes}
use relay_flow.Store.Files.{hash_text}
use relay_flow.Store.Load.{
  is_space, trim_left, trim_right, trim_space, byte_length, is_hex, all_hex, fold, equal_fold,
}

head-eq : {c d : ℕ} {s t : List ℕ} → c ∷ s ≡ d ∷ t → (c ≡ d) × (s ≡ t)
head-eq h = (cc, cc)

pub equal_fold_iff : (s t : List ℕ) → (equal_fold s t ≡ true) ↔ (map fold s ≡ map fold t)
unfolding equal_fold
equal_fold_iff [] [] = (λ h. refl, λ h. refl)
equal_fold_iff [] (d ∷ t) = (λ h. cc, λ h. cc)
equal_fold_iff (c ∷ s) [] = (λ h. cc, λ h. cc)
equal_fold_iff (c ∷ s) (d ∷ t) = (
  λ h.
      let (a, b) = &&-eq-true {a = eqb (fold c) (fold d)} h in
      let e : fold c ≡ fold d = ground arith in ap₂ ◌∷◌ e ((equal_fold_iff s t).0 b),
  λ h.
      let (a, b) = head-eq h in
      let e : eqb (fold c) (fold d) ≡ true = ground arith in
      let r = (equal_fold_iff s t).1 b in ground arith,
)

-- 64 hexadecimal digits: what `hex.EncodeToString` makes of the 32 bytes of a SHA-256 sum.
pub record IsDigest (s : List ℕ) : Type 0 where
  pub long : byte_length s ≡ 64
  pub digits : all_hex s ≡ true

-- What is the same but for the case of its letters has the same length and is hexadecimal as well.
fold-hex : (c d : ℕ) → fold c ≡ fold d → is_hex d ≡ true → is_hex c ≡ true
fold-hex c d e h = ground arith

fold-width :
    (c d : ℕ) → fold c ≡ fold d → is_hex d ≡ true → byte_length (c ∷ []) ≡ byte_length (d ∷ [])
unfolding byte_length
fold-width c d e h = ground arith

pub same_digits :
    (s t : List ℕ)
    → map fold s ≡ map fold t
    → all_hex t ≡ true
    → (all_hex s ≡ true) × (byte_length s ≡ byte_length t)
unfolding all_hex byte_length
same_digits [] [] e h = (refl, refl)
same_digits [] (d ∷ t) e h = cc
same_digits (c ∷ s) [] e h = cc
same_digits (c ∷ s) (d ∷ t) e h =
    let (a, b) = head-eq e in
    let (x, y) = &&-eq-true {a = is_hex d} h in
    let (r, q) = same_digits s t b y in
    let z = fold-hex c d a x in let w = fold-width c d a x in (ground arith, ground (arith, w))

-- A digest stands as it is after trimming.
hex-not-space : (c : ℕ) → is_hex c ≡ true → is_space c ≡ false
unfolding is_space
hex-not-space c h = ground arith

-- The line break that follows a digest in its file is trimmed off.
trim_right-line : (s : List ℕ) → all_hex s ≡ true → trim_right (s ++ (b'\n' ∷ [])) ≡ s
unfolding trim_right all_hex is_space
trim_right-line [] h = refl
trim_right-line (c ∷ s) h =
    let (x, y) = &&-eq-true {a = is_hex c} h in
    ground (arith, hex-not-space c x, trim_right-line s y)

trim_left-other : (c : ℕ) (s : List ℕ) → is_space c ≡ false → trim_left (c ∷ s) ≡ c ∷ s
unfolding trim_left
trim_left-other c s h = rw h refl

trim_left-line :
    (s : List ℕ)
    → all_hex s ≡ true
    → trim_right (trim_left (s ++ (b'\n' ∷ []))) ≡ trim_right (s ++ (b'\n' ∷ []))
unfolding trim_left trim_right all_hex is_space
trim_left-line [] h = refl
trim_left-line (c ∷ s) h =
    let (x, y) = &&-eq-true {a = is_hex c} h in
    ap trim_right (trim_left-other c (s ++ (b'\n' ∷ [])) (hex-not-space c x))

codes-append : (s t : String) → codes (s +++ t) ≡ codes s ++ codes t
codes-append String.[] t = ap codes (append.nil t)
codes-append (String.◌∷◌ c s) t =
    ap codes (append.cons c s t) ∙ ap (λ k. code c ∷ k) (codes-append s t)

pub trim_space-hash_text :
    (s : String) → all_hex (codes s) ≡ true → trim_space (codes (hash_text s)) ≡ codes s
unfolding trim_space
trim_space-hash_text s h =
    rw (codes-append s "\n") (trim_left-line (codes s) h ∙ trim_right-line (codes s) h)
