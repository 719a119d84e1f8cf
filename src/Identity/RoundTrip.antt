-- ===== src/Identity/RoundTrip.antt =====
-- The logical identity comes back from an execution identity of internal/identity/identity.go.
use relay_flow.Prelude.{
  ℕ, zero, suc, ◌+◌, ◌*◌, ◌-◌, ◌/◌, ◌%◌, ◌≤◌, ◌<◌, true, false, none, some, List, [], ◌∷◌, ◌++◌,
  All, eqb, ltb, leb, Bool-cases, ◌≡◌, ◌≢◌, ◌⊎◌, inl, inr, refl, sym, ap, subst, arith, ◌∙◌,
}
use relay_flow.Identity.{digits, decimal, marker, new_attempt_run_id, before_last, logical_run_id}

abbrev IsDigit : ℕ → Type 0
IsDigit c = (b'0' ≤ c) × (c ≤ b'9')

All-snoc : (s : List ℕ) (c : ℕ) → All IsDigit s → IsDigit c → All IsDigit (s ++ (c ∷ []))
All-snoc [] c h d = (d, tt)
All-snoc (x ∷ s) c h d = (h.0, All-snoc s c h.1 d)

last-IsDigit : (n : ℕ) → IsDigit (b'0' + n % 10)
last-IsDigit n = (omega arith, omega arith)

only-IsDigit : (n : ℕ) → ltb n 10 ≡ true → IsDigit (b'0' + n)
only-IsDigit n e = (omega arith, ground arith)

digits-All : (fuel n : ℕ) → All IsDigit (digits fuel n)
unfolding digits
digits-All zero n = tt
digits-All (suc fuel) n = elim (Bool-cases (ltb n 10)) [
  | inl e ↦ rw e (only-IsDigit n e, tt)
  | inr e ↦
      rw e (
        All-snoc (digits fuel (n / 10)) (b'0' + n % 10) (digits-All fuel (n / 10)) (last-IsDigit n))
]

-- No marker stands among digits.
before_last-digits : (s : List ℕ) → All IsDigit s → before_last s ≡ none
unfolding before_last
before_last-digits [] h = refl
before_last-digits (c ∷ s) h =
    let no : eqb 126 c ≡ false = ground arith in rw (before_last-digits s h.1) (rw no refl)

before_last-marker : (s : List ℕ) → All IsDigit s → before_last (marker ++ s) ≡ some []
unfolding before_last
before_last-marker [] h = refl
before_last-marker (c ∷ s) h =
    let no : eqb 97 c ≡ false = ground arith in rw (before_last-digits (c ∷ s) h, no) refl

before_last-append : (l s : List ℕ) → before_last s ≡ some [] → before_last (l ++ s) ≡ some l
unfolding before_last
before_last-append [] s h = h
before_last-append (c ∷ l) s h = rw (before_last-append l s h)

cuts : (s : List ℕ) {p : List ℕ} → before_last s ≡ some p → logical_run_id s ≡ p
unfolding logical_run_id
cuts s e = rw (e, logical_run_id) refl

keeps : (s : List ℕ) → before_last s ≡ none → logical_run_id s ≡ s
unfolding logical_run_id
keeps s e = rw (e, logical_run_id) refl

pub first_attempt_id : (l : List ℕ) (k : ℕ) → leb k 1 ≡ true → new_attempt_run_id l k ≡ l
unfolding new_attempt_run_id
first_attempt_id l k e = rw (e, new_attempt_run_id) refl

pub later_attempt_id :
    (l : List ℕ) (k : ℕ) → leb k 1 ≡ false → new_attempt_run_id l k ≡ l ++ (marker ++ decimal k)
unfolding new_attempt_run_id
later_attempt_id l k e = rw (e, new_attempt_run_id) refl

decimal-All : (n : ℕ) → All IsDigit (decimal n)
unfolding decimal
decimal-All n = digits-All (suc n) n

-- `LogicalRunID` takes every identity that `NewAttemptRunID` makes back to the logical one, for an
-- attempt after the first whatever the logical identity is, and for the first attempt where the
-- marker does not stand in the logical identity.
pub logical_run_id-new_attempt_run_id :
    (logical : List ℕ) (attempt : ℕ)
    → (1 < attempt) ⊎ (before_last logical ≡ none)
    → logical_run_id (new_attempt_run_id logical attempt) ≡ logical
logical_run_id-new_attempt_run_id logical attempt h = elim (Bool-cases (leb attempt 1)) [
  | inl e ↦
      let same = first_attempt_id logical attempt e in
      elim h [
        | inl g ↦ absurd (ground arith)
        | inr g ↦ subst (λ x. logical_run_id x ≡ logical) (sym same) (keeps logical g)
      ]
  | inr e ↦
      subst (λ x. logical_run_id x ≡ logical) (sym (later_attempt_id logical attempt e))
        (cuts (logical ++ (marker ++ decimal attempt)) (
          before_last-append logical (marker ++ decimal attempt)
            (before_last-marker (decimal attempt) (decimal-All attempt))))
]

-- The number that a text of digits stands for.
value : ℕ → List ℕ → ℕ
value n [] = n
value n (c ∷ s) = value (n * 10 + (c - b'0')) s

value-snoc : (n : ℕ) (s : List ℕ) (c : ℕ) → value n (s ++ (c ∷ [])) ≡ value n s * 10 + (c - b'0')
unfolding value
value-snoc n [] c = refl
value-snoc n (d ∷ s) c = value-snoc (n * 10 + (d - b'0')) s c

value-digits : (fuel n : ℕ) → n < fuel → value 0 (digits fuel n) ≡ n
unfolding digits
value-digits zero n h = absurd (omega arith)
value-digits (suc fuel) n h = elim (Bool-cases (ltb n 10)) [
  | inl e ↦ rw e (unfold value in omega arith)
  | inr e ↦
      let smaller : n / 10 < fuel = ground arith in
      rw e (
        omega (
          arith,
          value-snoc 0 (digits fuel (n / 10)) (b'0' + n % 10),
          value-digits fuel (n / 10) smaller,
        ))
]

decimal-injective : (j k : ℕ) → decimal j ≡ decimal k → j ≡ k
unfolding decimal
decimal-injective j k e =
    sym (value-digits (suc j) j (omega arith))
    ∙ ap (value 0) e
    ∙ value-digits (suc k) k (omega arith)

append_cancel : (l s t : List ℕ) → l ++ s ≡ l ++ t → s ≡ t
append_cancel [] s t e = e
append_cancel (c ∷ l) s t e = append_cancel l s t (cc)

longer : (l s : List ℕ) (c : ℕ) → l ++ (c ∷ s) ≡ l → ⊥
longer [] s c e = cc
longer (d ∷ l) s c e = longer l s c (cc)

new_attempt_run_id-injective :
    (logical : List ℕ) (j k : ℕ)
    → 1 ≤ j
    → 1 ≤ k
    → new_attempt_run_id logical j ≡ new_attempt_run_id logical k
    → j ≡ k
new_attempt_run_id-injective l j k p q h = elim (Bool-cases (leb j 1)) [
  | inl a ↦ elim (Bool-cases (leb k 1)) [
    | inl b ↦ ground arith
    | inr b ↦ absurd (longer l _ _ (sym (later_attempt_id l k b) ∙ sym h ∙ first_attempt_id l j a))
  ]
  | inr a ↦ elim (Bool-cases (leb k 1)) [
    | inl b ↦ absurd (longer l _ _ (sym (later_attempt_id l j a) ∙ h ∙ first_attempt_id l k b))
    | inr b ↦ decimal-injective j k (
        append_cancel marker (decimal j) (decimal k) (
          append_cancel l (marker ++ decimal j) (marker ++ decimal k)
            (sym (later_attempt_id l j a) ∙ h ∙ later_attempt_id l k b)))
  ]
]

-- The execution identities of different attempts, counted from 1, of one logical run are different.
pub new_attempt_run_id-differs :
    (logical : List ℕ) (j k : ℕ)
    → 1 ≤ j
    → 1 ≤ k
    → j ≢ k
    → new_attempt_run_id logical j ≢ new_attempt_run_id logical k
new_attempt_run_id-differs logical j k p q n h = n (new_attempt_run_id-injective logical j k p q h)
