-- ===== src/Workflow/Nudge/Laws.antt =====
-- The nudge templates of internal/workflow/workflow.go: the variables that validation lets through all
-- have a value.
use relay_flow.Prelude.{
  ◌⊎◌, ℕ, ◌≡◌, ◌↔◌, refl, Bool, true, false, some, List, [], ◌∷◌, Memᴰ, ◌||◌, eqb, &&-eq-true,
  arith, Bool-cases, Option-cases, inl, inr,
}
use relay_flow.Workflow.Name.{codes}
use relay_flow.Workflow.Nudge.{
  Segment, literal, variable, NudgeTemplateData, known_nudge_var, nudge_value, same_text,
}

-- The names that a template may use.
abbrev variables : List (List ℕ)
variables =
    codes "taskSystem"
    ∷ codes "ticket"
    ∷ codes "workflow"
    ∷ codes "repo"
    ∷ codes "node"
    ∷ codes "mailbox"
    ∷ codes "nextSteps"
    ∷ []

abbrev pub IsVariable : List ℕ → Type 0
IsVariable v = Memᴰ v variables

-- A segment of a template that has a value for every variable.
abbrev pub IsKnown : Segment → Type 0
IsKnown (literal c) = Unit
IsKnown (variable v) = IsVariable v

pub same_text-eq : (s t : List ℕ) → same_text s t ≡ true → s ≡ t
same_text-eq [] [] h = refl
same_text-eq [] (b ∷ t) h = cc
same_text-eq (a ∷ s) [] h = cc
same_text-eq (a ∷ s) (b ∷ t) h =
    let (x, y) = &&-eq-true {a = eqb a b} h in
    let e : a ≡ b = ground arith in let r = same_text-eq s t y in cc

same_text_refl : (s : List ℕ) → same_text s s ≡ true
same_text_refl [] = refl
same_text_refl (a ∷ s) = rw (same_text_refl s) (ground arith)

abbrev or_among : List ℕ → Bool → List (List ℕ) → Bool
or_among v b [] = b
or_among v b (n ∷ ns) = or_among v (b || same_text v n) ns

or_among-mem :
    (v : List ℕ) (b : Bool) (ns : List (List ℕ)) → or_among v b ns ≡ true → (b ≡ true) ⊎ Memᴰ v ns
or_among-mem v b [] h = inl h
or_among-mem v b (n ∷ ns) h = elim (or_among-mem v (b || same_text v n) ns h) [
  | inr m ↦ inr (Memᴰ.tail m)
  | inl e ↦ elim (Bool-cases b) [
    | inl t ↦ inl t
    | inr f ↦ inr (Memᴰ.head (same_text-eq v n (rw f at e)))
  ]
]

mem-or_among :
    (v : List ℕ) (b : Bool) (ns : List (List ℕ)) → (b ≡ true) ⊎ Memᴰ v ns → or_among v b ns ≡ true
mem-or_among v b [] (inl h) = h
mem-or_among v b [] (inr m) = elim m [ ]
mem-or_among v b (n ∷ ns) (inl h) = mem-or_among v (b || same_text v n) ns (inl (rw h refl))
mem-or_among v b (n ∷ ns) (inr (Memᴰ.head e)) =
    let same : same_text v n ≡ true = rw e (same_text_refl n) in
    mem-or_among v (b || same_text v n) ns (inl (ground arith))
mem-or_among v b (n ∷ ns) (inr (Memᴰ.tail m)) = mem-or_among v (b || same_text v n) ns (inr m)

pub known_nudge_var_iff : (v : List ℕ) → (known_nudge_var v ≡ true) ↔ IsVariable v
unfolding known_nudge_var
known_nudge_var_iff v = (
  λ h. elim (or_among-mem v false variables h) [ inl e ↦ cc | inr m ↦ m ],
  λ m. mem-or_among v false variables (inr m),
)

pub known-has_value :
    (d : NudgeTemplateData) (v : List ℕ)
    → known_nudge_var v ≡ true
    → (t : List ℕ) × (nudge_value d v ≡ some t)
unfolding known_nudge_var nudge_value
known-has_value d v h = elim (Option-cases (nudge_value d v)) [
  | inl n ↦ absurd (ground arith)
  | inr r ↦ r
]
