-- ===== src/Workflow/Nudge/Renders.antt =====
-- What `RenderNudge` of internal/workflow/workflow.go makes of a template, in terms of its text.
use mathlib.Core.List.{append_assoc}
use relay_flow.Prelude.{
  ℕ, zero, suc, ◌+◌, ◌≡◌, refl, false, Option, none, some, List, [], ◌∷◌, ◌++◌, All, eqb, arith,
  Bool-cases, Option-cases, length, length-append, inl, inr, sym, subst, if◌then◌else◌,
}
use relay_flow.Workflow.Name.{codes}
use relay_flow.Workflow.Nudge.{
  NudgeTemplateData, closing, body, match_at, scan, segments, nudge_value, render_segments,
  same_text,
}
use relay_flow.Workflow.Nudge.Laws.{
  IsKnown, IsVariable, known-has_value, known_nudge_var_iff, same_text-eq,
}

abbrev pub HasNoBrace : List ℕ → Type 0
HasNoBrace = All (λ c. (eqb c b'{' ≡ false) × (eqb c b'}' ≡ false))

-- A variable between two pairs of braces stands at the head of the text.
pub record StartsWith (v rest s : List ℕ) : Type 0 where
  pub plain : HasNoBrace v
  pub splits : s ≡ b'{' ∷ b'{' ∷ (v ++ (b'}' ∷ b'}' ∷ rest))

-- The variables and what each stands for.
pub data IsValue (d : NudgeTemplateData) : List ℕ → List ℕ → Type 0 where
  task_system : IsValue d (codes "taskSystem") (codes d.task_system)
  ticket : IsValue d (codes "ticket") (codes d.ticket)
  workflow : IsValue d (codes "workflow") (codes d.workflow)
  repo : IsValue d (codes "repo") (codes d.repo)
  node : IsValue d (codes "node") (codes d.node)
  mailbox : IsValue d (codes "mailbox") (codes d.mailbox)
  next_steps : IsValue d (codes "nextSteps") (codes d.next_steps)

-- From left to right: a variable is replaced by its value, and where none stands the code point is
-- kept.
pub data Renders (d : NudgeTemplateData) : List ℕ → List ℕ → Type 0 where
  stops : Renders d [] []
  keeps :
      {c : ℕ} {s out : List ℕ}
      → ((v rest : List ℕ) → ¬ StartsWith v rest (c ∷ s))
      → Renders d s out
      → Renders d (c ∷ s) (c ∷ out)
  fills :
      {s v rest value out : List ℕ}
      → StartsWith v rest s
      → IsValue d v value
      → Renders d rest out
      → Renders d s (value ++ out)

-- One test of the `switch`.
case-IsValue :
    (d : NudgeTemplateData) (v name t value : List ℕ) (rest : Option (List ℕ))
    → IsValue d name t
    → (if same_text v name then some t else rest) ≡ some value
    → (rest ≡ some value → IsValue d v value)
    → IsValue d v value
case-IsValue d v name t value rest i h k = elim (Bool-cases (same_text v name)) [
  | inr e ↦ k (rw e at h)
  | inl e ↦
      let same : t ≡ value = cc (rw e at h) in
      subst (λ x. IsValue d x value) (sym (same_text-eq v name e))
        (subst (λ x. IsValue d name x) same i)
]

nudge_value-IsValue :
    (d : NudgeTemplateData) (v : List ℕ) {value : List ℕ}
    → nudge_value d v ≡ some value
    → IsValue d v value
unfolding nudge_value
nudge_value-IsValue d v {value} h = case-IsValue d v _ _ value _ task_system h λ h1.
    case-IsValue d v _ _ value _ ticket h1 λ h2. case-IsValue d v _ _ value _ workflow h2 λ h3.
      case-IsValue d v _ _ value _ repo h3 λ h4. case-IsValue d v _ _ value _ node h4 λ h5.
        case-IsValue d v _ _ value _ mailbox h5
          λ h6. case-IsValue d v _ _ value _ next_steps h6 (λ h7. cc)

closing-starts :
    (s : List ℕ) {v : List ℕ} → closing s ≡ some v → (rest : List ℕ) × (s ≡ b'}' ∷ rest) × (v ≡ [])
closing-starts [] h = cc
closing-starts (c ∷ s) h = (s, ground arith, ground arith)

body-starts :
    (s : List ℕ) {v : List ℕ}
    → body s ≡ some v
    → (rest : List ℕ) × HasNoBrace v × (s ≡ v ++ (b'}' ∷ b'}' ∷ rest))
unfolding body
body-starts [] h = cc
body-starts (c ∷ s) {v} h = elim (Bool-cases (eqb c b'}')) [
  | inl e ↦
      let (rest, p, q) = closing-starts s {v = v} (rw e at h) in
      (rest, subst HasNoBrace (sym q) tt, rw q (ground arith))
  | inr e ↦ elim (Bool-cases (eqb c b'{')) [
    | inl f ↦ cc (rw (e, f) at h)
    | inr f ↦ elim (Option-cases (body s)) [
      | inl n ↦ absurd (ground arith)
      | inr (u, p) ↦
          let (rest, plain, q) = body-starts s p in
          let same : c ∷ u ≡ v = ground arith in
          (rest, subst HasNoBrace same ((f, e), plain), ground arith)
    ]
  ]
]

body_complete : (v rest : List ℕ) → HasNoBrace v → body (v ++ (b'}' ∷ b'}' ∷ rest)) ≡ some v
unfolding body
body_complete [] rest h = refl
body_complete (c ∷ v) rest h =
    let more = body_complete v rest h.1 in rw (h.0.1, h.0.0) (rw more refl)

match_at-StartsWith :
    (s : List ℕ) {v : List ℕ} → match_at s ≡ some v → (rest : List ℕ) × StartsWith v rest s
unfolding match_at
match_at-StartsWith [] h = cc
match_at-StartsWith (a ∷ []) h = absurd (ground arith)
match_at-StartsWith (a ∷ b ∷ s) {v} h =
    let (rest, plain, p) = body-starts s {v = v} (ground arith) in
    (rest, record { plain = plain; splits = ground arith })

match_at-none : (s : List ℕ) → match_at s ≡ none → (v rest : List ℕ) → ¬ StartsWith v rest s
unfolding match_at
match_at-none s h v rest k =
    let found : match_at s ≡ some v =
      subst (λ x. match_at x ≡ some v) (sym k.splits) (body_complete v rest k.plain) in
    cc

module _ (d : NudgeTemplateData) where
  -- From the head of a text whose first code points, `p`, are still to be passed over.
  scan-Renders :
      (s : List ℕ) (k : ℕ) (p rest : List ℕ)
      → s ≡ p ++ rest
      → k ≡ length p
      → All IsKnown (scan k s)
      → Renders d rest (render_segments d (scan k s))
  unfolding scan render_segments
  scan-Renders [] k [] rest e l h = subst (λ x. Renders d x []) e stops
  scan-Renders [] k (c ∷ p) rest e l h = cc
  scan-Renders (c ∷ s) zero [] rest e l h = elim (Option-cases (match_at (c ∷ s))) [
    | inl n ↦
        subst (λ x. Renders d x (render_segments d (scan zero (c ∷ s)))) e
          (rw (n, scan)
            (keeps (match_at-none (c ∷ s) n)
              (scan-Renders s zero [] s refl refl (all_literal n h))))
    | inr (v, m) ↦
        let (more, starts) = match_at-StartsWith (c ∷ s) m in
        let (first, others) = all_variable m h in
        let (value, found) = known-has_value d v ((known_nudge_var_iff v).1 first) in
        let p = b'{' ∷ (v ++ (b'}' ∷ b'}' ∷ [])) in
        let after =
          scan-Renders s (length v + 3) p more (passed v more starts.splits)
            (omega (arith, length-append v (b'}' ∷ b'}' ∷ []))) others in
        subst (λ x. Renders d x (render_segments d (scan zero (c ∷ s)))) e
          (rw (m, scan) (rw found (fills starts (nudge_value-IsValue d v found) after)))
  ]
    where
      all_literal :
          match_at (c ∷ s) ≡ none → All IsKnown (scan zero (c ∷ s)) → All IsKnown (scan zero s)
      all_literal n k = (rw (n, scan) at k).1

      all_variable :
          {v : List ℕ}
          → match_at (c ∷ s) ≡ some v
          → All IsKnown (scan zero (c ∷ s))
          → IsVariable v × All IsKnown (scan (length v + 3) s)
      all_variable m k = rw (m, scan) at k

      passed :
          (v more : List ℕ)
          → c ∷ s ≡ b'{' ∷ b'{' ∷ (v ++ (b'}' ∷ b'}' ∷ more))
          → s ≡ (b'{' ∷ (v ++ (b'}' ∷ b'}' ∷ []))) ++ more
      passed v more q = let a = append_assoc v (b'}' ∷ b'}' ∷ []) more in cc (q, a)
  scan-Renders (c ∷ s) zero (a ∷ p) rest e l h = absurd (omega (arith, l))
  scan-Renders (c ∷ s) (suc k) [] rest e l h = absurd (omega (arith, l))
  scan-Renders (c ∷ s) (suc k) (a ∷ p) rest e l h =
      scan-Renders s k p rest (cc) (omega (arith, l)) h

  -- A template whose variables are all known renders with each replaced.
  pub render_segments-Renders :
      (s : List ℕ) → All IsKnown (segments s) → Renders d s (render_segments d (segments s))
  unfolding segments
  render_segments-Renders s h = scan-Renders s zero [] s refl refl h
