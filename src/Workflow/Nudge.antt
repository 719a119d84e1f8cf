-- ===== src/Workflow/Nudge.antt =====
-- The nudge templates of internal/workflow/workflow.go: `nudgeVarPattern`,
-- `\{\{([^{}]*)\}\}`, `knownNudgeVars` and `RenderNudge`, over code points.
pub mod Laws
pub mod Renders
use relay_flow.Prelude.{
  ℕ, zero, suc, ◌+◌, ◌≡◌, refl, String, Bool, true, false, Option, none, some, List, [], ◌∷◌, ◌++◌,
  All, ◌&&◌, ◌||◌, eqb, arith, &&-eq-true, if◌then◌else◌, Bool-cases, length, Result, ok, err,
  lookup, ap, ◌∙◌, inl, inr,
}
use relay_flow.Workflow.{Workflow, QueryError, no_node}
use relay_flow.Workflow.Name.{codes}

pub data Segment : Type 0 where
  literal : ℕ → Segment
  variable : List ℕ → Segment

-- `NudgeTemplateData`
pub record NudgeTemplateData : Type 0 where
  pub task_system : String
  pub ticket : String
  pub workflow : String
  pub repo : String
  pub node : String
  pub mailbox : String
  pub next_steps : String

abbrev closing : List ℕ → Option (List ℕ)
closing [] = none
closing (c ∷ s) = if eqb c b'}' then some [] else none

abbrev cons? : ℕ → Option (List ℕ) → Option (List ℕ)
cons? c none = none
cons? c (some v) = some (c ∷ v)

-- The submatch `[^{}]*` and the two braces that must follow it.
body : List ℕ → Option (List ℕ)
body [] = none
body (c ∷ s) =
    let rest = body s in if eqb c b'}' then closing s else if eqb c b'{' then none else cons? c rest

second_brace : List ℕ → Option (List ℕ)
unfolding body
second_brace [] = none
second_brace (c ∷ s) = if eqb c b'{' then body s else none

-- The submatch, where the pattern matches at the head of the text.
match_at : List ℕ → Option (List ℕ)
unfolding second_brace
match_at [] = none
match_at (c ∷ s) = if eqb c b'{' then second_brace s else none

-- The leftmost matches that do not overlap, and the text between them; the number is how much of
-- the text the last match has still to pass over.
scan : ℕ → List ℕ → List Segment
scan k [] = []
scan (suc k) (c ∷ s) = scan k s
scan zero (c ∷ s) = elim (match_at (c ∷ s)) [
  | none ↦ literal c ∷ scan zero s
  | some v ↦ variable v ∷ scan (length v + 3) s
]

unfoldable pub segments : List ℕ → List Segment
unfolding scan match_at
segments s = scan 0 s

abbrev pub same_text : List ℕ → List ℕ → Bool
same_text [] [] = true
same_text (a ∷ s) (b ∷ t) = eqb a b && same_text s t
same_text _ _ = false

-- `knownNudgeVars`
unfoldable pub known_nudge_var : List ℕ → Bool
known_nudge_var v =
    same_text v (codes "taskSystem")
    || same_text v (codes "ticket")
    || same_text v (codes "workflow")
    || same_text v (codes "repo")
    || same_text v (codes "node")
    || same_text v (codes "mailbox")
    || same_text v (codes "nextSteps")

-- The `switch` of `RenderNudge`; `none` is a variable that it does not name.
unfoldable pub nudge_value : NudgeTemplateData → List ℕ → Option (List ℕ)
nudge_value d v =
    if same_text v (codes "taskSystem")
    then some (codes d.task_system)
    else if same_text v (codes "ticket")
    then some (codes d.ticket)
    else if same_text v (codes "workflow")
    then some (codes d.workflow)
    else if same_text v (codes "repo")
    then some (codes d.repo)
    else if same_text v (codes "node")
    then some (codes d.node)
    else if same_text v (codes "mailbox")
    then some (codes d.mailbox)
    else if same_text v (codes "nextSteps")
    then some (codes d.next_steps)
    else none

-- The text of a match, which `RenderNudge` keeps for a variable without a value.
abbrev pub matched : List ℕ → List ℕ
matched v = b'{' ∷ b'{' ∷ (v ++ (b'}' ∷ b'}' ∷ []))

abbrev replacement : List ℕ → Option (List ℕ) → List ℕ
replacement v none = matched v
replacement v (some t) = t

unfoldable pub render_segments : NudgeTemplateData → List Segment → List ℕ
render_segments d [] = []
render_segments d (literal c ∷ ss) = c ∷ render_segments d ss
render_segments d (variable v ∷ ss) = replacement v (nudge_value d v) ++ render_segments d ss

unfoldable pub render_nudge : Workflow → String → NudgeTemplateData → Result QueryError (List ℕ)
render_nudge w node d = elim (lookup node w.nodes) [
  | none ↦ err (no_node node)
  | some n ↦ ok (render_segments d (segments (codes n.nudge_prompt)))
]
