-- ===== src/Router.antt =====
-- internal/router/router.go: `ResolveWorkflow`.
pub mod Exact
use relay_flow.Prelude.{
  ℕ, String, Bool, true, false, Option, none, some, List, [], ◌∷◌, map, Result, ok, err, ◌==◌,
  if◌then◌else◌, len, slice, starts_with,
}
use relay_flow.Workflow.{Workflow}
use relay_flow.Repo.{Ticket, WorkflowBinding, Repo}

-- The errors, with what they carry; the names of an ambiguity are sorted in the source, to make the
-- message deterministic.
pub data RouteError : Type 0 where
  no_match : RouteError
  no_repo : RouteError
  invalid_claims : List String → RouteError
  invalid_claim : String → RouteError
  claim_owner_mismatch : String → RouteError
  ambiguous : List String → RouteError

-- `strings.TrimPrefix(claim, claimPrefix)`
unfoldable pub trim_claim : String → String
trim_claim claim = if starts_with claim "wf:" then slice claim 3 (len claim) else claim

-- A call of a matcher that may be nil.
abbrev pub accepts : Option (Ticket → Bool) → Ticket → Bool
accepts none t = false
accepts (some f) t = f t

-- The loop over the bindings for a claimed ticket.
unfoldable pub resolve_claim : String → List WorkflowBinding → Ticket → Result RouteError Workflow
resolve_claim name [] t = err (invalid_claim name)
resolve_claim name (b ∷ bs) t = elim (b.workflow.name == name) [
  | false ↦ resolve_claim name bs t
  | true ↦ if accepts b.ownership t then ok b.workflow else err (claim_owner_mismatch name)
]

-- The loop that collects the matches.
unfoldable pub matched : List WorkflowBinding → Ticket → List Workflow
matched [] t = []
matched (b ∷ bs) t =
    let rest = matched bs t in if accepts b.match_ticket t then b.workflow ∷ rest else rest

abbrev pub sole : List Workflow → Result RouteError Workflow
sole [] = err no_match
sole (w ∷ []) = ok w
sole ws = err (ambiguous (map (λ w. w.name) ws))

abbrev pub resolve_claims : List String → List WorkflowBinding → Ticket → Result RouteError Workflow
resolve_claims [] bs t = sole (matched bs t)
resolve_claims (c ∷ []) bs t = resolve_claim (trim_claim c) bs t
resolve_claims cs bs t = err (invalid_claims cs)

unfoldable pub resolve_workflow : Option Repo → Ticket → Result RouteError Workflow
resolve_workflow none t = err no_repo
resolve_workflow (some r) t = resolve_claims t.workflow_claims r.bindings t
