-- ===== src/Engine/Details.antt =====
-- `GetRunDetail` of internal/execution/goworkflows/engine.go.
pub mod Shows
use relay_flow.Prelude.{
  ℕ, suc, ◌+◌, String, Option, none, some, List, [], ◌∷◌, ◌++◌, Result, ok, err,
}
use relay_flow.Workflow.{Workflow}
use relay_flow.Detail.{RunDetail, add_pending_nodes}
use relay_flow.Detail.Derive.{derive_inspection_fields, get_detail}
use relay_flow.Engine.{Outside, World, EngineError, run_not_found}
use relay_flow.Engine.Instances.{workflow_of}

-- `none` is a want of fuel.
abbrev pub Detailed : Type 0 → Type 0
Detailed S = Option (Result EngineError RunDetail × World S)

abbrev pub derived : {S : Type 0} → World S → Option RunDetail → Detailed S
derived w none = none
derived w (some d) = some (ok (derive_inspection_fields w.now d), w)

-- The definition is only used to add pending steps; without one they are left out.
abbrev pub with_definition :
    {S : Type 0} → RunDetail → Result EngineError Workflow × World S → Detailed S
with_definition d (ok v, w) = derived w (add_pending_nodes d v)
with_definition d (err e, w) = some (ok d, w)

module _ {S : Type 0} (o : Outside S) where
  abbrev pub detail_row : String → Option RunDetail → World S → Detailed S
  detail_row id none w = some (err (run_not_found id), w)
  detail_row id (some d) w = with_definition d (workflow_of o id w)

  -- `GetRunDetail`
  unfoldable pub get_run_detail : String → World S → Detailed S
  get_run_detail id w = detail_row id (get_detail id w.db w.now) w
