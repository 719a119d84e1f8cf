-- ===== src/Repo.antt =====
-- internal/repo/repo.go and what it uses of internal/task/task.go: tickets, the task system of a
-- repo as the interface that the callers see, and the published workflow bindings.
pub mod Bind
pub mod Service
use relay_flow.Prelude.{String, Bool, Option, List, Result}
use relay_flow.Config.{RawValues}
use relay_flow.Run.{TicketRef}
use relay_flow.Workflow.{Workflow}

pub record Ticket : Type 0 where
  pub id : String
  pub key : String
  pub title : String
  pub workflow_claims : List String
  pub fields : RawValues

-- `Ref`
abbrev pub ref : Ticket → TicketRef
ref t = record { id = t.id; key = t.key; title = t.title }

-- `WorkflowBinding`; a nil matcher is `none`.
pub record WorkflowBinding : Type 0 where
  pub workflow : Workflow
  pub match_ticket : Option (Ticket → Bool)
  pub ownership : Option (Ticket → Bool)

-- An error that an adapter or the executor returns, with whether it is `ErrOwnershipMismatch`.
pub record PortError : Type 0 where
  pub owner_mismatch : Bool
  pub text : String

-- What the callers use of a `task.System`: its answers at the time of the call. The capabilities are
-- `none` where the adapter does not implement `OwnershipCapabilities`.
pub record OwnershipCapabilities : Type 0 where
  pub validate_ownership : TicketRef → String → RawValues → Result PortError (Unit {0})
  pub claim_if_owned : TicketRef → String → RawValues → Result PortError (Unit {0})
  pub compile_ownership : RawValues → Result PortError (Option (Ticket → Bool))

pub record TaskSystem : Type 0 where
  pub capabilities : Option OwnershipCapabilities
  pub has_comment : TicketRef → String → Result PortError Bool
  pub compile_filter : RawValues → Result PortError (Option (Ticket → Bool))

-- `Repo`, with the snapshot that `Bindings` returns.
pub record Repo : Type 0 where
  pub name : String
  pub path : String
  pub task_system : Option TaskSystem
  pub bindings : List WorkflowBinding
