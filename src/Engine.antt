-- ===== src/Engine.antt =====
-- internal/execution/goworkflows/engine.go: the durable executor over the projection, the workflow
-- library with its tables, and the adapters of terminals and tasks. The projection's own database is
-- taken as working, and `time.Now` is the same throughout one call.
pub mod Instances
pub mod Ensure
pub mod Reports
pub mod Cancel
pub mod Details
use relay_flow.Prelude.{
  ℕ, String, Bool, true, false, Option, none, some, List, [], ◌∷◌, Result, ok, err, if◌then◌else◌,
  ◌==◌, ◌+++◌,
}
use relay_flow.Workflow.{Workflow}
use relay_flow.Workflow.Report.{Report, ReportError}
use relay_flow.Run.{State, TicketRef, Start, RuntimePolicy}
use relay_flow.Projection.Db.{Db}

-- What the library or an adapter reports. A missing or an existing instance is told apart from other
-- failures.
pub data Fault : Type 0 where
  not_found already_exists : Fault
  other : String → Fault

-- A row of the library's table `instances`; `active` is `state = 0`. The rows stand in the order of
-- their `rowid`.
pub record Instance : Type 0 where
  pub id : String
  pub execution : String
  pub active : Bool

-- An event of a history, with the inputs of a started event and the time of a finished one.
pub data Event : Type 0 where
  started : List String → Event
  cancel_requested terminated : Event
  finished : ℕ → Event
  unrelated : Event

-- `reportSignal` and the reconcile signal.
pub data Signal : Type 0 where
  reports : String → String → String → Report → Signal
  reconciles : Signal

-- What lies outside: the state of the workflow library and of the adapters, as a type of its own, and
-- the calls that the engine makes of them.
pub record Outside (S : Type 0) : Type 0 where
  pub instances : S → List Instance
  pub history : Instance → S → Result Fault (List Event)
  pub cancel_pending : Instance → S → Result Fault Bool
  pub create_instance : Start → S → Result Fault (Unit {0}) × S
  pub signal : String → Signal → S → Result Fault (Unit {0}) × S
  pub cancel_instance : Instance → S → Result Fault (Unit {0}) × S
  pub decode : String → Result Fault Start
  pub find_terminal : String → String → S → Bool
  pub close_terminal : String → String → S → Result Fault (Unit {0}) × S
  pub comment : String → String → String → String → S → Result Fault (Unit {0}) × S
  pub repo_path : String → Option String
  pub logical_run_id : String → String

-- `Engine`: the projection, the cache of definitions, and what lies outside. The policy is the one of
-- the machine's configuration.
pub record World (S : Type 0) : Type 0 where
  pub db : Db
  pub snapshots : List (String × Workflow)
  pub outside : S
  pub now : ℕ
  pub runtime : RuntimePolicy

pub data EngineError : Type 0 where
  run_not_found no_snapshot no_terminal_event was_terminated : String → EngineError
  create_failed signal_failed history_failed decode_failed cancel_failed : Fault → EngineError
  close_failed comment_failed : Fault → EngineError
  invalid_report : ReportError → EngineError
  state_changed : State → EngineError
  not_registered reappeared : String → EngineError

-- An effect outside.
abbrev pub outside_result : {S A : Type 0} → World S → Result Fault A × S → Result Fault A × World S
outside_result w (r, s) = (r, record w { outside = s })

-- `e.snapshots[id] = &wf`
unfoldable pub remember : String → Workflow → List (String × Workflow) → List (String × Workflow)
remember id v [] = (id, v) ∷ []
remember id v ((k, u) ∷ m) = if k == id then (k, v) ∷ m else (k, u) ∷ remember id v m

-- The key of the projection's identity of a cancellation, `CancellationMarker`.
abbrev pub cancellation_marker : String → String
cancellation_marker id = id +++ ":cancellation"
