-- ===== src/Engine/Instances.antt =====
-- The lookups of workflow instances in internal/execution/goworkflows/engine.go: `instance`,
-- `lookupInstance` and `workflowOf`.
use relay_flow.Prelude.{
  Memᴰ, Option-cases, Bool-cases, inl, inr, ◌≡◌, String, Bool, true, false, Option, none, some,
  List, [], ◌∷◌, Result, ok, err, lookup, ◌==◌, ◌&&◌,
}
use relay_flow.Workflow.{Workflow}
use relay_flow.Run.{Start}
use relay_flow.Engine.{
  Fault, Instance, Event, started, Outside, World, EngineError, run_not_found, no_snapshot,
  history_failed, decode_failed, remember,
}

-- `ORDER BY rowid DESC LIMIT 1`
unfoldable pub last_where : (Instance → Bool) → List Instance → Option Instance
last_where test [] = none
last_where test (i ∷ is) = elim (last_where test is) [
  | some j ↦ some j
  | none ↦ elim (test i) [ true ↦ some i | false ↦ none ]
]

abbrev pub is_active : String → Instance → Bool
is_active id i = i.id == id && i.active

-- `instance`; `none` is `sql.ErrNoRows`.
abbrev pub active_instance : String → List Instance → Option Instance
active_instance id = last_where (is_active id)

-- `lookupInstance`: an active row before any other.
unfoldable pub lookup_instance : String → List Instance → Option Instance
lookup_instance id is = elim (active_instance id is) [
  | some i ↦ some i
  | none ↦ last_where (λ i. i.id == id) is
]

module _ {S : Type 0} (o : Outside S) where
  -- The inputs of the first started event that has some.
  unfoldable pub first_input : List Event → Option String
  first_input [] = none
  first_input (started (x ∷ xs) ∷ es) = some x
  first_input (e ∷ es) = first_input es

  abbrev pub decoded : World S → String → Result Fault Start → Result EngineError Workflow × World S
  decoded w id (err e) = (err (decode_failed e), w)
  decoded w id (ok start) =
      (ok start.workflow, record w { snapshots = remember id start.workflow w.snapshots })

  abbrev pub from_input : World S → String → Option String → Result EngineError Workflow × World S
  from_input w id none = (err (no_snapshot id), w)
  from_input w id (some x) = decoded w id (o.decode x)

  abbrev pub from_history :
      World S → String → Result Fault (List Event) → Result EngineError Workflow × World S
  from_history w id (err e) = (err (history_failed e), w)
  from_history w id (ok es) = from_input w id (first_input es)

  abbrev pub from_instance :
      World S → String → Option Instance → Result EngineError Workflow × World S
  from_instance w id none = (err (run_not_found id), w)
  from_instance w id (some i) = from_history w id (o.history i w.outside)

  -- `workflowOf`: the cache, or the history.
  unfoldable pub workflow_of : String → World S → Result EngineError Workflow × World S
  unfolding last_where
  workflow_of id w = elim (lookup id w.snapshots) [
    | some v ↦ (ok v, w)
    | none ↦ from_instance w id (active_instance id (o.instances w.outside))
  ]

pub last_where-some :
    (test : Instance → Bool) (is : List Instance) {i : Instance}
    → last_where test is ≡ some i
    → Memᴰ i is × (test i ≡ true)
unfolding last_where
last_where-some test [] h = cc
last_where-some test (j ∷ is) {i} h = elim (Option-cases (last_where test is)) [
  | inr (k, e) ↦ let (m, t) = last_where-some test is {i = i} (cc (rw e at h)) in (Memᴰ.tail m, t)
  | inl n ↦ elim (Bool-cases (test j)) [
    | inl t ↦ let same : i ≡ j = cc (rw (n, t) at h) in (Memᴰ.head same, rw same t)
    | inr f ↦ cc (rw (n, f) at h)
  ]
]

pub last_where-none :
    (test : Instance → Bool) (is : List Instance) {i : Instance}
    → last_where test is ≡ none
    → Memᴰ i is
    → test i ≡ false
unfolding last_where
last_where-none test [] h m = elim m [ ]
last_where-none test (j ∷ is) {i} h m = elim (Option-cases (last_where test is)) [
  | inr (k, e) ↦ cc (rw e at h)
  | inl n ↦ elim (Bool-cases (test j)) [
    | inl t ↦ cc (rw (n, t) at h)
    | inr f ↦ elim m [ Memᴰ.head e ↦ rw e f | Memᴰ.tail k ↦ last_where-none test is n k ]
  ]
]
