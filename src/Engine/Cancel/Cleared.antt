-- ===== src/Engine/Cancel/Cleared.antt =====
-- What `FinalizeNodeRuntimes` of internal/execution/goworkflows/activities.go leaves in the rows of the
-- nodes.
use relay_flow.Prelude.{
  ℕ, String, Bool, true, false, not, some, List, [], ◌∷◌, Bool-cases, ==-eq, ◌==◌, if◌then◌else◌,
  ◌≡◌, inl, inr, refl, arith,
}
use relay_flow.Run.{Run, RuntimePolicy}
use relay_flow.Projection.Table.{find, select, find-update_where_key, find_test}
use relay_flow.Projection.Runtimes.{NodeRuntime, at_node, clear_node_runtime}
use relay_flow.Engine.Cancel.{list_node_runtimes, clear_all}
use relay_flow.Engine.Cancel.Outcomes.{GivesUp}

-- A name that is not the one of the first row is looked for in the others.
later :
    (id node : String) (x rt : NodeRuntime) (rts : List NodeRuntime) {z : NodeRuntime}
    → at_node id node x ≡ true
    → at_node id rt.node x ≡ false
    → find (λ r. r.node == node) (rt ∷ rts) ≡ some z
    → find (λ r. r.node == node) rts ≡ some z
unfolding find
later id node x rt rts t e m = elim (Bool-cases (rt.node == node)) [
  | inl q ↦ cc (rw (==-eq q) at e)
  | inr q ↦ rw q at m
]

module _ (id : String) (kt ks : Bool) (now : ℕ) (node : String) (terminal session : String) where
  -- A row after its terminal and session were given up.
  abbrev IsBare : NodeRuntime → Type 0
  IsBare y =
      (y.terminal_id ≡ (if kt then terminal else ""))
      × (y.session_id ≡ (if ks then session else ""))

  abbrev IsWhole : NodeRuntime → Type 0
  IsWhole y = (y.terminal_id ≡ terminal) × (y.session_id ≡ session)

  abbrev bared : NodeRuntime → NodeRuntime
  bared r = record r {
    terminal_id = if not kt then "" else r.terminal_id;
    session_id = if not ks then "" else r.session_id;
    updated_at = now;
  }

  bared_lem : (x : NodeRuntime) → IsWhole x → IsBare (bared x)
  bared_lem x w = (ground (arith, w.0), ground (arith, w.1))

  bared-IsBare : (x : NodeRuntime) → IsBare x → IsBare (bared x)
  bared-IsBare x w = (ground (arith, w.0), ground (arith, w.1))

  clears_one :
      (at : String) (rows : List NodeRuntime) {x : NodeRuntime}
      → find (at_node id node) rows ≡ some x
      → find (at_node id node) (clear_node_runtime id at (not kt) (not ks) now rows)
        ≡ some (if at_node id at x then bared x else x)
  unfolding clear_node_runtime
  clears_one at rows h =
      find-update_where_key (at_node id node) (at_node id at) bared (λ r. refl) rows h

  clear_all-stays :
      (rts rows : List NodeRuntime) {x : NodeRuntime}
      → find (at_node id node) rows ≡ some x
      → IsBare x
      → (y : NodeRuntime) × (find (at_node id node) (clear_all id (not kt) (not ks) now rts rows)
          ≡ some y)
        × IsBare y
  unfolding clear_all
  clear_all-stays [] rows {x} h b = (x, h, b)
  clear_all-stays (rt ∷ rts) rows {x} h b = elim (Bool-cases (at_node id rt.node x)) [
    | inl e ↦ clear_all-stays rts _ (rw e at (clears_one rt.node rows h)) (bared-IsBare x b)
    | inr e ↦ clear_all-stays rts _ (rw e at (clears_one rt.node rows h)) b
  ]

  clear_all-clears :
      (rts rows : List NodeRuntime) {x z : NodeRuntime}
      → find (at_node id node) rows ≡ some x
      → find (λ r. r.node == node) rts ≡ some z
      → IsWhole x
      → (y : NodeRuntime) × (find (at_node id node) (clear_all id (not kt) (not ks) now rts rows)
          ≡ some y)
        × IsBare y
  unfolding clear_all find
  clear_all-clears [] rows h m w = cc
  clear_all-clears (rt ∷ rts) rows {x} h m w = elim (Bool-cases (at_node id rt.node x)) [
    | inl e ↦ clear_all-stays rts _ (rw e at (clears_one rt.node rows h)) (bared_lem x w)
    | inr e ↦
        clear_all-clears rts _ (rw e at (clears_one rt.node rows h))
          (later id node x rt rts (find_test (at_node id node) rows h) e m) w
  ]

-- The row of a node is among the rows of its run.
find-select :
    (id node : String) (rows : List NodeRuntime) {x : NodeRuntime}
    → find (at_node id node) rows ≡ some x
    → find (λ r. r.node == node) (select (λ r. r.run_id == id) rows) ≡ some x
unfolding find select
find-select id node [] h = h
find-select id node (r ∷ rows) h = elim (Bool-cases (r.run_id == id)) [
  | inl e ↦ elim (Bool-cases (r.node == node)) [
    | inl q ↦ rw (e, q, find) (rw (e, q) at h)
    | inr q ↦ rw (e, q, find) (find-select id node rows (rw (e, q) at h))
  ]
  | inr e ↦ rw e (find-select id node rows (rw e at h))
]

pub clear_all-GivesUp :
    (p : RuntimePolicy) (r : Run) (now : ℕ) (rows : List NodeRuntime)
    → GivesUp p r rows (
        clear_all r.id
          (not p.keep_terminals_alive)
          (not p.keep_sessions_alive)
          now
          (list_node_runtimes r.id rows)
          rows)
unfolding list_node_runtimes
clear_all-GivesUp p r now rows node x h =
    let (y, found, bare) =
      clear_all-clears r.id p.keep_terminals_alive p.keep_sessions_alive now node x.terminal_id
        x.session_id (select (λ y. y.run_id == r.id) rows) rows h (find-select r.id node rows h)
        (refl, refl) in
    (y, found, bare.0, bare.1)
