-- ===== src/Engine/Cancel/Terminals.antt =====
-- `FinalizeNodeRuntimes` of internal/execution/goworkflows/activities.go.
use relay_flow.Prelude.{
  String, Bool, true, false, List, [], ◌∷◌, Result, ok, err, Bool-cases, ◌==◌, ◌+++◌, if◌then◌else◌,
  ◌≡◌, inl, inr, refl,
}
use relay_flow.Run.{Run, RuntimePolicy}
use relay_flow.Projection.Runs.{RunRow}
use relay_flow.Projection.Runtimes.{NodeRuntime}
use relay_flow.Engine.{World, Outside, close_failed, EngineError, outside_result, Fault}
use relay_flow.Engine.Cancel.{
  Done, proceed, follow, close_terminals, finalize_node_runtimes, list_node_runtimes,
}

-- Giving up terminals and sessions leaves the rows of runs alone.
module _ {S : Type 0} (o : Outside S) where
  proceed-runs :
      (f : Fault → EngineError) (rs : List RunRow) (m : Result Fault (Unit {0}) × World S)
      (k : World S → Done S)
      → m.1.db.runs ≡ rs
      → ((w : World S) → w.db.runs ≡ rs → (k w).1.db.runs ≡ rs)
      → (proceed f m k).1.db.runs ≡ rs
  proceed-runs f rs (ok u, w) k h next = next w h
  proceed-runs f rs (err e, w) k h next = h

  close_terminals-runs :
      (key : String) (rts : List NodeRuntime) (w : World S) (rs : List RunRow)
      → w.db.runs ≡ rs
      → (close_terminals o key rts w).1.db.runs ≡ rs
  unfolding close_terminals
  close_terminals-runs key [] w rs h = h
  close_terminals-runs key (rt ∷ rts) w rs h = elim (Bool-cases (rt.terminal_id == "")) [
    | inl e ↦ rw (e, close_terminals) (close_terminals-runs key rts w rs h)
    | inr e ↦
        rw (e, close_terminals)
          (proceed-runs close_failed rs
            (outside_result w (o.close_terminal rt.terminal_id (key +++ ":" +++ rt.node) w.outside))
            (close_terminals o key rts) h (λ x k. close_terminals-runs key rts x rs k))
  ]

  follow-runs :
      (rs : List RunRow) (m : Done S) (k : World S → Done S)
      → m.1.db.runs ≡ rs
      → ((w : World S) → w.db.runs ≡ rs → (k w).1.db.runs ≡ rs)
      → (follow m k).1.db.runs ≡ rs
  follow-runs rs (ok u, w) k h next = next w h
  follow-runs rs (err e, w) k h next = h

  closes-runs :
      (keep : Bool) (key : String) (rts : List NodeRuntime) (w : World S)
      → (if keep then (ok tt, w) else close_terminals o key rts w).1.db.runs ≡ w.db.runs
  closes-runs true key rts w = refl
  closes-runs false key rts w = close_terminals-runs key rts w w.db.runs refl

  pub finalize_node_runtimes-runs :
      (r : Run) (policy : RuntimePolicy) (w : World S)
      → (finalize_node_runtimes o r policy w).1.db.runs ≡ w.db.runs
  unfolding finalize_node_runtimes
  finalize_node_runtimes-runs r policy w =
      follow-runs w.db.runs _ _
        (closes-runs policy.keep_terminals_alive r.ticket.key
          (list_node_runtimes r.id w.db.runtimes) w)
        (λ x h. h)
