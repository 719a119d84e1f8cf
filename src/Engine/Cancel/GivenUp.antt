-- ===== src/Engine/Cancel/GivenUp.antt =====
-- What `FinalizeNodeRuntimes` of internal/execution/goworkflows/activities.go asks the adapters for.
use relay_flow.Prelude.{
  either_way, String, true, false, not, List, [], ◌∷◌, Result, ok, err, Bool-cases, ◌==◌, ◌+++◌,
  ◌≡◌, inl, inr, refl,
}
use relay_flow.Run.{Run, RuntimePolicy}
use relay_flow.Projection.Table.{select}
use relay_flow.Projection.Runtimes.{NodeRuntime}
use relay_flow.Engine.{World, Outside, Fault, outside_result, close_failed}
use relay_flow.Engine.Cancel.{
  Done, proceed, follow, close_terminals, finalize_node_runtimes, list_node_runtimes, clear_all,
}
use relay_flow.Engine.Cancel.Outcomes.{
  Breaks, breaking, breaks_without, breaks_after, Closes, all_closed, without, closing, GivesUp,
  Quits,
}
use relay_flow.Engine.Cancel.Cleared.{clear_all-GivesUp}

module _ {S : Type 0} (o : Outside S) where
  abbrev AreClosed : String → List NodeRuntime → World S → Done S → Type 0
  AreClosed key rts w (ok _, w') = Closes o key rts w.outside w'.outside × (w'.db ≡ w.db)
  AreClosed key rts w (err e, w') =
      (f : Fault) × (e ≡ close_failed f) × Breaks o key f rts w.outside

  module _ (key : String) (rt : NodeRuntime) (rts : List NodeRuntime) (w : World S) where
    AreClosed-without :
        (d : Done S)
        → (rt.terminal_id == "") ≡ true
        → AreClosed key rts w d
        → AreClosed key (rt ∷ rts) w d
    AreClosed-without (ok u, w') e c = (without e c.0, c.1)
    AreClosed-without (err u, w') e (f, same, b) = (f, same, breaks_without e b)

    AreClosed-closing :
        (s : S) (d : Done S)
        → (rt.terminal_id == "") ≡ false
        → o.close_terminal rt.terminal_id (key +++ ":" +++ rt.node) w.outside ≡ (ok tt, s)
        → AreClosed key rts (record w { outside = s }) d
        → AreClosed key (rt ∷ rts) w d
    AreClosed-closing s (ok u, w') e a c = (closing e a c.0, c.1)
    AreClosed-closing s (err u, w') e a (f, same, b) = (f, same, breaks_after e a b)

  close_terminals-AreClosed :
      (key : String) (rts : List NodeRuntime) (w : World S)
      → AreClosed key rts w (close_terminals o key rts w)
  unfolding close_terminals
  close_terminals-AreClosed key [] w = (all_closed, refl)
  close_terminals-AreClosed key (rt ∷ rts) w = elim (Bool-cases (rt.terminal_id == "")) [
    | inl e ↦
        rw (e, close_terminals)
          (AreClosed-without key rt rts w _ e (close_terminals-AreClosed key rts w))
    | inr e ↦
        rw (e, close_terminals)
          (one e (λ s. close_terminals-AreClosed key rts (record w { outside = s }))
            (o.close_terminal rt.terminal_id (key +++ ":" +++ rt.node) w.outside) refl)
  ]
    where
      one :
          (rt.terminal_id == "") ≡ false
          → ((s : S)
              → AreClosed key rts
                  (record w { outside = s })
                  (close_terminals o key rts (record w { outside = s })))
          → (m : Result Fault (Unit {0}) × S)
          → o.close_terminal rt.terminal_id (key +++ ":" +++ rt.node) w.outside ≡ m
          → AreClosed key
              (rt ∷ rts)
              w
              (proceed close_failed (outside_result w m) (close_terminals o key rts))
      one e rest (ok u, s) a = AreClosed-closing key rt rts w s _ e a (rest s)
      one e rest (err f, s) a = (f, refl, breaking e a)

  -- What `FinalizeNodeRuntimes` brings about, and what its error is.
  abbrev pub Finalizes : RuntimePolicy → Run → World S → Done S → Type 0
  Finalizes p r w (ok _, w') =
      Quits o p r w.db.runtimes w.outside w'.outside × GivesUp p r w.db.runtimes w'.db.runtimes
  Finalizes p r w (err e, w') =
      (f : Fault) × (e ≡ close_failed f)
      × (p.keep_terminals_alive ≡ false)
      × Breaks o r.ticket.key f (select (λ x. x.run_id == r.id) w.db.runtimes) w.outside

  module _ (p : RuntimePolicy) (r : Run) (w : World S) where
    abbrev cleared : World S → World S
    cleared w' = record w' {
      db = record w'.db {
        runtimes =
            clear_all r.id (not p.keep_terminals_alive) (not p.keep_sessions_alive) w'.now
              (list_node_runtimes r.id w.db.runtimes) w'.db.runtimes;
      };
    }

    Quits-Finalizes :
        (w' : World S)
        → Quits o p r w.db.runtimes w.outside w'.outside
        → w'.db ≡ w.db
        → Finalizes p r w (ok tt, cleared w')
    Quits-Finalizes w' q e = (q, rw e (clear_all-GivesUp p r w'.now w.db.runtimes))

    closed-Finalizes :
        (d : Done S)
        → p.keep_terminals_alive ≡ false
        → AreClosed r.ticket.key (list_node_runtimes r.id w.db.runtimes) w d
        → Finalizes p r w (follow d (λ w'. (ok tt, cleared w')))
    unfolding list_node_runtimes
    closed-Finalizes (ok u, w') e c = Quits-Finalizes w' (inr (e, c.0)) c.1
    closed-Finalizes (err u, w') e (f, same, b) = (f, same, e, b)

    pub finalize_node_runtimes-Finalizes : Finalizes p r w (finalize_node_runtimes o r p w)
    unfolding finalize_node_runtimes
    finalize_node_runtimes-Finalizes =
        either_way (λ d. Finalizes p r w (follow d (λ w'. (ok tt, cleared w'))))
          p.keep_terminals_alive _ _ (λ e. Quits-Finalizes w (inl (e, refl)) refl)
          (λ e.
            closed-Finalizes _ e
              (close_terminals-AreClosed r.ticket.key (list_node_runtimes r.id w.db.runtimes) w))
