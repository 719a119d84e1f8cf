-- ===== src/Engine/Cancel/Cleanup.antt =====
-- `finalizeCancellationEffects` of internal/execution/goworkflows/engine.go, after its guards: the
-- cleanup of a run, and the update of its row.
use relay_flow.Prelude.{ℕ, String, Option, none, some, Result, ok, err, ◌+++◌, ◌≡◌, inl, refl}
use relay_flow.Run.{State, canceling, canceled, Run}
use relay_flow.Projection.Runs.{get}
use relay_flow.Engine.{Fault, Outside, World, outside_result, cancellation_marker, comment_failed}
use relay_flow.Engine.Cancel.{
  Done, proceed, follow, finalize_node_runtimes, reason_text, marker_id, in_repo, conclude,
}
use relay_flow.Engine.Cancel.Rows.{Concluded, conclude_lem}
use relay_flow.Engine.Cancel.Terminals.{finalize_node_runtimes-runs}
use relay_flow.Engine.Cancel.GivenUp.{Finalizes, finalize_node_runtimes-Finalizes}
use relay_flow.Engine.Cancel.Outcomes.{HasEnded, IsAt, Decided, Reconciles}

module _ {S : Type 0} (o : Outside S) where
  -- The row is there and being canceled.
  abbrev pub IsCanceling : Run → World S → Type 0
  IsCanceling r w = (r' : Run) × (get r.id w.db.runs ≡ some r') × (r'.state ≡ canceling)

  pub Concluded-Reconciles :
      (w0 : World S) (reason : String) (r : Run) (state : State) (t : ℕ) (w : World S) (d : Done S)
      → Concluded r.id state t w d
      → ((r' : Run)
          → r'.state ≡ state
          → r'.finished_at ≡ some t
          → Decided o reason r w0 r' w.db.runtimes w.outside)
      → Reconciles o reason r w0 d
  Concluded-Reconciles w0 reason r state t w (ok u, w') c f =
      (c.row, c.found, rw (c.outside, c.runtimes) (f c.row c.state_is c.finished))
  Concluded-Reconciles w0 reason r state t w (err e, w') c f = cc (c.succeeds)

  -- The world `w` is the one at the call, or the one after a request that was refused as not found.
  abbrev pub Stands : Run → World S → World S → Type 0
  Stands r w0 w =
      IsAt o r w0.outside w.outside × (w.db.runtimes ≡ w0.db.runtimes) × (w.runtime ≡ w0.runtime)

  module _ (w0 : World S) (r : Run) (reason : String) where
    commented-Reconciles :
        (w1 w : World S)
        → Stands r w0 w1
        → Finalizes o w1.runtime r w1 (ok tt, w)
        → IsCanceling r w
        → HasEnded o r w1.outside
        → (m : Result Fault (Unit {0}) × S)
        → o.comment r.repo r.ticket.key
            ("Run canceled: " +++ reason_text o reason)
            (cancellation_marker (marker_id o r))
            w.outside
          ≡ m
        → Reconciles o reason r w0 (
            proceed comment_failed (outside_result w m) (λ w''. conclude r.id canceled w''.now w''))
    commented-Reconciles w1 w (at, rows, policy) closed here ended (ok u, s) sent =
        let w2 : World S = record w { outside = s } in
        let (quits, gives) = rw (rows, policy) at closed in
        Concluded-Reconciles w0 reason r canceled w.now w2 (conclude r.id canceled w.now w2)
          (conclude_lem r.id canceled refl w.now w2 here.1 here.2)
          (λ r' is _. inl (is, (w1.outside, at, ended, (w.outside, quits, sent)), gives))
    commented-Reconciles w1 w (at, rows, policy) closed here ended (err e, s) sent =
        let (quits, gives) = rw (rows, policy) at closed in
        (here, (w1.outside, at, (ended, (w.outside, s, quits, sent))))

    effects-Reconciles :
        (w1 : World S) (d : Done S)
        → Stands r w0 w1
        → Finalizes o w1.runtime r w1 d
        → IsCanceling r d.1
        → HasEnded o r w1.outside
        → Reconciles o reason r w0 (
            follow d (λ w'.
              proceed comment_failed
                (outside_result w' (
                  o.comment r.repo r.ticket.key
                    ("Run canceled: " +++ reason_text o reason)
                    (cancellation_marker (marker_id o r))
                    w'.outside))
                (λ w''. conclude r.id canceled w''.now w'')))
    effects-Reconciles w1 (ok u, w) stands closed here ended =
        commented-Reconciles w1 w stands closed here ended _ refl
    effects-Reconciles w1 (err e, w) (at, rows, policy) closed here ended =
        let (f, same, given, breaks) = rw (rows, policy) at closed in
        rw same (here, (w1.outside, at, (ended, given, breaks)))

    pub in_repo-Reconciles :
        (w : World S) (path : Option String)
        → o.repo_path r.repo ≡ path
        → Stands r w0 w
        → IsCanceling r w
        → HasEnded o r w.outside
        → Reconciles o reason r w0 (in_repo o r reason path w)
    in_repo-Reconciles w none p stands here ended = (here, (w.outside, stands.0, (ended, p)))
    in_repo-Reconciles w (some path) p stands here ended =
        let kept = finalize_node_runtimes-runs o r w.runtime w in
        effects-Reconciles w (finalize_node_runtimes o r w.runtime w) stands
          (finalize_node_runtimes-Finalizes o w.runtime r w) (here.0, rw kept here.1, here.2) ended
