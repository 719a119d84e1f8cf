-- ===== src/Engine/Cancel/Decides.antt =====
-- What `CancelRun` of internal/execution/goworkflows/engine.go brings about.
use relay_flow.Prelude.{
  String, true, false, none, some, ok, err, if◌then◌else◌, ◌≡◌, ◌⊎◌, inl, inr, refl, sym, subst,
}
use relay_flow.Run.{State, canceling, Run}
use relay_flow.Run.States.{terminal_state}
use relay_flow.Projection.Runs.{get, begin_cancellation}
use relay_flow.Engine.{Outside, World, run_not_found}
use relay_flow.Engine.Cancel.{Done, reconcile_cancellation, cancel_row, cancel_run}
use relay_flow.Engine.Cancel.Rows.{get_id, Begun, begin_row, begin-none}
use relay_flow.Engine.Cancel.Outcomes.{Decided, Fails, Reconciles}
use relay_flow.Engine.Cancel.Reconcile.{gate, reconcile_cancellation-Reconciles}

-- How a cancellation ends for a run that had a row; `q` is the run as the first write leaves it.
abbrev pub Cancels : {S : Type 0} → Outside S → String → Run → World S → Done S → Type 0
Cancels o reason r w (ok _, w') =
    ((terminal_state r.state ≡ true)
      × ((r' : Run) × (get r.id w'.db.runs ≡ some r') × (r'.state ≡ r.state))
      × (w'.outside ≡ w.outside)
      × (w'.db.runtimes ≡ w.db.runtimes))
    ⊎ ((q : Run) × (r' : Run) × Begun reason r q
        × (get r.id w'.db.runs ≡ some r')
        × Decided o q.last_error q w r' w'.db.runtimes w'.outside)
Cancels o reason r w (err e, w') =
    (terminal_state r.state ≡ false)
    × ((r' : Run) × (get r.id w'.db.runs ≡ some r') × (r'.state ≡ canceling))
    × ((q : Run) × Begun reason r q × Fails o q.last_error q w e)

module _ {S : Type 0} (o : Outside S) (reason : String) (r q : Run) (begun : Begun reason r q) where
  reconciled-Cancels :
      (w : World S) (d : Done S) → Reconciles o q.last_error q w d → Cancels o reason r w d
  reconciled-Cancels w (ok u, w') h = inr (q, h.0, begun, rw (← begun.id) h.1, h.2)
  reconciled-Cancels w (err e, w') h =
      (begun.unfinished, (h.0.0, rw (← begun.id) h.0.1, h.0.2), (q, begun, h.1))

  begun-Cancels :
      (w : World S)
      → get r.id w.db.runs ≡ some q
      → Cancels o reason r w (cancel_row o r.id (some q) w)
  begun-Cancels w h = subst (Cancels o reason r w) (sym (gate q.state _ _ _ begun.canceling_now)) (
      reconciled-Cancels w (reconcile_cancellation o q q.last_error w) (
        reconcile_cancellation-Reconciles o q q.last_error begun.canceling_now w
          (subst (λ k. get k w.db.runs ≡ some q) (sym begun.id) h)))

finished-Cancels :
    {S : Type 0} (o : Outside S) (reason : String) (r q : Run) (w : World S)
    → terminal_state r.state ≡ true
    → q.state ≡ r.state
    → get r.id w.db.runs ≡ some q
    → Cancels o reason r w (cancel_row o r.id (some q) w)
finished-Cancels o reason r q w final same h =
    subst (Cancels o reason r w)
      (sym (ended _ _ q.state (subst (λ x. terminal_state x ≡ true) (sym same) final)))
      (inl (final, (q, h, same), refl, refl))
  where
    ended :
        {X : Type 0} (a b : X) (s : State)
        → terminal_state s ≡ true
        → (if terminal_state s then a else b) ≡ a
    ended a b s e = rw e refl

-- Whatever the workflow library and the adapters answer, and with nothing between the calls. For a
-- run that is completed or canceled, `CancelRun` leaves its state and does nothing outside. For any
-- other it reports no error in three cases, each about the library as it is at the call or after it
-- has refused the call's own request as not found. The run is canceled: the library had no execution
-- of it, or a finished one whose history has a cancellation before any finish; from there on the
-- terminals of its nodes were closed in order, unless the policy keeps them, and after that the
-- comment with the first reason was posted, with nothing else done; and the rows of its nodes have no
-- terminal and no session that the policy does not keep. The run is completed, at the time of the
-- first finish: the library had a finished execution whose first finish came before any cancellation.
-- Or the run is canceling, and its running execution had a request before or the library has accepted
-- one now. With an error the run is canceling, and the error has its cause in this call: a call of
-- the library or of an adapter that failed with it, a history without a verdict, a missing repo, or an
-- execution that was gone and runs again. A run without a row is reported as not found.
pub cancel_run-Cancels :
    {S : Type 0} (o : Outside S) (id reason : String) (w : World S)
    → ((r : Run) → get id w.db.runs ≡ some r → Cancels o reason r w (cancel_run o id reason w))
      × (get id w.db.runs ≡ none → (cancel_run o id reason w).0 ≡ err (run_not_found id))
unfolding cancel_run
cancel_run-Cancels {S} o id reason w = (
  λ r h.
      let (q, found, begins) = begin_row reason w.now id w.db.runs h in
      let w' : World S = record w {
        db = record w.db { runs = begin_cancellation id reason w.now w.db.runs };
      } in
      let name = get_id id w.db.runs h in
      let here : get r.id w'.db.runs ≡ some q =
        subst (λ k. get k w'.db.runs ≡ some q) (sym name) found in
      rw found (
        subst (λ k. Cancels o reason r w' (cancel_row o k (some q) w')) name
          (elim begins [
            | inl f ↦ finished-Cancels o reason r q w' f.0 f.1 here
            | inr b ↦ begun-Cancels o reason r q b w' here
          ])),
  λ h. rw (begin-none id reason w.now w.db.runs h) refl,
)
