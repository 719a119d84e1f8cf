-- ===== src/Engine/Cancel/Outcomes.antt =====
-- What a cancellation in internal/execution/goworkflows/engine.go can come to: the states of the
-- library it went by, from the state `s` at the call on, and what it leaves.
use relay_flow.Prelude.{
  Result, All, Memᴰ, ℕ, String, true, false, none, some, List, [], ◌∷◌, ok, err, ◌+++◌, ◌==◌, ◌≡◌,
  ◌⊎◌, if◌then◌else◌,
}
use relay_flow.Run.{canceling, canceled, completed, Run, RuntimePolicy}
use relay_flow.Projection.Table.{find, select}
use relay_flow.Projection.Runs.{get}
use relay_flow.Projection.Runtimes.{NodeRuntime, at_node}
use relay_flow.Engine.{
  Fault, Instance, Event, terminated, Outside, World, not_found, cancellation_marker, EngineError,
  history_failed, was_terminated, no_terminal_event, reappeared, not_registered, close_failed,
  comment_failed, cancel_failed,
}
use relay_flow.Engine.Instances.{lookup_instance}
use relay_flow.Engine.Cancel.{Done, reason_text, marker_id}
use relay_flow.Engine.Cancel.History.{IsOther, CanceledFirst, FinishedFirst}

-- The row of every node of the run has no terminal and no session, where the policy keeps none, and
-- the one it had where the policy keeps it.
abbrev pub GivesUp : RuntimePolicy → Run → List NodeRuntime → List NodeRuntime → Type 0
GivesUp p r rows rows' =
    (node : String) (x : NodeRuntime)
    → find (at_node r.id node) rows ≡ some x
    → (y : NodeRuntime) × (find (at_node r.id node) rows' ≡ some y)
      × (y.terminal_id ≡ (if p.keep_terminals_alive then x.terminal_id else ""))
      × (y.session_id ≡ (if p.keep_sessions_alive then x.session_id else ""))

module _ {S : Type 0} (o : Outside S) where
  -- The terminals of the rows are closed, one after the other, with their titles.
  pub data Closes (key : String) : List NodeRuntime → S → S → Type 0 where
    all_closed : {s : S} → Closes key [] s s
    without :
        {x : NodeRuntime} {rows : List NodeRuntime} {s t : S}
        → (x.terminal_id == "") ≡ true
        → Closes key rows s t
        → Closes key (x ∷ rows) s t
    closing :
        {x : NodeRuntime} {rows : List NodeRuntime} {s u t : S}
        → (x.terminal_id == "") ≡ false
        → o.close_terminal x.terminal_id (key +++ ":" +++ x.node) s ≡ (ok tt, u)
        → Closes key rows u t
        → Closes key (x ∷ rows) s t

  -- The closing of a terminal fails, after those of the rows before it.
  pub data Breaks (key : String) (f : Fault) : List NodeRuntime → S → Type 0 where
    breaking :
        {x : NodeRuntime} {rows : List NodeRuntime} {s t : S}
        → (x.terminal_id == "") ≡ false
        → o.close_terminal x.terminal_id (key +++ ":" +++ x.node) s ≡ (err f, t)
        → Breaks key f (x ∷ rows) s
    breaks_without :
        {x : NodeRuntime} {rows : List NodeRuntime} {s : S}
        → (x.terminal_id == "") ≡ true
        → Breaks key f rows s
        → Breaks key f (x ∷ rows) s
    breaks_after :
        {x : NodeRuntime} {rows : List NodeRuntime} {s u : S}
        → (x.terminal_id == "") ≡ false
        → o.close_terminal x.terminal_id (key +++ ":" +++ x.node) s ≡ (ok tt, u)
        → Breaks key f rows u
        → Breaks key f (x ∷ rows) s

  -- The state at the call, or the one after the library has refused the request for a running
  -- execution as not found.
  abbrev pub IsAt : Run → S → S → Type 0
  IsAt r s u =
      (u ≡ s)
      ⊎ ((i : Instance) × (lookup_instance r.id (o.instances s) ≡ some i)
          × (i.active ≡ true)
          × (o.cancel_pending i s ≡ ok false)
          × (o.cancel_instance i s ≡ (err not_found, u)))

  -- The library has no execution of the run, or a finished one that was canceled first.
  abbrev pub HasEnded : Run → S → Type 0
  HasEnded r u =
      (lookup_instance r.id (o.instances u) ≡ none)
      ⊎ ((i : Instance) × (es : List Event) × (lookup_instance r.id (o.instances u) ≡ some i)
          × (i.active ≡ false)
          × (o.history i u ≡ ok es)
          × CanceledFirst es)

  -- The terminals of the run were closed, unless they are kept.
  abbrev pub Quits : RuntimePolicy → Run → List NodeRuntime → S → S → Type 0
  Quits p r rows u t =
      ((p.keep_terminals_alive ≡ true) × (t ≡ u))
      ⊎ ((p.keep_terminals_alive ≡ false)
          × Closes r.ticket.key (select (λ x. x.run_id == r.id) rows) u t)

  -- From the state `u` on the terminals of the run were closed, unless they are kept, and after that
  -- the comment was posted, which led to `s'`.
  abbrev pub IsCleaned : RuntimePolicy → String → Run → List NodeRuntime → S → S → Type 0
  IsCleaned p reason r rows u s' =
      (t : S) × Quits p r rows u t
      × (o.comment r.repo r.ticket.key ("Run canceled: " +++ reason_text o reason)
            (cancellation_marker (marker_id o r)) t
          ≡ (ok tt, s'))

  -- A finished execution whose first finish came before any cancellation.
  abbrev pub HasFinished : Run → ℕ → S → Type 0
  HasFinished r t u =
      (i : Instance) × (es : List Event) × (lookup_instance r.id (o.instances u) ≡ some i)
      × (i.active ≡ false)
      × (o.history i u ≡ ok es)
      × FinishedFirst t es

  -- A running execution that has a request for its cancellation, from before or from now.
  abbrev pub IsRequested : Run → S → S → Type 0
  IsRequested r s s' =
      (i : Instance) × (lookup_instance r.id (o.instances s) ≡ some i)
      × (i.active ≡ true)
      × (((o.cancel_pending i s ≡ ok true) × (s' ≡ s))
          ⊎ ((o.cancel_pending i s ≡ ok false) × (o.cancel_instance i s ≡ (ok tt, s'))))

  -- What a cancellation without an error makes of the row, of the rows of the nodes and of the
  -- library, from the world `w` on.
  abbrev pub Decided : String → Run → World S → Run → List NodeRuntime → S → Type 0
  Decided reason r w r' rows' s' =
      ((r'.state ≡ canceled)
        × ((u : S) × IsAt r w.outside u
            × HasEnded r u
            × IsCleaned w.runtime reason r w.db.runtimes u s')
        × GivesUp w.runtime r w.db.runtimes rows')
      ⊎ ((t : ℕ) × (r'.state ≡ completed)
          × (r'.finished_at ≡ some t)
          × IsAt r w.outside s'
          × HasFinished r t s'
          × (rows' ≡ w.db.runtimes))
      ⊎ ((r'.state ≡ canceling) × IsRequested r w.outside s' × (rows' ≡ w.db.runtimes))

  -- The library had no execution of the run at the call, or it reported the running one as not found.
  abbrev pub IsGone : Run → S → S → Type 0
  IsGone r s u =
      ((lookup_instance r.id (o.instances s) ≡ none) × (u ≡ s))
      ⊎ ((i : Instance) × (lookup_instance r.id (o.instances s) ≡ some i)
          × (i.active ≡ true)
          × (((o.cancel_pending i s ≡ err not_found) × (u ≡ s))
              ⊎ ((o.cancel_pending i s ≡ ok false) × (o.cancel_instance i s ≡ (err not_found, u)))))

  -- The finished execution of the run has the history.
  abbrev pub HasHistory : Run → S → Result Fault (List Event) → Type 0
  HasHistory r u h =
      (i : Instance) × (lookup_instance r.id (o.instances u) ≡ some i)
      × (i.active ≡ false)
      × (o.history i u ≡ h)

  -- Why a cancellation ends with an error.
  abbrev FailsAt : String → Run → World S → S → EngineError → Type 0
  FailsAt reason r w u (history_failed f) = HasHistory r u (err f)
  FailsAt reason r w u (was_terminated _) =
      (es : List Event) × HasHistory r u (ok es) × Memᴰ terminated es
  FailsAt reason r w u (no_terminal_event _) =
      (es : List Event) × HasHistory r u (ok es) × All IsOther es
  FailsAt reason r w u (reappeared _) =
      IsGone r w.outside u
      × ((j : Instance) × (lookup_instance r.id (o.instances u) ≡ some j) × (j.active ≡ true))
  FailsAt reason r w u (not_registered _) = HasEnded r u × (o.repo_path r.repo ≡ none)
  FailsAt reason r w u (close_failed f) =
      HasEnded r u
      × (w.runtime.keep_terminals_alive ≡ false)
      × Breaks r.ticket.key f (select (λ x. x.run_id == r.id) w.db.runtimes) u
  FailsAt reason r w u (comment_failed f) =
      HasEnded r u
      × ((t : S) × (s' : S) × Quits w.runtime r w.db.runtimes u t
          × (o.comment r.repo r.ticket.key ("Run canceled: " +++ reason_text o reason)
                (cancellation_marker (marker_id o r)) t
              ≡ (err f, s')))
  FailsAt reason r w u _ = ⊥

  abbrev pub Fails : String → Run → World S → EngineError → Type 0
  Fails reason r w (cancel_failed f) =
      (i : Instance) × (lookup_instance r.id (o.instances w.outside) ≡ some i)
      × (i.active ≡ true)
      × ((o.cancel_pending i w.outside ≡ err f)
          ⊎ ((o.cancel_pending i w.outside ≡ ok false)
              × ((s' : S) × (o.cancel_instance i w.outside ≡ (err f, s')))))
  Fails reason r w e = (u : S) × IsAt r w.outside u × FailsAt reason r w u e

  abbrev pub Reconciles : String → Run → World S → Done S → Type 0
  Reconciles reason r w (ok _, w') =
      (r' : Run) × (get r.id w'.db.runs ≡ some r') × Decided reason r w r' w'.db.runtimes w'.outside
  Reconciles reason r w (err e, w') =
      ((r' : Run) × (get r.id w'.db.runs ≡ some r') × (r'.state ≡ canceling)) × Fails reason r w e
