-- ===== src/Engine/Cancel/Reconcile.antt =====
-- `reconcileCancellation` of internal/execution/goworkflows/engine.go, at a run that is being canceled.
use relay_flow.Prelude.{
  either_way, String, Bool, true, false, not, Option, none, some, List, Result, ok, err,
  if◌then◌else◌, ◌≡◌, inl, inr, refl, sym, subst,
}
use relay_flow.Run.{State, canceling, completed, Run}
use relay_flow.Run.States.{terminal_state, same_state}
use relay_flow.Projection.Runs.{get}
use relay_flow.Engine.{
  Fault, not_found, already_exists, other, Instance, Event, Outside, World, outside_result,
}
use relay_flow.Engine.Instances.{lookup_instance}
use relay_flow.Engine.Cancel.{
  Verdict, broken, undecided, canceled_first, finished_at, read_events,
  finalize_cancellation_effects, decide, with_history, reconcile_finished, missing_still,
  missing_row, finalize_missing, request_unless, request_cancellation, requested, reconcile_found,
  reconcile_cancellation, conclude,
}
use relay_flow.Engine.Cancel.Rows.{conclude_lem}
use relay_flow.Engine.Cancel.History.{
  read_events-CanceledFirst, read_events-FinishedFirst, read_events_broken, read_events_undecided,
}
use relay_flow.Engine.Cancel.Outcomes.{HasEnded, IsGone, Reconciles}
use relay_flow.Engine.Cancel.Cleanup.{Stands, Concluded-Reconciles, in_repo-Reconciles}

-- The guard of the steps below, at a run that is being canceled.
pub gate :
    {X : Type 0} (s : State) (a b c : X)
    → s ≡ canceling
    → (if terminal_state s then a else if not (same_state s canceling) then b else c) ≡ c
gate s a b c h = rw h refl

module _ {S : Type 0} (o : Outside S) (r : Run) (reason : String) (canc : r.state ≡ canceling) where
  finalize_effects-Reconciles :
      (w0 w : World S)
      → Stands o r w0 w
      → get r.id w.db.runs ≡ some r
      → HasEnded o r w.outside
      → Reconciles o reason r w0 (finalize_cancellation_effects o r reason w)
  unfolding finalize_cancellation_effects
  finalize_effects-Reconciles w0 w stands here ended =
      subst (Reconciles o reason r w0) (sym (gate r.state _ _ _ canc))
        (in_repo-Reconciles o w0 r reason w (o.repo_path r.repo) refl stands (r, here, canc) ended)

  module _ (w0 w : World S) (stands : Stands o r w0 w) (here : get r.id w.db.runs ≡ some r) where
    decide-Reconciles :
        (i : Instance) (es : List Event) (v : Verdict)
        → lookup_instance r.id (o.instances w.outside) ≡ some i
        → i.active ≡ false
        → o.history i w.outside ≡ ok es
        → read_events false none es ≡ v
        → Reconciles o reason r w0 (decide o r reason v w)
    decide-Reconciles i es broken a b c d = (
      (r, here, canc),
      (w.outside, stands.0, (es, (i, a, b, c), read_events_broken false none es d)),
    )
    decide-Reconciles i es undecided a b c d =
        ((r, here, canc), (w.outside, stands.0, (es, (i, a, b, c), read_events_undecided es d)))
    decide-Reconciles i es canceled_first a b c d =
        finalize_effects-Reconciles w0 w stands here
          (inr (i, es, a, b, c, read_events-CanceledFirst es d))
    decide-Reconciles i es (finished_at t) a b c d =
        Concluded-Reconciles o w0 reason r completed t w (conclude r.id completed t w)
          (conclude_lem r.id completed refl t w here canc)
          (λ r' is at. inr (
            inl
              (t, is, at, stands.0, (i, es, a, b, c, read_events-FinishedFirst t es d), stands.1)))

    with_history-Reconciles :
        (i : Instance) (h : Result Fault (List Event))
        → lookup_instance r.id (o.instances w.outside) ≡ some i
        → i.active ≡ false
        → o.history i w.outside ≡ h
        → Reconciles o reason r w0 (with_history o r reason h w)
    with_history-Reconciles i (err e) a b c = ((r, here, canc), (w.outside, stands.0, (i, a, b, c)))
    with_history-Reconciles i (ok es) a b c = decide-Reconciles i es _ a b c refl

    reconcile_finished-Reconciles :
        (i : Instance)
        → lookup_instance r.id (o.instances w.outside) ≡ some i
        → i.active ≡ false
        → Reconciles o reason r w0 (reconcile_finished o r i reason w)
    unfolding reconcile_finished
    reconcile_finished-Reconciles i a b = with_history-Reconciles i (o.history i w.outside) a b refl

    missing_still-Reconciles :
        IsGone o r w0.outside w.outside
        → (i : Option Instance) → lookup_instance r.id (o.instances w.outside) ≡ i
        → Reconciles o reason r w0 (missing_still o r reason i w)
    missing_still-Reconciles gone none a = finalize_effects-Reconciles w0 w stands here (inl a)
    missing_still-Reconciles gone (some i) a =
        either_way (Reconciles o reason r w0) i.active _ _
          (λ e. ((r, here, canc), (w.outside, stands.0, (gone, (i, a, e)))))
          (λ e. reconcile_finished-Reconciles i a e)

    finalize_missing-Reconciles :
        IsGone o r w0.outside w.outside
        → Reconciles o reason r w0 (finalize_missing o r.id reason w)
    unfolding finalize_missing
    finalize_missing-Reconciles gone =
        subst (λ l. Reconciles o reason r w0 (missing_row o r.id reason l w)) (sym here)
          (subst (Reconciles o reason r w0) (sym (gate r.state _ _ _ canc))
            (missing_still-Reconciles gone (lookup_instance r.id (o.instances w.outside)) refl))

  module _ (w : World S) (here : get r.id w.db.runs ≡ some r) where
    requested-Reconciles :
        (i : Instance) (c : Result Fault Bool)
        → lookup_instance r.id (o.instances w.outside) ≡ some i
        → i.active ≡ true
        → o.cancel_pending i w.outside ≡ c
        → Reconciles o reason r w (requested o r reason (request_unless o i w c))
    requested-Reconciles i (ok true) a b c =
        (r, here, inr (inr (canc, (i, a, b, inl (c, refl)), refl)))
    requested-Reconciles i (ok false) a b c = sent (o.cancel_instance i w.outside) refl
      where
        sent :
            (m : Result Fault (Unit {0}) × S)
            → o.cancel_instance i w.outside ≡ m
            → Reconciles o reason r w (requested o r reason (outside_result w m))
        sent (ok u, s) e = (r, here, inr (inr (canc, (i, a, b, inr (c, e)), refl)))
        sent (err not_found, s) e =
            finalize_missing-Reconciles w (record w { outside = s })
              (inr (i, a, b, c, e), refl, refl) here (inr (i, a, b, inr (c, e)))
        sent (err already_exists, s) e = ((r, here, canc), (i, a, b, inr (c, (s, e))))
        sent (err (other t), s) e = ((r, here, canc), (i, a, b, inr (c, (s, e))))
    requested-Reconciles i (err not_found) a b c =
        finalize_missing-Reconciles w w (inl refl, refl, refl) here (inr (i, a, b, inl (c, refl)))
    requested-Reconciles i (err already_exists) a b c = ((r, here, canc), (i, a, b, inl c))
    requested-Reconciles i (err (other t)) a b c = ((r, here, canc), (i, a, b, inl c))

    reconcile_found-Reconciles :
        (i : Option Instance)
        → lookup_instance r.id (o.instances w.outside) ≡ i
        → Reconciles o reason r w (reconcile_found o r reason i w)
    unfolding request_cancellation
    reconcile_found-Reconciles none a =
        finalize_missing-Reconciles w w (inl refl, refl, refl) here (inl (a, refl))
    reconcile_found-Reconciles (some i) a =
        either_way (Reconciles o reason r w) i.active _ _
          (λ e. requested-Reconciles i (o.cancel_pending i w.outside) a e refl)
          (λ e. reconcile_finished-Reconciles w w (inl refl, refl, refl) here i a e)

    pub reconcile_cancellation-Reconciles :
        Reconciles o reason r w (reconcile_cancellation o r reason w)
    unfolding reconcile_cancellation
    reconcile_cancellation-Reconciles =
        reconcile_found-Reconciles (lookup_instance r.id (o.instances w.outside)) refl
