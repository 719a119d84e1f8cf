-- ===== src/Manager/Ensure/Starts.antt =====
-- What `EnsureRun` of internal/run/manager.go may ask the executor to start.
use relay_flow.Prelude.{
  String, Option, none, Bool, true, false, some, Memᴰ, ok, guard, first_step, ◌>>◌, Option-cases,
  ◌≡◌, ◌∙◌, ◌⊎◌, inl, inr, refl, ap, subst,
}
use relay_flow.Run.{Start}
use relay_flow.Workflow.{Workflow}
use relay_flow.Workflow.Health.{is_routable}
use relay_flow.Repo.{Ticket, OwnershipCapabilities, TaskSystem, Repo}
use relay_flow.Manager.{RunManager}
use relay_flow.Manager.Ensure.{
  EnsureError, not_stored, required, ensures, current_workflow, targets_repo, checked_workflow,
  ensure_for, ensure_with, ensure_in, ensure_run,
}
use relay_flow.Manager.Ensure.Calls.{after_settle}
use relay_flow.Manager.Ensure.Attempts.{Owned, Reuses, Creates, ensure_for-calls}

both_guards :
    {A : Type 0} (p q : Bool) (d e : EnsureError) (x : A) {y : A}
    → guard p d >> (guard q e >> ok x) ≡ ok y
    → (p ≡ true) × (q ≡ true) × (x ≡ y)
both_guards true true d e x h = (refl, refl, cc)
both_guards true false d e x h = cc
both_guards false q d e x h = cc

-- The definition of a workflow that the registry holds now, or the one at hand without a registry.
abbrev IsStored : RunManager → Workflow → Workflow → Type 0
IsStored m w current =
    ((m.workflows ≡ none) × (current ≡ w))
    ⊎ ((get : String → Option Workflow) × (m.workflows ≡ some get) × (get w.name ≡ some current))

current_workflow-IsStored :
    (m : RunManager) (w : Workflow) {current : Workflow}
    → current_workflow m w ≡ ok current
    → IsStored m w current
current_workflow-IsStored m w {current} h = elim (Option-cases m.workflows) [
  | inl n ↦ inl (n, cc (rw n at h))
  | inr (get, e) ↦ inr (get, e, found (get w.name) (not_stored w.name) (rw e at h))
]
  where
    found :
        {current : Workflow} (x : Option Workflow) (e : EnsureError)
        → required e x ≡ ok current
        → x ≡ some current
    found none e k = cc
    found (some v) e k = cc

checked_workflow-ok :
    (m : RunManager) (r : Repo) (w : Workflow) {current : Workflow}
    → checked_workflow m r w ≡ ok current
    → (current_workflow m w ≡ ok current)
      × (is_routable (some current) ≡ true)
      × (targets_repo m r.name current ≡ true)
unfolding checked_workflow
checked_workflow-ok m r w h =
    let (x, k, e) = first_step (current_workflow m w) _ h in
    let (a, b, same) = both_guards (is_routable (some x)) (targets_repo m r.name x) _ _ x k in
    (
      e ∙ ap ok same,
      subst (λ y. is_routable (some y) ≡ true) same a,
      subst (λ y. targets_repo m r.name y ≡ true) same b,
    )

-- What stands behind a start that `EnsureRun` asks for.
pub record Allowed (m : RunManager) (r : Repo) (w : Workflow) (t : Ticket) (s : Start)
    : Type 0 where
  pub system : TaskSystem
  pub has_system : r.task_system ≡ some system
  pub port : OwnershipCapabilities
  pub has_port : system.capabilities ≡ some port
  pub stored : Workflow
  pub is_stored : IsStored m w stored
  pub routable : is_routable (some stored) ≡ true
  pub targeted : targets_repo m r.name stored ≡ true
  pub owned : Owned m system port r stored t
  pub how : Reuses m system port r stored t s ⊎ Creates m system port r stored t s

-- Whenever `EnsureRun` asks the executor to start an attempt: the repo's task system has the
-- ownership capabilities; the workflow is the one stored now, is routable and targets the repo; if
-- the ticket is claimed for it, its owner was accepted by the published matcher and by the adapter;
-- and the start either takes up a listed attempt that is active, under that attempt's identity, or
-- is the first attempt, where no listed attempt is active (and none is listed at all, unless one is
-- listed without an identity) and the ticket carried the claim but no cancellation marker, or has
-- just been claimed.
pub ensure_run-Allowed :
    (m : RunManager) (r : Repo) (w : Workflow) (t : Ticket) (s : Start)
    → Memᴰ (ensures s) (ensure_run m (some r) (some w) t).calls
    → Allowed m r w t s
unfolding ensure_run
ensure_run-Allowed m r w t s h = elim (Option-cases r.task_system) [
  | inl e ↦ elim (subst (λ o. Memᴰ (ensures s) (ensure_in m r (some w) t o).calls) e h) [ ]
  | inr (ts, e) ↦
      let h1 = subst (λ o. Memᴰ (ensures s) (ensure_in m r (some w) t o).calls) e h in
      elim (Option-cases ts.capabilities) [
        | inl k ↦ elim (subst (λ o. Memᴰ (ensures s) (ensure_with m r w t ts o).calls) k h1) [ ]
        | inr (c, k) ↦
            let h2 = subst (λ o. Memᴰ (ensures s) (ensure_with m r w t ts o).calls) k h1 in
            let (current, q, i) =
              after_settle (ensures s) (checked_workflow m r w) (λ x. ensure_for m ts c r x t) h2 in
            let (stored, routable, targeted) = checked_workflow-ok m r w q in
            let (owned, how) = ensure_for-calls m ts c r current t s i in
            record {
              system = ts;
              has_system = e;
              port = c;
              has_port = k;
              stored = current;
              is_stored = current_workflow-IsStored m w stored;
              routable = routable;
              targeted = targeted;
              owned = owned;
              how = how;
            }
      ]
]
