-- ===== src/Service/Accepts.antt =====
-- The checks that `Submit` and `Remove` of internal/workflow/service.go make before they touch the store.
use relay_flow.Prelude.{
  String, Bool, true, false, not, Memᴰ, Result, ok, err, guard, each, each_iff, first_step,
  >>-eq-ok, guard_iff, Bool-cases, ◌≡◌, inl, inr, ap, subst, ◌∙◌,
}
use relay_flow.Workflow.{Workflow}
use relay_flow.Workflow.Validate.{validate}
use relay_flow.Service.{
  ServiceError, unregistered_repo, invalid, parse_failed, task_config_rejected, active_check_failed,
  has_active_runs, submission_rejected, Ports, State, labelled, optional, repo_exists, check_active,
  check_submission,
}

labelled-eq-ok :
    {E A : Type 0} (f : E → ServiceError) (r : Result E A) {a : A} → labelled f r ≡ ok a → r ≡ ok a
labelled-eq-ok f (ok a) h = cc
labelled-eq-ok f (err e) h = cc

-- A name that is free of active runs.
pub check_active-ok :
    (p : Ports) (name : String) → check_active p name ≡ ok tt → p.has_active name ≡ ok false
check_active-ok p name h =
    let (b, g, e) = first_step (labelled active_check_failed (p.has_active name)) _ h in
    labelled-eq-ok active_check_failed (p.has_active name) e ∙ ap ok (free b g)
  where
    free : (b : Bool) → guard (not b) (has_active_runs name) ≡ ok tt → b ≡ false
    free b g = elim (Bool-cases b) [ inl t ↦ cc (rw t at g) | inr f ↦ f ]

-- What a definition has passed when `Submit` goes on to store it.
pub record Passes (p : Ports) (st : State) (yaml : String) (w : Workflow) : Type 0 where
  pub parses : p.parse yaml ≡ ok w
  pub valid : validate w ≡ ok tt
  pub registered : (r : String) → Memᴰ r w.repos → repo_exists st.repos r ≡ true
  pub task_config : optional p.validate_task_config w ≡ ok tt
  pub no_runs : p.has_active w.name ≡ ok false
  pub submission : optional p.validate_submission w ≡ ok tt

pub check_submission-Passes :
    (p : Ports) (st : State) (yaml : String) {v : Workflow}
    → check_submission p st yaml ≡ ok v
    → Passes p st yaml v
unfolding check_submission
check_submission-Passes p st yaml {v} h =
    let (w, h1, e1) = first_step (labelled parse_failed (p.parse yaml)) _ h in
    let (e2, h2) = >>-eq-ok (labelled invalid (validate w)) _ h1 in
    let (e3, h3) =
      >>-eq-ok (each (λ r. guard (repo_exists st.repos r) (unregistered_repo w.name r)) w.repos) _
        h2 in
    let (e4, h4) =
      >>-eq-ok (labelled task_config_rejected (optional p.validate_task_config w)) _ h3 in
    let (e5, h5) = >>-eq-ok (check_active p w.name) _ h4 in
    let (e6, h6) =
      >>-eq-ok (labelled submission_rejected (optional p.validate_submission w)) _ h5 in
    let same : w ≡ v = cc in
    subst (Passes p st yaml) same (record {
      parses = labelled-eq-ok parse_failed (p.parse yaml) e1;
      valid = labelled-eq-ok invalid (validate w) e2;
      registered = λ r m.
          (guard_iff (repo_exists st.repos r) (unregistered_repo w.name r)).0
            ((each_iff _ w.repos).0 e3 r m);
      task_config = labelled-eq-ok task_config_rejected (optional p.validate_task_config w) e4;
      no_runs = check_active-ok p w.name e5;
      submission = labelled-eq-ok submission_rejected (optional p.validate_submission w) e6;
    })
