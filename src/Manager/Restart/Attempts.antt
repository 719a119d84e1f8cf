-- ===== src/Manager/Restart/Attempts.antt =====
-- The attempt that `RestartByTicket` of internal/run/manager.go starts.
use relay_flow.Prelude.{
  ℕ, ◌+◌, ◌≤◌, ◌<◌, String, true, false, not, Option, none, some, List, [], ◌∷◌, Memᴰ, All, Result,
  ok, err, first_step, first_guard, elem, ◌&&◌, eqb, leb, Bool-cases, ◌≡◌, ◌⊎◌, inl, inr, refl, sym,
  subst, arith,
}
use relay_flow.Run.{State, canceling, canceled, Start, Run}
use relay_flow.Run.States.{active_state, same_state}
use relay_flow.Workflow.{Workflow}
use relay_flow.Workflow.Health.{is_routable}
use relay_flow.Repo.{PortError}
use relay_flow.Manager.{RunManager, RunQueries}
use relay_flow.Manager.Restart.{
  RestartError, Conflict, conflict, max_attempt, attempt_of, next_attempt, Decision, keeps, starts,
  or_missing, or_failed, logical_of, fresh_attempt, decide_restart, plan_restart,
}

-- An attempt number that is in range and above those of all the runs.
pub record IsNext (n : ℕ) (cs : List Run) (k : ℕ) : Type 0 where
  pub from : n ≤ k
  pub above : All (λ c. attempt_of c < k) cs
  pub tight : (k ≡ n) ⊎ ((c : Run) × Memᴰ c cs × (k ≡ attempt_of c + 1))
  pub in_range : n ≤ max_attempt → k ≤ max_attempt

leb-yes : (a b : ℕ) → leb a b ≡ true → a ≤ b
leb-yes a b h = ground arith

leb-no : (a b : ℕ) → leb a b ≡ false → b < a
leb-no a b h = ground arith

below_max : (a m : ℕ) → a ≤ m → eqb a m ≡ false → a + 1 ≤ m
below_max a m h k = ground arith

taken :
    (n a k : ℕ) (c : Run) (cs : List Run)
    → attempt_of c ≡ a
    → n ≤ a
    → a + 1 ≤ max_attempt
    → IsNext (a + 1) cs k
    → IsNext n (c ∷ cs) k
taken n a k c cs same le top i = record {
  from = omega (arith, i.from, le);
  above = (rw same (omega (arith, i.from)), i.above);
  tight = inr (elim i.tight [
    | inl e ↦ (c, Memᴰ.head refl, rw same e)
    | inr (d, m, e) ↦ (d, Memᴰ.tail m, e)
  ]);
  in_range = λ r. i.in_range top;
}

passed :
    (n a k : ℕ) (c : Run) (cs : List Run)
    → attempt_of c ≡ a
    → a < n
    → IsNext n cs k
    → IsNext n (c ∷ cs) k
passed n a k c cs same lt i = record {
  from = i.from;
  above = (rw same (omega (arith, i.from, lt)), i.above);
  tight = elim i.tight [ inl e ↦ inl e | inr (d, m, e) ↦ inr (d, Memᴰ.tail m, e) ];
  in_range = i.in_range;
}

next_attempt-IsNext :
    (n : ℕ) (cs : List Run) {k : ℕ}
    → All (λ c. attempt_of c ≤ max_attempt) cs
    → next_attempt n cs ≡ ok k
    → IsNext n cs k
unfolding next_attempt
next_attempt-IsNext n [] {k} b h =
    let e : n ≡ k = cc in
    record {
      from = omega (arith, e);
      above = tt;
      tight = inl (sym e);
      in_range = λ r. omega (arith, e, r);
    }
next_attempt-IsNext n (c ∷ cs) {k} b h = elim (Bool-cases (leb n (attempt_of c))) [
  | inl e ↦ elim (Bool-cases (eqb (attempt_of c) max_attempt)) [
    | inl f ↦ absurd (ground arith)
    | inr f ↦
        let i = next_attempt-IsNext (attempt_of c + 1) cs {k = k} b.1 (ground arith) in
        taken n (attempt_of c) k c cs refl (leb-yes n (attempt_of c) e)
          (below_max (attempt_of c) max_attempt b.0 f) i
  ]
  | inr e ↦
      let i = next_attempt-IsNext n cs {k = k} b.1 (ground arith) in
      passed n (attempt_of c) k c cs refl (leb-no n (attempt_of c) e) i
]

or_missing-ok :
    {A : Type 0} (e : RestartError) (o : Option A) {a : A} → or_missing e o ≡ ok a → o ≡ some a
or_missing-ok e none h = cc
or_missing-ok e (some a) h = cc

or_failed-ok :
    {A : Type 0} (f : PortError → RestartError) (r : Result PortError A) {a : A}
    → or_failed f r ≡ ok a
    → r ≡ ok a
or_failed-ok f (ok a) h = cc
or_failed-ok f (err e) h = cc

same_state-canceled : (s : State) → same_state s canceled ≡ true → s ≡ canceled
same_state-canceled s h = ground arith

module _ (m : RunManager) (q : RunQueries) (previous : Run) (ticket : String) where
  pub record Fresh (s : Start) : Type 0 where
    pub attempts : List Run
    pub lists : q.list_runs previous.repo previous.workflow ticket ≡ ok attempts
    pub next : All (λ c. attempt_of c ≤ max_attempt) attempts → IsNext 1 attempts s.attempt_id
    pub identity :
        (s.logical_id ≡ logical_of m previous)
        × (s.id ≡ m.new_attempt_run_id s.logical_id s.attempt_id)
    pub stored :
        (get : String → Option Workflow) × (m.workflows ≡ some get)
        × (get previous.workflow ≡ some s.workflow)
    pub routable : is_routable (some s.workflow) ≡ true
    pub targeted : elem previous.repo s.workflow.repos ≡ true

  starts-eq :
      {s t : Start} → ◌≡◌ {A = Result RestartError Decision} (ok (starts t)) (ok (starts s)) → t ≡ s
  starts-eq {s} {t} h = cc

  fresh_attempt-Fresh : (s : Start) → fresh_attempt m q previous ticket ≡ ok (starts s) → Fresh s
  unfolding fresh_attempt
  fresh_attempt-Fresh s h =
      let (h1, port) = first_guard _ _ _ h in
      let (repos, h2, er) = first_step (or_missing RestartError.no_dependencies m.repos) _ h1 in
      let (get, h3, ew) = first_step (or_missing RestartError.no_dependencies m.workflows) _ h2 in
      let (r, h4, e4) =
        first_step (or_missing (conflict Conflict.repo_gone) (repos previous.repo)) _ h3 in
      let (w, h5, e5) =
        first_step (or_missing (conflict Conflict.workflow_gone) (get previous.workflow)) _ h4 in
      let (h6, routable) = first_guard (is_routable (some w)) _ _ h5 in
      let (h7, targeted) = first_guard (elem previous.repo w.repos) _ _ h6 in
      let (listed, h8, e8) =
        first_step
          (or_failed RestartError.list_failed (q.list_runs previous.repo previous.workflow ticket))
          _ h7 in
      let (k, h9, e9) = first_step (next_attempt 1 listed) _ h8 in
      subst Fresh (starts-eq h9) (record {
        attempts = listed;
        lists = or_failed-ok RestartError.list_failed _ e8;
        next = λ b. next_attempt-IsNext 1 listed b e9;
        identity = (refl, refl);
        stored = (
          get,
          or_missing-ok RestartError.no_dependencies m.workflows ew,
          or_missing-ok (conflict Conflict.workflow_gone) (get previous.workflow) e5,
        );
        routable = routable;
        targeted = targeted;
      })

  decide_restart-Fresh :
      (s : Start)
      → decide_restart m q previous ticket ≡ ok (starts s)
      → (previous.state ≡ canceled) × Fresh s
  unfolding decide_restart
  decide_restart-Fresh s h =
      elim (Bool-cases (active_state previous.state && not (eqb previous.attempt_id 0))) [
        | inl e ↦ absurd (kept (rw (e, decide_restart) at h))
        | inr e ↦
            let (h1, a) =
              first_guard (not (same_state previous.state canceling))
                (conflict Conflict.still_canceling) _ (rw (e, decide_restart) at h) in
            let (h2, b) =
              first_guard (same_state previous.state canceled)
                (conflict (Conflict.not_canceled previous.state))
                (fresh_attempt m q previous ticket) h1 in
            (same_state-canceled previous.state b, fresh_attempt-Fresh s h2)
      ]
    where
      kept : ◌≡◌ {A = Result RestartError Decision} (ok (keeps previous)) (ok (starts s)) → ⊥
      kept k = cc

-- What stands behind the new attempt of a restart.
pub record Restarts (m : RunManager) (ticket : String) (s : Start) : Type 0 where
  pub queries : RunQueries
  pub has_queries : m.runs ≡ some queries
  pub previous : Run
  pub found : queries.find_run_by_ticket ticket ≡ ok previous
  pub was_canceled : previous.state ≡ canceled
  pub fresh : Fresh m queries previous ticket s

-- A restart starts a new attempt only of a ticket whose run, as the queries find it, is canceled,
-- with the workflow as it is stored now, which is routable and still targets the repo. The number is above
-- those of all the ticket's attempts, is one more than one of them or 1, and is in the range of
-- `uint64`, where theirs are; its identity is made of it.
pub plan_restart-Restarts :
    (m : RunManager) (ticket : String) (s : Start)
    → plan_restart m ticket ≡ ok (starts s)
    → Restarts m ticket s
unfolding plan_restart
plan_restart-Restarts m ticket s h =
    let (q, h1, eq) = first_step (or_missing RestartError.no_queries m.runs) _ h in
    let (previous, h2, ep) =
      first_step (or_failed RestartError.find_failed (q.find_run_by_ticket ticket)) _ h1 in
    let (was, fresh) = decide_restart-Fresh m q previous ticket s h2 in
    record {
      queries = q;
      has_queries = or_missing-ok RestartError.no_queries m.runs eq;
      previous = previous;
      found = or_failed-ok RestartError.find_failed (q.find_run_by_ticket ticket) ep;
      was_canceled = was;
      fresh = fresh;
    }
