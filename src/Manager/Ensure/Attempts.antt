-- ===== src/Manager/Ensure/Attempts.antt =====
-- What stands behind the attempts that `EnsureRun` of internal/run/manager.go starts, past its checks
-- of the repo and the workflow.
use relay_flow.Prelude.{
  String, Bool, true, false, Option, none, some, List, [], Memᴰ, All, All-mem, ok, guard, ne-==,
  if◌then◌else◌, Bool-cases, ◌≡◌, ◌≢◌, ◌⊎◌, inl, inr, refl, subst, arith,
}
use relay_flow.Run.{Start, Run}
use relay_flow.Workflow.{Workflow}
use relay_flow.Repo.{Ticket, ref, OwnershipCapabilities, TaskSystem, Repo}
use relay_flow.Manager.{RunManager}
use relay_flow.Manager.Ensure.{
  claim_owner_mismatch, ownership_failed, claim_failed, marker_failed, validates, claims,
  checks_marker, ensures, settle, ask, normalized, is_current, scan_candidates, is_finished,
  binding_accepts, is_claimed, check_claim, candidates, ensure, start_for, cancellation_marker,
  first_attempt, ensure_attempt, ensure_for,
}
use relay_flow.Manager.Ensure.Bindings.{IsAccepted, binding_accepts-IsAccepted}
use relay_flow.Manager.Ensure.Calls.{
  continued-calls, after_settle, continued-result, relabel-ok, after_ask, ensure-calls,
}
use relay_flow.Manager.Ensure.Candidates.{
  Among, scan-active, scan-no_active, scan-latest, scan-no_latest,
}

-- What holds of a start that takes up an attempt, and of one that makes the first.
module _ (m : RunManager) (ts : TaskSystem) (c : OwnershipCapabilities) (r : Repo) (w : Workflow)
    (t : Ticket) where
  abbrev pub logical : String
  logical = m.new_run_id r.name w.name t.key

  pub record Reuses (s : Start) : Type 0 where
    pub listed : List Run
    pub lists : candidates m r w t ≡ ok listed
    pub attempt : Run
    pub among : Among logical listed attempt
    pub current : is_current attempt ≡ true
    pub starts : s ≡ start_for r w t attempt.id attempt.logical_id attempt.attempt_id

  pub record Creates (s : Start) : Type 0 where
    pub listed : List Run
    pub lists : candidates m r w t ≡ ok listed
    pub none_current : All (λ x. is_current (normalized logical x) ≡ false) listed
    pub nothing_listed : All (λ (x : Run). x.id ≢ "") listed → listed ≡ []
    pub allowed :
        ((is_claimed w.name t ≡ true)
          × (ts.has_comment (ref t) (cancellation_marker logical) ≡ ok false))
        ⊎ ((is_claimed w.name t ≡ false) × (c.claim_if_owned (ref t) w.name w.task_config ≡ ok tt))
    pub starts : s ≡ start_for r w t logical logical 1

  abbrev pub Owned : Type 0
  Owned =
      is_claimed w.name t ≡ true
      → IsAccepted w.name t r.bindings × (c.validate_ownership (ref t) w.name w.task_config ≡ ok tt)

  first_attempt-calls :
      (s : Start)
      → Memᴰ (ensures s) (first_attempt m ts c r w t).calls
      → (s ≡ start_for r w t logical logical 1)
        × (((is_claimed w.name t ≡ true)
              × (ts.has_comment (ref t) (cancellation_marker logical) ≡ ok false))
            ⊎ ((is_claimed w.name t ≡ false)
                × (c.claim_if_owned (ref t) w.name w.task_config ≡ ok tt)))
  unfolding first_attempt
  first_attempt-calls s h = elim (Bool-cases (is_claimed w.name t)) [
    | inl e ↦
        let (b, p, q) =
          after_ask s (checks_marker (ref t) (cancellation_marker logical)) marker_failed
            (ts.has_comment (ref t) (cancellation_marker logical)) _ refl
            (rw (e, first_attempt) at h) in
        marked b e p q
    | inr e ↦
        let (b, p, q) =
          after_ask s (claims (ref t) w.name) claim_failed
            (c.claim_if_owned (ref t) w.name w.task_config) _ refl (rw (e, first_attempt) at h) in
        (ensure-calls m s _ q, inr (e, p))
  ]
    where
      marked :
          (b : Bool)
          → is_claimed w.name t ≡ true
          → ts.has_comment (ref t) (cancellation_marker logical) ≡ ok b
          → Memᴰ
              (ensures s)
              (if b then settle (ok tt) else ensure m (start_for r w t logical logical 1)).calls
          → (s ≡ start_for r w t logical logical 1)
            × (((is_claimed w.name t ≡ true)
                  × (ts.has_comment (ref t) (cancellation_marker logical) ≡ ok false))
                ⊎ ((is_claimed w.name t ≡ false)
                    × (c.claim_if_owned (ref t) w.name w.task_config ≡ ok tt)))
      marked true e p q = elim q [ ]
      marked false e p q = (ensure-calls m s _ q, inl (e, p))

  -- The newest of attempts none of which is current is finished.
  newest_finished : (x : Run) → is_current x ≡ false → x.id ≢ "" → is_finished (some x) ≡ true
  newest_finished x h n = ground (arith, ne-== n)

  nothing_listed_of :
      (cs : List Run) (l : Option Run)
      → (scan_candidates logical cs none none).0 ≡ l
      → All (λ x. is_current (normalized logical x) ≡ false) cs
      → is_finished l ≡ false
      → All (λ (x : Run). x.id ≢ "") cs
      → cs ≡ []
  nothing_listed_of cs none e k f n = (scan-no_latest logical cs none none e).1
  nothing_listed_of cs (some x) e k f n = elim (scan-latest logical cs none none e) [
    | inl p ↦ absurd (cc p)
    | inr (d, q, same) ↦
        let idle =
          subst (λ y. is_current y ≡ false) same
            (All-mem (λ y. is_current (normalized logical y) ≡ false) k q) in
        let named = subst (λ (y : Run). y.id ≢ "") same (All-mem (λ (y : Run). y.id ≢ "") n q) in
        absurd (cc (newest_finished x idle named, f))
  ]

  attempt-calls :
      (s : Start) (cs : List Run) (l a : Option Run)
      → candidates m r w t ≡ ok cs
      → (scan_candidates logical cs none none).0 ≡ l
      → (scan_candidates logical cs none none).1 ≡ a
      → Memᴰ (ensures s) (ensure_attempt m ts c r w t (l, a)).calls
      → Reuses s ⊎ Creates s
  unfolding ensure_attempt
  attempt-calls s cs l (some a) e p q h = elim (scan-active logical cs none none q) [
    | inl n ↦ absurd (cc n)
    | inr (among, k) ↦ inl (record {
      listed = cs;
      lists = e;
      attempt = a;
      among = among;
      current = k;
      starts = ensure-calls m s _ h;
    })
  ]
  attempt-calls s cs l none e p q h = elim (Bool-cases (is_finished l)) [
    | inl f ↦ elim (rw f at h) [ ]
    | inr f ↦
        let (start, ask) = first_attempt-calls s (rw f at h) in
        let idle = (scan-no_active logical cs none none q).1 in
        inr (record {
          listed = cs;
          lists = e;
          none_current = idle;
          nothing_listed = nothing_listed_of cs l p idle f;
          allowed = ask;
          starts = start;
        })
  ]

  check_claim-calls : (s : Start) → ¬ Memᴰ (ensures s) (check_claim c r w t).calls
  unfolding check_claim
  check_claim-calls s h = elim (Bool-cases (is_claimed w.name t)) [
    | inl e ↦
        let (u, g, q) =
          after_settle (ensures s)
            (guard (binding_accepts w.name t r.bindings) (claim_owner_mismatch t.key))
            (λ x.
              ask (validates (ref t) w.name) ownership_failed
                (c.validate_ownership (ref t) w.name w.task_config))
            (rw (e, check_claim) at h) in
        elim q [ Memᴰ.head d ↦ absurd (other d) | Memᴰ.tail d ↦ elim d [ ] ]
    | inr e ↦ elim (rw (e, check_claim) at h) [ ]
  ]
    where
      other : ensures s ≡ validates (ref t) w.name → ⊥
      other d = cc

  check_claim-ok : {u : Unit {0}} → (check_claim c r w t).result ≡ ok u → Owned
  unfolding check_claim
  check_claim-ok {u} h k =
      let (x, g, q) =
        continued-result []
          (guard (binding_accepts w.name t r.bindings) (claim_owner_mismatch t.key))
          (λ y.
            ask (validates (ref t) w.name) ownership_failed
              (c.validate_ownership (ref t) w.name w.task_config))
          (rw (k, check_claim) at h) in
      (
        binding_accepts-IsAccepted w.name t r.bindings (ground arith),
        relabel-ok ownership_failed (c.validate_ownership (ref t) w.name w.task_config) q,
      )

  -- Whatever `EnsureRun` asks the executor to start, past the checks of the repo and the workflow.
  pub ensure_for-calls :
      (s : Start)
      → Memᴰ (ensures s) (ensure_for m ts c r w t).calls
      → Owned × (Reuses s ⊎ Creates s)
  unfolding ensure_for
  ensure_for-calls s h =
      elim (continued-calls (ensures s) (check_claim c r w t).calls (check_claim c r w t).result _
        h) [
          | inl p ↦ absurd (check_claim-calls s p)
          | inr (u, e, q) ↦
              let (cs, lists, k) = after_settle (ensures s) (candidates m r w t) _ q in
              (check_claim-ok e, attempt-calls s cs _ _ lists refl refl k)
        ]
