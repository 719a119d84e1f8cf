-- ===== src/Workflow/Validate/Nodes.antt =====
-- The checks that `Validate` of internal/workflow/workflow.go makes of a single node, against
-- what they are for.
use relay_flow.Prelude.{
  true, false, not, List, [], ◌∷◌, ok, guard, guard_iff, each_iff, not_==_iff, is_empty, length,
  ◌==◌, ==-eq, ==-ne, ne-==, eq_iff, ◌&&◌, ◌||◌, eqb, ◌≡◌, ◌≢◌, ◌↔◌, ◌⊎◌, inl, inr, refl, arith,
  Bool-cases,
}
use relay_flow.Workflow.{Node, Route, node_agent, node_hitl, end_node}
use relay_flow.Workflow.Name.{codes}
use relay_flow.Workflow.Nudge.{Segment, literal, variable, segments, known_nudge_var}
use relay_flow.Workflow.Nudge.Laws.{IsKnown, known_nudge_var_iff}
use relay_flow.Workflow.Validate.{
  NodeError, failure_to_end, unknown_variable, has_auto_reject, has_work_fields, validate_start,
  validate_end, check_segment, validate_work_node,
}
use relay_flow.Workflow.Validate.Spec.{IsReserved, IsStart, IsEnd, IsWorkNode}

is_empty_iff {ℓ} : {A : Type ℓ} (xs : List A) → (is_empty xs ≡ true) ↔ (xs ≡ [])
is_empty_iff [] = (λ h. refl, λ h. refl)
is_empty_iff (x ∷ xs) = (λ h. cc, λ h. cc)

pub not-is_empty_iff {ℓ} : {A : Type ℓ} (xs : List A) → (not (is_empty xs) ≡ true) ↔ (xs ≢ [])
not-is_empty_iff [] = (λ h. cc, λ h. absurd (h refl))
not-is_empty_iff (x ∷ xs) = (λ h e. cc, λ h. refl)

IsReserved-iff :
    (n : Node)
    → ((not (has_auto_reject n) ≡ true) × (not (has_work_fields n) ≡ true)) ↔ IsReserved n
IsReserved-iff n = (
  λ h. record {
    no_auto_reject = (ground arith, ground arith);
    no_work = ground (
      arith,
      eq_iff n.type "",
      eq_iff n.agent "",
      eq_iff n.description "",
      eq_iff n.nudge_prompt "",
    );
  },
  λ h. ground (
    arith,
    h.no_auto_reject,
    h.no_work,
    eq_iff n.type "",
    eq_iff n.agent "",
    eq_iff n.description "",
    eq_iff n.nudge_prompt "",
  ),
)

one_elem {ℓ} : {A : Type ℓ} (xs : List A) → (eqb (length xs) 1 ≡ true) ↔ ((x : A) × (xs ≡ x ∷ []))
one_elem [] = (λ h. absurd (ground arith), λ h. absurd (ground arith))
one_elem (x ∷ []) = (λ h. (x, refl), λ h. refl)
one_elem (x ∷ y ∷ xs) = (λ h. absurd (ground arith), λ h. absurd (ground arith))

pub validate_start_iff : (n : Node) → (validate_start n ≡ ok tt) ↔ IsStart n
unfolding validate_start
validate_start_iff n = (
  λ h. record {
    reserved = (IsReserved-iff n).0 (ground arith, ground arith);
    one_target = (one_elem n.on_success).0 (ground arith);
    no_failure = (is_empty_iff n.on_failure).0 (ground arith);
  },
  λ h.
      let (a, f) = (IsReserved-iff n).1 h.reserved in
      let o = (one_elem n.on_success).1 h.one_target in
      let e = (is_empty_iff n.on_failure).1 h.no_failure in rw (a, f, e, o),
)

pub validate_end_iff : (n : Node) → (validate_end n ≡ ok tt) ↔ IsEnd n
unfolding validate_end
validate_end_iff n = (
  λ h. record {
    reserved = (IsReserved-iff n).0 (ground arith, ground arith);
    no_routes = (
      (is_empty_iff n.on_success).0 (ground arith),
      (is_empty_iff n.on_failure).0 (ground arith),
    );
  },
  λ h.
      let (a, f) = (IsReserved-iff n).1 h.reserved in
      let o = (is_empty_iff n.on_success).1 h.no_routes.0 in
      let e = (is_empty_iff n.on_failure).1 h.no_routes.1 in rw (a, f, e, o),
)

typed_iff :
    (n : Node)
    → ((n.type == node_agent || n.type == node_hitl) ≡ true)
      ↔ ((n.type ≡ node_agent) ⊎ (n.type ≡ node_hitl))
typed_iff n = (
  λ h. elim (Bool-cases (n.type == node_agent)) [
    | inl e ↦ inl (==-eq e)
    | inr e ↦ inr (==-eq (ground arith))
  ],
  λ h. ground (arith, eq_iff n.type node_agent, eq_iff n.type node_hitl),
)

auto_reject_iff :
    (n : Node)
    → (not (not (n.type == node_hitl) && has_auto_reject n) ≡ true)
      ↔ (n.type ≢ node_hitl → (n.auto_reject ≡ false) × (n.auto_reject_set ≡ false))
auto_reject_iff n = (
  λ h ne. let e = ne-== ne in (ground arith, ground arith),
  λ h. elim (Bool-cases (n.type == node_hitl)) [
    | inl e ↦ ground arith
    | inr e ↦ let f = h (==-ne e) in ground arith
  ],
)

segment_iff : (g : Segment) → (check_segment g ≡ ok tt) ↔ IsKnown g
segment_iff (literal c) = (λ h. tt, λ h. refl)
segment_iff (variable v) = (
  λ h. (known_nudge_var_iff v).0 ((guard_iff (known_nudge_var v) (unknown_variable v)).0 h),
  λ h. (guard_iff (known_nudge_var v) (unknown_variable v)).1 ((known_nudge_var_iff v).1 h),
)

pub validate_work_node_iff : (n : Node) → (validate_work_node n ≡ ok tt) ↔ IsWorkNode n
unfolding validate_work_node
validate_work_node_iff n =
    let failed_end =
      λ (r : Route). guard {E = NodeError} (not (r.target == end_node)) failure_to_end in
    let failures = each_iff failed_end n.on_failure in
    let prompts = each_iff check_segment (segments (codes n.nudge_prompt)) in
    (
      λ h. record {
        typed = (typed_iff n).0 (ground arith);
        auto_reject_hitl = (auto_reject_iff n).0 (ground arith);
        has_agent = (not_==_iff n.agent "").0 (ground arith);
        has_description = (not_==_iff n.description "").0 (ground arith);
        succeeds = (not-is_empty_iff n.on_success).0 (ground arith);
        fails = (not-is_empty_iff n.on_failure).0 (ground arith);
        no_failed_end = λ r m. (not_==_iff r.target end_node).0 (
            (guard_iff (not (r.target == end_node)) failure_to_end).0
              (failures.0 (ground arith) r m));
        known_variables = λ g m. (segment_iff g).0 (prompts.0 (ground arith) g m);
      },
      λ h.
          let a = (typed_iff n).1 h.typed in
          let b = (auto_reject_iff n).1 h.auto_reject_hitl in
          let c = (not_==_iff n.agent "").1 h.has_agent in
          let d = (not_==_iff n.description "").1 h.has_description in
          let e = (not-is_empty_iff n.on_success).1 h.succeeds in
          let f = (not-is_empty_iff n.on_failure).1 h.fails in
          let g = failures.1 (λ r m.
            (guard_iff (not (r.target == end_node)) failure_to_end).1
              ((not_==_iff r.target end_node).1 (h.no_failed_end r m))) in
          let k = prompts.1 (λ s m. (segment_iff s).1 (h.known_variables s m)) in
          rw (a, b, c, d, e, f, g, k),
    )
