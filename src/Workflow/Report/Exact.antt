-- ===== src/Workflow/Report/Exact.antt =====
-- `ValidateReport` of internal/workflow/report.go accepts the reports that follow a configured
-- route, and no others.
use relay_flow.Prelude.{
  String, true, some, List, Memᴰ, Result, ok, guard, each, guard_iff, >>_iff, ◌>>=◌, ◌>>◌, elem-mem,
  mem-elem, lookup, ◌==◌, ==-eq, ==-ne, ne-==, eq_iff, Bool-cases, Option-cases, ◌≡◌, ◌≢◌, ◌↔◌, inl,
  inr, refl, subst, arith,
}
use relay_flow.Workflow.{
  Node, Route, Workflow, routes, targets, outcome_success, outcome_failure, end_node,
}
use relay_flow.Workflow.Report.{
  Report, ReportError, no_such_node, bad_status, Feedback, none_text, sections, check_section,
  is_known, is_outcome, is_blank_feedback, query, check_next, validate_report,
}
use relay_flow.Workflow.Report.Filled.{IsFilled, sections_iff}

-- The routes of a node for an outcome.
pub data RoutesFor (n : Node) : String → List Route → Type 0 where
  on_success : {s : String} → s ≡ outcome_success → RoutesFor n s n.on_success
  on_failure : {s : String} → s ≡ outcome_failure → RoutesFor n s n.on_failure

abbrev IsBlank : Feedback → Type 0
IsBlank f =
    (f.reason_for_next_step ≡ none_text)
    × (f.required_actions ≡ none_text)
    × (f.relevant_context ≡ none_text)
    × (f.expected_result ≡ none_text)

pub record IsLegal (w : Workflow) (node : String) (r : Report) : Type 0 where
  pub at_node : Node
  pub found : lookup node w.nodes ≡ some at_node
  pub outcome_routes : List Route
  pub configured : RoutesFor at_node r.status outcome_routes
  pub follows : Memᴰ r.next_step (targets outcome_routes)
  pub filled : IsFilled r
  pub end_succeeds : r.next_step ≡ end_node → r.status ≡ outcome_success
  pub end_blank : r.next_step ≡ end_node → IsBlank r.feedback

routes_for :
    (w : Workflow) (node : String) {n : Node} (s : String)
    → lookup node w.nodes ≡ some n
    → is_outcome s ≡ true
    → (rs : List Route) × (query (routes w node s) ≡ ok rs) × RoutesFor n s rs
unfolding routes
routes_for w node {n} s e h = elim (Bool-cases (s == outcome_success)) [
  | inl p ↦ (n.on_success, ground arith, RoutesFor.on_success (==-eq p))
  | inr p ↦ (n.on_failure, ground arith, RoutesFor.on_failure (==-eq (ground arith)))
]

success_ne_failure : {s : String} → s ≡ outcome_success → s ≢ outcome_failure
success_ne_failure {s} a b = ground (arith, eq_iff outcome_success outcome_failure)

unique_routes :
    {n : Node} {s : String} {rs ts : List Route} → RoutesFor n s rs → RoutesFor n s ts → rs ≡ ts
unique_routes (RoutesFor.on_success a) (RoutesFor.on_success b) = refl
unique_routes (RoutesFor.on_success a) (RoutesFor.on_failure b) = absurd (success_ne_failure a b)
unique_routes (RoutesFor.on_failure a) (RoutesFor.on_success b) = absurd (success_ne_failure b a)
unique_routes (RoutesFor.on_failure a) (RoutesFor.on_failure b) = refl

outcome_of_routes :
    {n : Node} {s : String} {rs : List Route} → RoutesFor n s rs → is_outcome s ≡ true
outcome_of_routes {s} (RoutesFor.on_success a) = ground (arith, eq_iff s outcome_success)
outcome_of_routes {s} (RoutesFor.on_failure a) = ground (arith, eq_iff s outcome_failure)

IsBlank-iff : (f : Feedback) → (is_blank_feedback f ≡ true) ↔ IsBlank f
IsBlank-iff f = (
  λ h. (==-eq (ground arith), ==-eq (ground arith), ==-eq (ground arith), ==-eq (ground arith)),
  λ h. ground (
    arith,
    eq_iff f.reason_for_next_step none_text,
    eq_iff f.required_actions none_text,
    eq_iff f.relevant_context none_text,
    eq_iff f.expected_result none_text,
  ),
)

-- What `check_next` adds once the routes are known.
record IsNext (r : Report) (rs : List Route) : Type 0 where
  follows : Memᴰ r.next_step (targets rs)
  end_no_failure : r.next_step ≡ end_node → r.status ≢ outcome_failure
  end_blank : r.next_step ≡ end_node → IsBlank r.feedback

check_next_iff : (r : Report) (rs : List Route) → (check_next r rs ≡ ok tt) ↔ IsNext r rs
check_next_iff r rs = (
  λ h. record {
    follows = elem-mem r.next_step (targets rs) (ground arith);
    end_no_failure = λ t. ==-ne (ground (arith, eq_iff r.next_step end_node));
    end_blank = λ t. (IsBlank-iff r.feedback).0 (ground (arith, eq_iff r.next_step end_node));
  },
  λ h.
      let a = mem-elem h.follows in
      elim (Bool-cases (r.next_step == end_node)) [
        | inl e ↦
            let b = ne-== (h.end_no_failure (==-eq e)) in
            let c = (IsBlank-iff r.feedback).1 (h.end_blank (==-eq e)) in rw (a, b, c, e)
        | inr e ↦ ground arith
      ],
)

failure_of_not_success :
    {s : String} → is_outcome s ≡ true → s ≢ outcome_failure → s ≡ outcome_success
failure_of_not_success {s} o n = ==-eq (ground (arith, eq_iff s outcome_failure))

module _ (w : Workflow) (node : String) (r : Report) where
  last_checks : Result ReportError (Unit {0})
  last_checks = query (routes w node r.status) >>= check_next r

  -- The chain of checks, taken apart.
  chain_iff : (validate_report w node r ≡ ok tt) ↔ (
      (is_known (lookup node w.nodes) ≡ true)
      × (is_outcome r.status ≡ true)
      × (each check_section (sections r) ≡ ok tt)
      × (last_checks ≡ ok tt))
  unfolding validate_report last_checks
  chain_iff = (
    λ h.
        let (a, k) =
          (>>_iff (guard (is_known (lookup node w.nodes)) (no_such_node node)) (
              guard (is_outcome r.status) (bad_status r.status)
              >> (each check_section (sections r)
                  >> (query (routes w node r.status) >>= check_next r)))).0
            h in
        let (b, l) =
          (>>_iff (guard (is_outcome r.status) (bad_status r.status)) (
              each check_section (sections r)
              >> (query (routes w node r.status) >>= check_next r))).0
            k in
        let (c, d) =
          (>>_iff (each check_section (sections r))
              (query (routes w node r.status) >>= check_next r)).0
            l in
        ((guard_iff _ _).0 a, (guard_iff _ _).0 b, c, d),
    λ h. rw (h.0, h.1, h.2) h.3,
  )

  legal_last : IsLegal w node r → last_checks ≡ ok tt
  unfolding last_checks
  legal_last h =
      let (rs, q, f) = routes_for w node r.status h.found (outcome_of_routes h.configured) in
      let same = unique_routes h.configured f in
      rw q (
        (check_next_iff r rs).1 (record {
          follows = subst (λ k. Memᴰ r.next_step (targets k)) same h.follows;
          end_no_failure = λ t. success_ne_failure (h.end_succeeds t);
          end_blank = h.end_blank;
        }))

  last_next :
      {rs : List Route}
      → query (routes w node r.status) ≡ ok rs
      → last_checks ≡ ok tt
      → check_next r rs ≡ ok tt
  unfolding last_checks
  last_next q l = rw q at l

  -- `ValidateReport` accepts exactly the legal reports: the node exists, no section is empty, the
  -- next step is a configured target for the reported outcome, and a report that ends the run is a
  -- success whose feedback is "None" throughout.
  pub validate_report_iff : (validate_report w node r ≡ ok tt) ↔ IsLegal w node r
  validate_report_iff = (
    λ h. accepted (chain_iff.0 h),
    λ h. chain_iff.1 (
      rw (h.found, is_known),
      outcome_of_routes h.configured,
      (sections_iff r).1 h.filled,
      legal_last h,
    ),
  )
    where
      accepted :
          (is_known (lookup node w.nodes) ≡ true)
            × (is_outcome r.status ≡ true)
            × (each check_section (sections r) ≡ ok tt)
            × (last_checks ≡ ok tt)
          → IsLegal w node r
      accepted (k, o, s, l) = elim (Option-cases (lookup node w.nodes)) [
        | inl e ↦ absurd (ground arith)
        | inr (n, e) ↦
            let (rs, q, f) = routes_for w node r.status e o in
            let next = (check_next_iff r rs).0 (last_next q l) in
            record {
              at_node = n;
              found = e;
              outcome_routes = rs;
              configured = f;
              follows = next.follows;
              filled = (sections_iff r).0 s;
              end_succeeds = λ t. failure_of_not_success o (next.end_no_failure t);
              end_blank = next.end_blank;
            }
      ]
