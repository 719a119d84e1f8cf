-- ===== src/Workflow/Accepted.antt =====
-- What the interpreter may rely on once `Validate` of internal/workflow/workflow.go has accepted a
-- workflow: routing by `ValidateReport` and `StartTarget` stays inside it, and prompts render.
use relay_flow.Prelude.{
  ℕ, String, some, List, [], ◌∷◌, Memᴰ, All, ok, lookup, lookup-mem, mem-append_left,
  mem-append_right, ◌≡◌, ◌≢◌, refl, sym, subst,
}
use relay_flow.Workflow.{
  Node, Route, Workflow, all_routes, targets, start_target, start_node, end_node,
}
use relay_flow.Workflow.Name.{codes}
use relay_flow.Workflow.Nudge.{Segment, NudgeTemplateData, segments, render_segments, render_nudge}
use relay_flow.Workflow.Nudge.Laws.{IsKnown}
use relay_flow.Workflow.Nudge.Renders.{Renders, render_segments-Renders}
use relay_flow.Workflow.Report.{Report, validate_report}
use relay_flow.Workflow.Report.Exact.{RoutesFor, validate_report_iff}
use relay_flow.Workflow.Validate.{validate}
use relay_flow.Workflow.Validate.Exact.{validate_iff}

-- A step leads to a node of the workflow, and not back to `start`.
abbrev pub LeadsInto : Workflow → String → Type 0
LeadsInto w target = (target ≢ start_node) × ((m : Node) × (lookup target w.nodes ≡ some m))

route_of_target :
    (rs : List Route) (t : String) → Memᴰ t (targets rs) → (r : Route) × Memᴰ r rs × (r.target ≡ t)
route_of_target [] t m = elim m [ ]
route_of_target (r ∷ rs) t (Memᴰ.head p) = (r, Memᴰ.head refl, sym p)
route_of_target (r ∷ rs) t (Memᴰ.tail m) =
    let (q, k, e) = route_of_target rs t m in (q, Memᴰ.tail k, e)

outcome_routes-mem :
    {n : Node} {s : String} {rs : List Route} {r : Route}
    → RoutesFor n s rs
    → Memᴰ r rs
    → Memᴰ r (all_routes n)
outcome_routes-mem {n} (RoutesFor.on_success a) m = mem-append_left n.on_failure m
outcome_routes-mem {n} (RoutesFor.on_failure a) m = mem-append_right n.on_success m

-- In a workflow that `Validate` accepts, a report that `ValidateReport` accepts names as its next
-- step a node of the workflow other than `start`.
pub accepted_report-LeadsInto :
    (w : Workflow) (node : String) (r : Report)
    → validate w ≡ ok tt
    → validate_report w node r ≡ ok tt
    → LeadsInto w r.next_step
accepted_report-LeadsInto w node r h k =
    let valid = (validate_iff w).0 h in
    let legal = (validate_report_iff w node r).0 k in
    let (route, m, e) = route_of_target legal.outcome_routes r.next_step legal.follows in
    subst (LeadsInto w) e (
      valid.routed node legal.at_node route (lookup-mem node w.nodes legal.found)
        (outcome_routes-mem legal.configured m))

start_target_one :
    (w : Workflow) {n : Node} {r : Route}
    → lookup start_node w.nodes ≡ some n
    → n.on_success ≡ r ∷ []
    → start_target w ≡ ok r.target
unfolding start_target
start_target_one w e one = rw (e, start_target) (rw one refl)

-- In a workflow that `Validate` accepts, `StartTarget` returns a node other than `start`.
pub start_target-LeadsInto :
    (w : Workflow) → validate w ≡ ok tt → (t : String) × (start_target w ≡ ok t) × LeadsInto w t
start_target-LeadsInto w h =
    let valid = (validate_iff w).0 h in
    let (n, e, s) = valid.start in
    let (r, one) = s.one_target in
    (
      r.target,
      start_target_one w e one,
      valid.routed start_node n r (lookup-mem start_node w.nodes e) (rw one (Memᴰ.head refl)),
    )

-- In a workflow that `Validate` accepts, the prompt of a node that does work renders. From left to
-- right, where a name without braces stands between two pairs of braces, the whole is replaced by the
-- field of the data that the name is of (`taskSystem`, `ticket`, `workflow`, `repo`, `node`, `mailbox`
-- or `nextSteps`), and every other code point is kept.
pub work_prompt-Renders :
    (w : Workflow) (name : String) (d : NudgeTemplateData) {n : Node}
    → validate w ≡ ok tt
    → lookup name w.nodes ≡ some n
    → name ≢ start_node
    → name ≢ end_node
    → (out : List ℕ) × (render_nudge w name d ≡ ok out) × Renders d (codes n.nudge_prompt) out
unfolding render_nudge
work_prompt-Renders w name d {n} h e a b =
    let valid = (validate_iff w).0 h in
    let work = valid.work name n (lookup-mem name w.nodes e) a b in
    let known = all_of (segments (codes n.nudge_prompt)) work.known_variables in
    (
      render_segments d (segments (codes n.nudge_prompt)),
      rw (e, render_nudge) refl,
      render_segments-Renders d (codes n.nudge_prompt) known,
    )
  where
    all_of : (ss : List Segment) → ((g : Segment) → Memᴰ g ss → IsKnown g) → All IsKnown ss
    all_of [] f = tt
    all_of (g ∷ ss) f = (f g (Memᴰ.head refl), all_of ss (λ x m. f x (Memᴰ.tail m)))
