-- ===== src/Workflow/Validate/Exact.antt =====
-- `Validate` of internal/workflow/workflow.go accepts the valid workflows and no others.
use relay_flow.Prelude.{
  String, true, not, Option, none, some, List, [], ◌∷◌, Memᴰ, Result, ok, err, guard, >>_iff,
  guard_iff, each_iff, not_==_iff, elem, elem-mem, mem-elem, lookup, ◌==◌, ==-ne, ne-==, ◌≡◌, ◌≢◌,
  ◌↔◌, inl, inr, refl, sym, ap, subst, arith, Bool-cases, Option-cases,
}
use relay_flow.Workflow.{Node, Route, Workflow, all_routes, start_node, end_node}
use relay_flow.Workflow.Name.{codes, matches_name_iff}
use relay_flow.Workflow.Reach.{first_unvisited}
use relay_flow.Workflow.Reach.Walk.{Reachable, visited_from_start_exact}
use relay_flow.Workflow.Validate.{
  NodeError, ValidateError, no_start, no_end, duplicate_repo, validate_start, validate_end,
  validate_work_node, at_node, check_repos, check_work_node, has_node, check_route, check_routes,
  check_required, validate_reachability, validate,
}
use relay_flow.Workflow.Validate.Spec.{IsDistinct, IsWorkNode, IsValid}
use relay_flow.Workflow.Validate.Nodes.{
  validate_start_iff, validate_end_iff, validate_work_node_iff, not-is_empty_iff,
}

at_node_iff :
    (name : String) (r : Result NodeError (Unit {0})) → (at_node name r ≡ ok tt) ↔ (r ≡ ok tt)
at_node_iff name (ok tt) = (λ h. refl, λ h. refl)
at_node_iff name (err e) = (λ h. cc, λ h. cc)

-- No name of the list is in the set.
abbrev Fresh : List String → List String → Type 0
Fresh seen rs = (x : String) → Memᴰ x rs → ¬ Memᴰ x seen

check_repos_iff :
    (seen rs : List String) → (check_repos seen rs ≡ ok tt) ↔ (IsDistinct rs × Fresh seen rs)
unfolding check_repos
check_repos_iff seen [] = (λ h. (tt, λ x m. elim m [ ]), λ h. refl)
check_repos_iff seen (r ∷ rs) =
    let chain =
      >>_iff (guard {E = ValidateError} (not (elem r seen)) (duplicate_repo r))
        (check_repos (r ∷ seen) rs) in
    let ih = check_repos_iff (r ∷ seen) rs in
    (
      λ h.
          let (g, k) = chain.0 h in
          let (d, f) = ih.0 k in
          let new = (guard_iff (not (elem r seen)) (duplicate_repo r)).0 g in
          (
            (λ m. f r m (Memᴰ.head refl), d),
            λ x m. elim m [
              | Memᴰ.head e ↦ λ s. ground (arith, mem-elem (subst (λ y. Memᴰ y seen) e s))
              | Memᴰ.tail t ↦ λ s. f x t (Memᴰ.tail s)
            ],
          ),
      λ h.
          let new : not (elem r seen) ≡ true = elim (Bool-cases (elem r seen)) [
            | inl e ↦ absurd (h.1 r (Memᴰ.head refl) (elem-mem r seen e))
            | inr e ↦ rw e
          ] in
          chain.1 (
            (guard_iff (not (elem r seen)) (duplicate_repo r)).1 new,
            ih.1 (
              h.0.1,
              λ x m s. elim s [
                | Memᴰ.head e ↦ h.0.0 (subst (λ y. Memᴰ y rs) e m)
                | Memᴰ.tail t ↦ h.1 x (Memᴰ.tail m) t
              ],
            ),
          ),
    )

module _ (missing : ValidateError) (name : String) (check : Node → Result NodeError (Unit {0}))
    (nodes : List (String × Node)) where
  check_required_iff :
      (check_required missing name check nodes ≡ ok tt)
      ↔ ((n : Node) × (lookup name nodes ≡ some n) × (check n ≡ ok tt))
  check_required_iff = go (lookup name nodes) refl
    where
      go :
          (o : Option Node)
          → lookup name nodes ≡ o
          → (check_required missing name check nodes ≡ ok tt)
            ↔ ((n : Node) × (lookup name nodes ≡ some n) × (check n ≡ ok tt))
      go none e = (λ h. absurd (ground arith), λ h. absurd (ground (arith, h.1)))
      go (some n) e = (
        λ h. (n, e, (at_node_iff name (check n)).0 (rw (e, check_required) at h)),
        λ h. rw (e, check_required) ((at_node_iff name (check n)).1 (ground (arith, h.1, h.2))),
      )

check_work_node_iff :
    (name : String) (n : Node)
    → (check_work_node (name, n) ≡ ok tt) ↔ (name ≢ start_node → name ≢ end_node → IsWorkNode n)
check_work_node_iff name n = (
  λ h a b.
      let e = ne-== a in
      let f = ne-== b in
      (validate_work_node_iff n).0 ((at_node_iff name (validate_work_node n)).0 (rw (e, f) at h)),
  λ h. elim (Bool-cases (name == start_node)) [
    | inl e ↦ rw e
    | inr e ↦ elim (Bool-cases (name == end_node)) [
      | inl f ↦ rw (e, f)
      | inr f ↦
          rw (e, f)
            ((at_node_iff name (validate_work_node n)).1
              ((validate_work_node_iff n).1 (h (==-ne e) (==-ne f))))
    ]
  ],
)

has_node_iff :
    (nodes : List (String × Node)) (name : String)
    → (has_node nodes name ≡ true) ↔ ((m : Node) × (lookup name nodes ≡ some m))
has_node_iff nodes name = (
  λ h. elim (Option-cases (lookup name nodes)) [ inl e ↦ absurd (ground arith) | inr r ↦ r ],
  λ h. rw (h.1, has_node),
)

check_route_iff :
    (nodes : List (String × Node)) (name : String) (r : Route)
    → (check_route nodes name r ≡ ok tt)
      ↔ ((r.target ≢ start_node) × ((m : Node) × (lookup r.target nodes ≡ some m)))
check_route_iff nodes name r = (
  λ h. (
    (not_==_iff r.target start_node).0 (ground arith),
    (has_node_iff nodes r.target).0 (ground arith),
  ),
  λ h.
      let a = (not_==_iff r.target start_node).1 h.0 in
      let b = (has_node_iff nodes r.target).1 h.1 in rw (a, b),
)

first_unvisited_iff :
    (visited : List String) (nodes : List (String × Node))
    → (first_unvisited visited nodes ≡ none)
      ↔ ((name : String) (n : Node) → Memᴰ (name, n) nodes → Memᴰ name visited)
unfolding first_unvisited
first_unvisited_iff visited [] = (λ h name n m. elim m [ ], λ h. refl)
first_unvisited_iff visited ((j, k) ∷ nodes) = (
  λ h name n m. elim m [
    | Memᴰ.head e ↦
        subst (λ x. Memᴰ x visited) (sym (ap (λ p. p.0) e)) (elem-mem j visited (ground arith))
    | Memᴰ.tail t ↦ (first_unvisited_iff visited nodes).0 (ground arith) name n t
  ],
  λ h.
      rw (mem-elem (h j k (Memᴰ.head refl)))
        ((first_unvisited_iff visited nodes).1 (λ name n m. h name n (Memᴰ.tail m))),
)

validate_reachability_iff :
    (nodes : List (String × Node))
    → (validate_reachability nodes ≡ ok tt)
      ↔ ((name : String) (n : Node) → Memᴰ (name, n) nodes → Reachable nodes name)
unfolding validate_reachability
validate_reachability_iff nodes =
    let (visited, e, exact) = visited_from_start_exact nodes in
    (
      λ h name n m. (exact name).0 ((first_unvisited_iff visited nodes).0 (ground arith) name n m),
      λ h.
          let f = (first_unvisited_iff visited nodes).1 (λ name n m. (exact name).1 (h name n m)) in
          rw (e, validate_reachability) (rw f),
    )

-- `Validate` accepts exactly the valid workflows: a well-formed name, one or more repos, all
-- different, a `start` and an `end` of the reserved form, work nodes with a type, an agent, a
-- description, routes for both outcomes and known template variables, routes that lead to nodes
-- other than `start`, and every node reachable from `start`.
pub validate_iff : (w : Workflow) → (validate w ≡ ok tt) ↔ IsValid w
unfolding validate
validate_iff w =
    let works = each_iff check_work_node w.nodes in
    let routings = each_iff (check_routes w.nodes) w.nodes in
    (
      λ h. record {
        named = (matches_name_iff (codes w.name)).0 (ground arith);
        has_repos = (not-is_empty_iff w.repos).0 (ground arith);
        distinct_repos = ((check_repos_iff [] w.repos).0 (ground arith)).0;
        start =
            let (n, e, c) =
              (check_required_iff no_start start_node validate_start w.nodes).0 (ground arith) in
            (n, e, (validate_start_iff n).0 c);
        end =
            let (n, e, c) =
              (check_required_iff no_end end_node validate_end w.nodes).0 (ground arith) in
            (n, e, (validate_end_iff n).0 c);
        work = λ name n m. (check_work_node_iff name n).0 (works.0 (ground arith) (name, n) m);
        routed = λ name n r m k. (check_route_iff w.nodes name r).0 (
            (each_iff (check_route w.nodes name) (all_routes n)).0
              (routings.0 (ground arith) (name, n) m) r k);
        reached = (validate_reachability_iff w.nodes).0 (ground arith);
      },
      λ h.
          let a = (matches_name_iff (codes w.name)).1 h.named in
          let b = (not-is_empty_iff w.repos).1 h.has_repos in
          let c = (check_repos_iff [] w.repos).1 (h.distinct_repos, λ x m s. elim s [ ]) in
          let d =
            (check_required_iff no_start start_node validate_start w.nodes).1
              (h.start.0, h.start.1, (validate_start_iff h.start.0).1 h.start.2) in
          let e =
            (check_required_iff no_end end_node validate_end w.nodes).1
              (h.end.0, h.end.1, (validate_end_iff h.end.0).1 h.end.2) in
          let f = works.1 (λ p m. (check_work_node_iff p.0 p.1).1 (h.work p.0 p.1 m)) in
          let g = routings.1 (λ p m.
            (each_iff (check_route w.nodes p.0) (all_routes p.1)).1
              (λ r k. (check_route_iff w.nodes p.0 r).1 (h.routed p.0 p.1 r m k))) in
          let k = (validate_reachability_iff w.nodes).1 h.reached in rw (a, b, c, d, e, f, g) k,
    )
