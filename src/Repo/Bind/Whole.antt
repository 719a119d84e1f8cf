-- ===== src/Repo/Bind/Whole.antt =====
-- `bindWorkflows` of internal/repo/repo.go binds a workflow in all its repos or in none.
use relay_flow.Prelude.{
  String, Bool, true, false, Option, some, List, [], ◌∷◌, ◌++◌, Memᴰ, mem-append_left,
  mem-append_right, mem-append_cases, Result, ok, err, first_step, Bool-cases, ◌≡◌, ◌⊎◌, ◌∙◌, inl,
  inr, refl, sym, ap, subst,
}
use relay_flow.Workflow.{Workflow}
use relay_flow.Workflow.Health.{is_routable, mark_blocked}
use relay_flow.Repo.{Ticket, WorkflowBinding, Repo}
use relay_flow.Repo.Bind.{
  BindError, present, compiled, bind_repo, bind_repos, Bound, isolate, bind_isolated,
}

-- The entry binds the workflow in the repo, with an ownership matcher.
pub record Binds (w : Workflow) (es : List (String × WorkflowBinding)) (name : String)
    : Type 0 where
  pub binding : WorkflowBinding
  pub listed : Memᴰ (name, binding) es
  pub of_workflow : binding.workflow ≡ w
  pub guarded : (f : Ticket → Bool) × (binding.ownership ≡ some f)

abbrev pub InAll : Workflow → List (String × WorkflowBinding) → Type 0
InAll w es = (name : String) → Memᴰ name w.repos → Binds w es name

bind_repo-ok :
    (get : String → Option Repo) (w : Workflow) (name : String) {b : WorkflowBinding}
    → bind_repo get w name ≡ ok b
    → (b.workflow ≡ w) × ((f : Ticket → Bool) × (b.ownership ≡ some f))
unfolding bind_repo
bind_repo-ok get w name h =
    let (r, h1, e1) = first_step (present (BindError.unregistered name) (get name)) _ h in
    let (ts, h2, e2) = first_step (present (BindError.no_system name) r.task_system) _ h1 in
    let (matcher, h3, e3) =
      first_step (compiled (BindError.filter_failed name) (ts.compile_filter w.task_config)) _ h2 in
    let (c, h4, e4) = first_step (present (BindError.no_capabilities name) ts.capabilities) _ h3 in
    let (ownership, h5, e5) =
      first_step (compiled (BindError.ownership_failed name) (c.compile_ownership w.task_config)) _
        h4 in
    let (f, h6, e6) = first_step (present (BindError.no_matcher name) ownership) _ h5 in made _ f h6
  where
    made :
        {b : WorkflowBinding} (m : Option (Ticket → Bool)) (f : Ticket → Bool)
        → ◌≡◌ {A = Result BindError WorkflowBinding}
            (ok (record { workflow = w; match_ticket = m; ownership = some f }))
            (ok b)
        → (b.workflow ≡ w) × ((g : Ticket → Bool) × (b.ownership ≡ some g))
    made {b} m f k =
        let e : (record { workflow = w; match_ticket = m; ownership = some f }) ≡ b = cc in
        (sym (ap (λ x. x.workflow) e), (f, sym (ap (λ x. x.ownership) e)))

pub pairs-eq :
    {xs ys : List (String × WorkflowBinding)}
    → ◌≡◌ {A = Result BindError (List (String × WorkflowBinding))} (ok xs) (ok ys)
    → xs ≡ ys
pairs-eq {xs} {ys} h = cc

module _ (get : String → Option Repo) (w : Workflow) where
  bind_repos-Binds :
      (names : List String) {bs : List (String × WorkflowBinding)}
      → bind_repos get w names ≡ ok bs
      → (name : String) → Memᴰ name names
      → Binds w bs name
  unfolding bind_repos
  bind_repos-Binds [] h name m = elim m [ ]
  bind_repos-Binds (n ∷ names) h name m =
      let (b, h1, e1) = first_step (bind_repo get w n) _ h in
      let (rest, h2, e2) = first_step (bind_repos get w names) _ h1 in
      let (of_w, owned) = bind_repo-ok get w n e1 in
      subst (λ es. Binds w es name) (pairs-eq h2)
        (elim m [
          | Memᴰ.head p ↦ record {
            binding = b;
            listed = Memᴰ.head (ap (λ k. (k, b)) p);
            of_workflow = of_w;
            guarded = owned;
          }
          | Memᴰ.tail q ↦
              let k = bind_repos-Binds names e2 name q in
              record {
                binding = k.binding;
                listed = Memᴰ.tail k.listed;
                of_workflow = k.of_workflow;
                guarded = k.guarded;
              }
        ])

  -- The entries are for the workflow and its repos.
  bind_repos-only :
      (names : List String) {bs : List (String × WorkflowBinding)}
      → bind_repos get w names ≡ ok bs
      → (name : String) (b : WorkflowBinding) → Memᴰ (name, b) bs
      → (b.workflow ≡ w) × Memᴰ name names
  unfolding bind_repos
  bind_repos-only [] h name b m = elim (subst (λ es. Memᴰ (name, b) es) (sym (pairs-eq h)) m) [ ]
  bind_repos-only (n ∷ names) h name b m =
      let (c, h1, e1) = first_step (bind_repo get w n) _ h in
      let (rest, h2, e2) = first_step (bind_repos get w names) _ h1 in
      elim (subst (λ es. Memᴰ (name, b) es) (sym (pairs-eq h2)) m) [
        | Memᴰ.head p ↦ (
          ap (λ (x : String × WorkflowBinding). x.1.workflow) p ∙ (bind_repo-ok get w n e1).0,
          Memᴰ.head (ap (λ (x : String × WorkflowBinding). x.0) p),
        )
        | Memᴰ.tail q ↦ let (e, k) = bind_repos-only names e2 name b q in (e, Memᴰ.tail k)
      ]

module _ (w : Workflow) (xs ys : List (String × WorkflowBinding)) where
  InAll-append_left : InAll w xs → InAll w (xs ++ ys)
  InAll-append_left h name m =
      let k = h name m in
      record {
        binding = k.binding;
        listed = mem-append_left ys k.listed;
        of_workflow = k.of_workflow;
        guarded = k.guarded;
      }

  InAll-append_right : InAll w ys → InAll w (xs ++ ys)
  InAll-append_right h name m =
      let k = h name m in
      record {
        binding = k.binding;
        listed = mem-append_right xs k.listed;
        of_workflow = k.of_workflow;
        guarded = k.guarded;
      }

-- What the entries are worth: every one is of a routable workflow that is bound in all its repos, and
-- a routable workflow without an issue is bound in all its repos.
pub record IsWhole (text : BindError → String) (ws : List Workflow) (b : Bound) : Type 0 where
  pub of_whole :
      (name : String) (e : WorkflowBinding)
      → Memᴰ (name, e) b.entries
      → Memᴰ e.workflow ws
        × (is_routable (some e.workflow) ≡ true)
        × Memᴰ name e.workflow.repos
        × InAll e.workflow b.entries
  pub bound_or_issue :
      (w : Workflow)
      → Memᴰ w ws
      → is_routable (some w) ≡ true
      → InAll w b.entries
        ⊎ ((e : BindError) × Memᴰ (mark_blocked (text e) w.repair_command w, e) b.issues)

skip-IsWhole :
    (text : BindError → String) (w : Workflow) (ws : List Workflow) (b : Bound)
    → is_routable (some w) ≡ false
    → IsWhole text ws b
    → IsWhole text (w ∷ ws) b
skip-IsWhole text w ws b n k = record {
  of_whole = λ name e m. let (p, q, r, s) = k.of_whole name e m in (Memᴰ.tail p, q, r, s);
  bound_or_issue = λ v m routable. elim m [
    | Memᴰ.head p ↦ absurd (cc (subst (λ x. is_routable (some x) ≡ true) p routable, n))
    | Memᴰ.tail q ↦ k.bound_or_issue v q routable
  ];
}

isolate-IsWhole :
    (text : BindError → String) (get : String → Option Repo) (w : Workflow) (ws : List Workflow)
    (rest : Bound)
    → is_routable (some w) ≡ true
    → (r : Result BindError (List (String × WorkflowBinding))) → bind_repos get w w.repos ≡ r
    → IsWhole text ws rest
    → IsWhole text (w ∷ ws) (isolate text w r rest)
isolate-IsWhole text get w ws rest y (err e) h k = record {
  of_whole = λ name x m. let (p, q, r, s) = k.of_whole name x m in (Memᴰ.tail p, q, r, s);
  bound_or_issue = λ v m routable. elim m [
    | Memᴰ.head p ↦ inr (e, Memᴰ.head (ap (λ x. (mark_blocked (text e) x.repair_command x, e)) p))
    | Memᴰ.tail q ↦ elim (k.bound_or_issue v q routable) [
      | inl a ↦ inl a
      | inr (f, i) ↦ inr (f, Memᴰ.tail i)
    ]
  ];
}
isolate-IsWhole text get w ws rest y (ok bs) h k =
    let here : InAll w (bs ++ rest.entries) =
      InAll-append_left w bs rest.entries (bind_repos-Binds get w w.repos h) in
    record {
      of_whole = λ name x m. elim (mem-append_cases bs rest.entries m) [
        | inl a ↦
            let (e, at) = bind_repos-only get w w.repos h name x a in
            (
              Memᴰ.head e,
              subst (λ v. is_routable (some v) ≡ true) (sym e) y,
              subst (λ v. Memᴰ name v.repos) (sym e) at,
              subst (λ v. InAll v (bs ++ rest.entries)) (sym e) here,
            )
        | inr c ↦
            let (p, q, r, s) = k.of_whole name x c in
            (Memᴰ.tail p, q, r, InAll-append_right x.workflow bs rest.entries s)
      ];
      bound_or_issue = λ v m routable. elim m [
        | Memᴰ.head p ↦ inl (subst (λ x. InAll x (bs ++ rest.entries)) (sym p) here)
        | Memᴰ.tail q ↦ elim (k.bound_or_issue v q routable) [
          | inl a ↦ inl (InAll-append_right v bs rest.entries a)
          | inr i ↦ inr i
        ]
      ];
    }

-- The isolated form of `bindWorkflows`, whatever the registry and the adapters answer, binds a
-- workflow in all of its repos or in none: every entry is of a given workflow that is routable, for a
-- repo that it names, and that workflow has an entry with an ownership matcher for each of its repos;
-- and a routable workflow that has not all these entries has an issue, in which it is blocked.
pub bind_isolated-IsWhole :
    (text : BindError → String) (get : String → Option Repo) (ws : List Workflow)
    → IsWhole text ws (bind_isolated text get ws)
unfolding bind_isolated
bind_isolated-IsWhole text get [] = record {
  of_whole = λ name e m. elim m [ ];
  bound_or_issue = λ w m r. elim m [ ];
}
bind_isolated-IsWhole text get (w ∷ ws) = elim (Bool-cases (is_routable (some w))) [
  | inl y ↦
      rw (y, bind_isolated)
        (isolate-IsWhole text get w ws (bind_isolated text get ws) y (bind_repos get w w.repos) refl
          (bind_isolated-IsWhole text get ws))
  | inr n ↦
      rw (n, bind_isolated)
        (skip-IsWhole text w ws (bind_isolated text get ws) n (bind_isolated-IsWhole text get ws))
]
