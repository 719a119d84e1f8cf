-- ===== src/Repo/Bind/Forms.antt =====
-- The two forms of `bindWorkflows` of internal/repo/repo.go, and what is published of their entries.
use Prim.Native.String.{compare}
use text.Mathlib.Text.{is_le}
use relay_flow.Prelude.{
  String, true, Option, some, List, [], ◌∷◌, ◌++◌, Memᴰ, Result, ok, first_step, ◌==◌, ==-eq,
  ==_refl, Bool-cases, ◌≡◌, ◌↔◌, ◌∙◌, inl, inr, refl, sym, ap, subst,
}
use relay_flow.Workflow.{Workflow}
use relay_flow.Workflow.Health.{is_routable}
use relay_flow.Repo.{WorkflowBinding, Repo}
use relay_flow.Repo.Bind.{
  BindError, bind_repos, bind_strict, Bound, isolate, bind_isolated, insert_by_name, bindings_of,
  publish,
}
use relay_flow.Repo.Bind.Whole.{pairs-eq}

isolate-ok :
    (text : BindError → String) (w : Workflow) (bs : List (String × WorkflowBinding)) (rest : Bound)
    (r : Result BindError (List (String × WorkflowBinding)))
    → r ≡ ok bs
    → isolate text w r rest ≡ record { entries = bs ++ rest.entries; issues = rest.issues }
isolate-ok text w bs rest r h = rw h refl

-- Where the strict form of `bindWorkflows` accepts the workflows, the isolated form makes the same
-- entries and raises no issue.
pub bind_strict-bind_isolated :
    (text : BindError → String) (get : String → Option Repo) (ws : List Workflow)
    {es : List (String × WorkflowBinding)}
    → bind_strict get ws ≡ ok es
    → bind_isolated text get ws ≡ record { entries = es; issues = [] }
unfolding bind_strict bind_isolated
bind_strict-bind_isolated text get [] h =
    ap (λ es. record { entries = es; issues = [] }) (pairs-eq h)
bind_strict-bind_isolated text get (w ∷ ws) h = elim (Bool-cases (is_routable (some w))) [
  | inl y ↦
      let (bs, h1, e1) = first_step (bind_repos get w w.repos) _ (rw (y, bind_strict) at h) in
      let (rest, h2, e2) = first_step (bind_strict get ws) _ h1 in
      let others = bind_strict-bind_isolated text get ws e2 in
      rw (y, bind_isolated)
        (isolate-ok text w bs (bind_isolated text get ws) (bind_repos get w w.repos) e1
          ∙ ap (λ (b : Bound). record { entries = bs ++ b.entries; issues = b.issues }) others
          ∙ ap (λ es. record { entries = es; issues = [] }) (pairs-eq h2))
  | inr n ↦ rw (n, bind_isolated) (bind_strict-bind_isolated text get ws (rw (n, bind_strict) at h))
]

insert-mem :
    (b c : WorkflowBinding) (bs : List WorkflowBinding)
    → Memᴰ c (insert_by_name b bs)
    → Memᴰ c (b ∷ bs)
insert-mem b c [] m = m
insert-mem b c (d ∷ ds) m = elim (Bool-cases (is_le (compare b.workflow.name d.workflow.name))) [
  | inl e ↦ rw e at m
  | inr e ↦ elim (rw e at m) [
    | Memᴰ.head p ↦ Memᴰ.tail (Memᴰ.head p)
    | Memᴰ.tail q ↦ elim (insert-mem b c ds q) [
      | Memᴰ.head p ↦ Memᴰ.head p
      | Memᴰ.tail r ↦ Memᴰ.tail (Memᴰ.tail r)
    ]
  ]
]

mem-insert :
    (b c : WorkflowBinding) (bs : List WorkflowBinding)
    → Memᴰ c (b ∷ bs)
    → Memᴰ c (insert_by_name b bs)
mem-insert b c [] m = m
mem-insert b c (d ∷ ds) m = elim (Bool-cases (is_le (compare b.workflow.name d.workflow.name))) [
  | inl e ↦ rw (e, insert_by_name) m
  | inr e ↦
      rw (e, insert_by_name)
        (elim m [
          | Memᴰ.head p ↦ Memᴰ.tail (mem-insert b c ds (Memᴰ.head p))
          | Memᴰ.tail (Memᴰ.head p) ↦ Memᴰ.head p
          | Memᴰ.tail (Memᴰ.tail q) ↦ Memᴰ.tail (mem-insert b c ds (Memᴰ.tail q))
        ])
]

bindings_of-mem :
    (name : String) (b : WorkflowBinding) (es : List (String × WorkflowBinding))
    → Memᴰ b (bindings_of name es)
    → Memᴰ (name, b) es
unfolding bindings_of
bindings_of-mem name b [] m = elim m [ ]
bindings_of-mem name b ((n, c) ∷ es) m = elim (Bool-cases (n == name)) [
  | inl e ↦ elim (insert-mem c b (bindings_of name es) (rw e at m)) [
    | Memᴰ.head p ↦ Memᴰ.head (ap (λ x. (name, x)) p ∙ ap (λ k. (k, c)) (sym (==-eq e)))
    | Memᴰ.tail q ↦ Memᴰ.tail (bindings_of-mem name b es q)
  ]
  | inr e ↦ Memᴰ.tail (bindings_of-mem name b es (rw e at m))
]

mem-bindings_of :
    (name : String) (b : WorkflowBinding) (es : List (String × WorkflowBinding))
    → Memᴰ (name, b) es
    → Memᴰ b (bindings_of name es)
unfolding bindings_of
mem-bindings_of name b [] m = elim m [ ]
mem-bindings_of name b ((n, c) ∷ es) (Memᴰ.head p) =
    let same : (n == name) ≡ true =
      subst (λ k. (k == name) ≡ true) (ap (λ (x : String × WorkflowBinding). x.0) p)
        (==_refl name) in
    rw same (
      mem-insert c b (bindings_of name es)
        (Memᴰ.head (ap (λ (x : String × WorkflowBinding). x.1) p)))
mem-bindings_of name b ((n, c) ∷ es) (Memᴰ.tail q) = elim (Bool-cases (n == name)) [
  | inl e ↦ rw e (mem-insert c b (bindings_of name es) (Memᴰ.tail (mem-bindings_of name b es q)))
  | inr e ↦ rw e (mem-bindings_of name b es q)
]

-- What `bindWorkflows` publishes for a repo are the entries under the repo's name, and no other: the
-- sort by the workflows' names loses and adds none.
pub publish_iff :
    (es : List (String × WorkflowBinding)) (r : Repo) (b : WorkflowBinding)
    → Memᴰ b (publish es r).bindings ↔ Memᴰ (r.name, b) es
unfolding publish
publish_iff es r b = (bindings_of-mem r.name b es, mem-bindings_of r.name b es)
