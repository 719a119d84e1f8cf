-- ===== src/Router/Exact.antt =====
-- Which workflow `ResolveWorkflow` of internal/router/router.go routes a ticket to.
use relay_flow.Prelude.{
  String, true, false, some, List, [], ◌∷◌, ◌++◌, All, ok, ◌==◌, ==-eq, ==-ne, ne-==, eq_iff,
  Bool-cases, ◌≡◌, ◌∙◌, ◌≢◌, ◌↔◌, inl, inr, refl, sym, ap, subst, arith,
}
use relay_flow.Workflow.{Workflow}
use relay_flow.Repo.{Ticket, WorkflowBinding, Repo}
use relay_flow.Router.{
  trim_claim, accepts, resolve_claim, matched, sole, resolve_claims, resolve_workflow,
}

abbrev Refuses : Ticket → WorkflowBinding → Type 0
Refuses t b = accepts b.match_ticket t ≡ false

-- The binding stands in the list where no earlier (and, for `P`, no other) one has the property.
pub record SoleMatch (t : Ticket) (bs : List WorkflowBinding) (w : Workflow) : Type 0 where
  pub before : List WorkflowBinding
  pub binding : WorkflowBinding
  pub behind : List WorkflowBinding
  pub stands : bs ≡ before ++ (binding ∷ behind)
  pub matches : accepts binding.match_ticket t ≡ true
  pub others : All (Refuses t) before × All (Refuses t) behind
  pub routed : binding.workflow ≡ w

pub record OwnedClaim (t : Ticket) (bs : List WorkflowBinding) (name : String) (w : Workflow)
    : Type 0 where
  pub before : List WorkflowBinding
  pub binding : WorkflowBinding
  pub behind : List WorkflowBinding
  pub stands : bs ≡ before ++ (binding ∷ behind)
  pub named : binding.workflow.name ≡ name
  pub first : All (λ b. b.workflow.name ≢ name) before
  pub owned : accepts binding.ownership t ≡ true
  pub routed : binding.workflow ≡ w

-- The routes of a ticket in a repo.
pub data RoutesTo (r : Repo) (t : Ticket) (w : Workflow) : Type 0 where
  unclaimed : t.workflow_claims ≡ [] → SoleMatch t r.bindings w → RoutesTo r t w
  claimed :
      (c : String)
      → t.workflow_claims ≡ c ∷ []
      → OwnedClaim t r.bindings (trim_claim c) w
      → RoutesTo r t w

matched_none : (t : Ticket) (bs : List WorkflowBinding) → matched bs t ≡ [] → All (Refuses t) bs
unfolding matched
matched_none t [] h = tt
matched_none t (b ∷ bs) h = elim (Bool-cases (accepts b.match_ticket t)) [
  | inl e ↦ absurd (ground arith)
  | inr e ↦ (e, matched_none t bs (ground arith))
]

none_matched : (t : Ticket) (bs : List WorkflowBinding) → All (Refuses t) bs → matched bs t ≡ []
unfolding matched
none_matched t [] h = refl
none_matched t (b ∷ bs) h = rw (h.0) (none_matched t bs h.1)

matched_one :
    (t : Ticket) (bs : List WorkflowBinding) (w : Workflow)
    → matched bs t ≡ w ∷ []
    → SoleMatch t bs w
unfolding matched
matched_one t [] w h = cc
matched_one t (b ∷ bs) w h = elim (Bool-cases (accepts b.match_ticket t)) [
  | inl e ↦
      let both : ◌≡◌ {A = List Workflow} (b.workflow ∷ matched bs t) (w ∷ []) = rw e at h in
      record {
        before = [];
        binding = b;
        behind = bs;
        stands = refl;
        matches = e;
        others = (tt, matched_none t bs (cc));
        routed = cc;
      }
  | inr e ↦
      let m = matched_one t bs w (rw e at h) in
      record {
        before = b ∷ m.before;
        binding = m.binding;
        behind = m.behind;
        stands = ap (λ l. b ∷ l) m.stands;
        matches = m.matches;
        others = ((e, m.others.0), m.others.1);
        routed = m.routed;
      }
]

one_matched :
    (t : Ticket) (before behind : List WorkflowBinding) (b : WorkflowBinding)
    → accepts b.match_ticket t ≡ true
    → All (Refuses t) before
    → All (Refuses t) behind
    → matched (before ++ (b ∷ behind)) t ≡ b.workflow ∷ []
unfolding matched
one_matched t [] behind b m f g = rw m (ap (λ l. b.workflow ∷ l) (none_matched t behind g))
one_matched t (x ∷ before) behind b m f g = rw (f.0) (one_matched t before behind b m f.1 g)

sole-ok : (ws : List Workflow) (w : Workflow) → sole ws ≡ ok w → ws ≡ w ∷ []
sole-ok [] w h = cc
sole-ok (x ∷ []) w h = cc
sole-ok (x ∷ y ∷ ws) w h = cc

claim_ok :
    (name : String) (bs : List WorkflowBinding) (t : Ticket) (w : Workflow)
    → resolve_claim name bs t ≡ ok w
    → OwnedClaim t bs name w
unfolding resolve_claim
claim_ok name [] t w h = cc
claim_ok name (b ∷ bs) t w h = elim (Bool-cases (b.workflow.name == name)) [
  | inl e ↦ elim (Bool-cases (accepts b.ownership t)) [
    | inl o ↦ record {
      before = [];
      binding = b;
      behind = bs;
      stands = refl;
      named = ==-eq e;
      first = tt;
      owned = o;
      routed = ground arith;
    }
    | inr o ↦ absurd (ground arith)
  ]
  | inr e ↦
      let m = claim_ok name bs t w (ground arith) in
      record {
        before = b ∷ m.before;
        binding = m.binding;
        behind = m.behind;
        stands = ap (λ l. b ∷ l) m.stands;
        named = m.named;
        first = (==-ne e, m.first);
        owned = m.owned;
        routed = m.routed;
      }
]

ok_claim :
    (name : String) (before behind : List WorkflowBinding) (b : WorkflowBinding) (t : Ticket)
    → b.workflow.name ≡ name
    → All (λ x. x.workflow.name ≢ name) before
    → accepts b.ownership t ≡ true
    → resolve_claim name (before ++ (b ∷ behind)) t ≡ ok b.workflow
unfolding resolve_claim
ok_claim name [] behind b t n f o = ground (arith, eq_iff b.workflow.name name)
ok_claim name (x ∷ before) behind b t n f o =
    rw (ne-== (f.0), resolve_claim) (ok_claim name before behind b t n f.1 o)

-- `ResolveWorkflow` routes a ticket to a workflow exactly in these two cases: the ticket has no
-- claim, and one binding of the repo and no other matches it; or it has one claim, and the first
-- binding of the claimed name accepts the ticket's owner. The workflow is that binding's.
pub resolve_workflow_iff :
    (r : Repo) (t : Ticket) (w : Workflow) → (resolve_workflow (some r) t ≡ ok w) ↔ RoutesTo r t w
unfolding resolve_workflow
resolve_workflow_iff r t w = (λ h. to t.workflow_claims refl h, back)
  where
    to :
        (cs : List String)
        → t.workflow_claims ≡ cs
        → resolve_claims cs r.bindings t ≡ ok w
        → RoutesTo r t w
    to [] e h = unclaimed e (matched_one t r.bindings w (sole-ok (matched r.bindings t) w h))
    to (c ∷ []) e h = claimed c e (claim_ok (trim_claim c) r.bindings t w h)
    to (c ∷ d ∷ cs) e h = cc

    back : RoutesTo r t w → resolve_claims t.workflow_claims r.bindings t ≡ ok w
    back (unclaimed e m) =
        subst (λ cs. resolve_claims cs r.bindings t ≡ ok w) (sym e)
          (subst (λ bs. sole (matched bs t) ≡ ok w) (sym m.stands)
            (ap sole (one_matched t m.before m.behind m.binding m.matches m.others.0 m.others.1)
              ∙ ap ok m.routed))
    back (claimed c e m) =
        subst (λ cs. resolve_claims cs r.bindings t ≡ ok w) (sym e)
          (subst (λ bs. resolve_claim (trim_claim c) bs t ≡ ok w) (sym m.stands)
            (ok_claim (trim_claim c) m.before m.behind m.binding t m.named m.first m.owned
              ∙ ap ok m.routed))
