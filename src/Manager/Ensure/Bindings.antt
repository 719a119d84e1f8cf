-- ===== src/Manager/Ensure/Bindings.antt =====
-- The loop of `EnsureRun` of internal/run/manager.go over the bindings of a repo.
use relay_flow.Prelude.{
  String, Bool, true, none, some, List, [], ◌∷◌, Bool-cases, Option-cases, ==-eq, ==-ne, ◌==◌, ◌≡◌,
  ◌≢◌, ◌⊎◌, inl, inr,
}
use relay_flow.Repo.{Ticket, WorkflowBinding}
use relay_flow.Manager.Ensure.{binding_accepts}

-- The first binding of the workflow that has an ownership matcher accepts the ticket, or none has one.
pub data IsAccepted (name : String) (t : Ticket) : List WorkflowBinding → Type 0 where
  unmatched : IsAccepted name t []
  passed :
      {b : WorkflowBinding} {bs : List WorkflowBinding}
      → (b.workflow.name ≢ name) ⊎ (b.ownership ≡ none)
      → IsAccepted name t bs
      → IsAccepted name t (b ∷ bs)
  accepted :
      {b : WorkflowBinding} {bs : List WorkflowBinding} {f : Ticket → Bool}
      → b.workflow.name ≡ name
      → b.ownership ≡ some f
      → f t ≡ true
      → IsAccepted name t (b ∷ bs)

pub binding_accepts-IsAccepted :
    (name : String) (t : Ticket) (bs : List WorkflowBinding)
    → binding_accepts name t bs ≡ true
    → IsAccepted name t bs
unfolding binding_accepts
binding_accepts-IsAccepted name t [] h = unmatched
binding_accepts-IsAccepted name t (b ∷ bs) h = elim (Bool-cases (b.workflow.name == name)) [
  | inr e ↦ passed (inl (==-ne e)) (binding_accepts-IsAccepted name t bs (rw e at h))
  | inl e ↦ elim (Option-cases b.ownership) [
    | inl n ↦ passed (inr n) (binding_accepts-IsAccepted name t bs (rw (e, n) at h))
    | inr (f, q) ↦ accepted (==-eq e) q (rw (e, q) at h)
  ]
]
