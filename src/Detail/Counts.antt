-- ===== src/Detail/Counts.antt =====
-- The nodes of a definition that have no pending step yet, which `appendPending` of
-- internal/run/detail.go has fewer of at each step.
use relay_flow.Prelude.{
  ℕ, suc, ◌<◌, ◌≤◌, String, false, some, List, [], ◌∷◌, elem, length, lookup, ◌==◌, ==-eq,
  Bool-cases, if◌then◌else◌, ◌≡◌, inl, inr, sym, subst, arith,
}
use relay_flow.Workflow.{Node}

pub missing : List String → List (String × Node) → ℕ
missing added [] = 0
missing added ((j, n) ∷ nodes) =
    let rest = missing added nodes in if elem j added then rest else suc rest

pub missing-le :
    (added : List String) (nodes : List (String × Node)) → missing added nodes ≤ length nodes
unfolding missing
missing-le added [] = omega arith
missing-le added ((j, n) ∷ nodes) = elim (Bool-cases (elem j added)) [
  | inl e ↦ rw e (omega (arith, missing-le added nodes))
  | inr e ↦ rw e (omega (arith, missing-le added nodes))
]

missing-more :
    (name : String) (added : List String) (nodes : List (String × Node))
    → missing (name ∷ added) nodes ≤ missing added nodes
unfolding missing
missing-more name added [] = omega arith
missing-more name added ((j, n) ∷ nodes) = elim (Bool-cases (elem j added)) [
  | inl e ↦ elim (Bool-cases (j == name)) [
    | inl f ↦ rw (e, f) (missing-more name added nodes)
    | inr f ↦ rw (e, f) (missing-more name added nodes)
  ]
  | inr e ↦ elim (Bool-cases (j == name)) [
    | inl f ↦ rw (e, f) (omega (arith, missing-more name added nodes))
    | inr f ↦ rw (e, f) (omega (arith, missing-more name added nodes))
  ]
]

pub missing-fewer :
    (name : String) (added : List String) (nodes : List (String × Node)) {n : Node}
    → lookup name nodes ≡ some n
    → elem name added ≡ false
    → missing (name ∷ added) nodes < missing added nodes
unfolding missing
missing-fewer name added [] h k = cc
missing-fewer name added ((j, m) ∷ nodes) h k = elim (Bool-cases (j == name)) [
  | inl f ↦
      let new : elem j added ≡ false = subst (λ x. elem x added ≡ false) (sym (==-eq f)) k in
      rw (f, new) (omega (arith, missing-more name added nodes))
  | inr f ↦
      let fewer = missing-fewer name added nodes (rw f at h) k in
      elim (Bool-cases (elem j added)) [
        | inl e ↦ rw (e, f) fewer
        | inr e ↦ rw (e, f) (omega (arith, fewer))
      ]
]
