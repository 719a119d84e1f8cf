-- ===== src/Detail/Rows.antt =====
-- What a pending step of internal/run/detail.go is, and the sequence that it gets.
use relay_flow.Prelude.{
  ℕ, ◌+◌, ◌<◌, ◌≤◌, String, false, some, List, [], ◌∷◌, All, elem, length, lookup, Memᴰ, ◌≡◌, arith,
}
use relay_flow.Workflow.{Node, Workflow, all_routes}
use relay_flow.Projection.Steps.{pending, StepEntry}
use relay_flow.Detail.{nodes_of, after, next_sequence, single}

-- A target of the position, or the target of the sole route of such a node.
pub data IsDownstream (wf : Workflow) (targets : List String) : String → Type 0 where
  target : {name : String} → Memᴰ name targets → IsDownstream wf targets name
  next :
      {name goal : String} {n : Node}
      → IsDownstream wf targets name
      → lookup name wf.nodes ≡ some n
      → single (all_routes n) ≡ some goal
      → IsDownstream wf targets goal

module _ (run_id : String) (wf : Workflow) (visited targets : List String) (first : ℕ) where
  -- The step comes after the steps `ss`, of which the last stands first.
  pub record IsRow (ss : List StepEntry) (s : StepEntry) : Type 0 where
    pub waits : s.status ≡ pending
    pub of_run : s.run_id ≡ run_id
    pub exists : (n : Node) × (lookup s.node wf.nodes ≡ some n)
    pub unvisited : elem s.node visited ≡ false
    pub fresh : elem s.node (nodes_of ss) ≡ false
    pub number : s.sequence ≡ first + length ss
    pub reason : IsDownstream wf targets s.node

  abbrev pub AreRows : List StepEntry → Type 0
  AreRows [] = Unit
  AreRows (s ∷ ss) = IsRow ss s × AreRows ss

after-above : (n : ℕ) (s : StepEntry) → (n ≤ after n s) × (s.sequence < after n s)
after-above n s = (ground arith, ground arith)

next_sequence-le : (n : ℕ) (ss : List StepEntry) → n ≤ next_sequence n ss
unfolding next_sequence
next_sequence-le n [] = omega arith
next_sequence-le n (s ∷ ss) = omega (arith, next_sequence-le (after n s) ss, (after-above n s).0)

-- The sequence after the loop is greater than the sequence of every step.
pub next_sequence-above :
    (n : ℕ) (ss : List StepEntry) → All (λ s. s.sequence < next_sequence n ss) ss
unfolding next_sequence
next_sequence-above n [] = tt
next_sequence-above n (s ∷ ss) = (
  omega (arith, next_sequence-le (after n s) ss, (after-above n s).1),
  next_sequence-above (after n s) ss,
)
