-- ===== src/Detail/Extends.antt =====
-- What the steps are that `AddPendingNodes` of internal/run/detail.go leaves.
use relay_flow.Prelude.{
  ℕ, suc, ◌<◌, String, Bool, true, false, none, some, List, [], ◌∷◌, ◌++◌, All, Memᴰ, elem, length,
  lookup, mem-append_left, mem-append_right, mem-append_cases, ◌==◌, ◌||◌, elem-mem, either_way,
  ◌≡◌, ◌⊎◌, inl, inr, refl, sym, ap, subst, arith,
}
use mathlib.Core.List.{reverse, append-nil}
use relay_flow.Workflow.{Node, Workflow}
use relay_flow.Run.{completed}
use relay_flow.Run.States.{same_state}
use relay_flow.Projection.Steps.{StepEntry}
use relay_flow.Detail.{
  RunDetail, reached, nodes_of, next_sequence, current_step, current_node, is_routed, proposed,
  add_candidates, Added, add_after, add_pending_nodes,
}
use relay_flow.Detail.Rows.{target, AreRows, next_sequence-above}
use relay_flow.Detail.Pending.{append_all-Ran}

module _ (visited : List String) where
  add_candidates-keeps :
      (cs ts : List String) {name : String}
      → Memᴰ name cs
      → Memᴰ name (add_candidates visited cs ts)
  unfolding add_candidates
  add_candidates-keeps cs [] m = m
  add_candidates-keeps cs (t ∷ ts) {name} m =
      either_way (λ x. Memᴰ name (add_candidates visited x ts))
        (t == "" || elem t visited || elem t cs) _ _ (λ _. add_candidates-keeps cs ts m)
        (λ _. add_candidates-keeps (cs ++ (t ∷ [])) ts (mem-append_left (t ∷ []) m))

  add_candidates-sound :
      (cs ts : List String) {name : String}
      → Memᴰ name (add_candidates visited cs ts)
      → Memᴰ name cs ⊎ Memᴰ name ts
  unfolding add_candidates
  add_candidates-sound cs [] m = inl m
  add_candidates-sound cs (t ∷ ts) {name} m =
      either_way (λ x. Memᴰ name (add_candidates visited x ts) → Memᴰ name cs ⊎ Memᴰ name (t ∷ ts))
        (t == "" || elem t visited || elem t cs) _ _
        (λ _ k. elim (add_candidates-sound cs ts k) [ inl l ↦ inl l | inr r ↦ inr (Memᴰ.tail r) ])
        (λ _ k. elim (add_candidates-sound (cs ++ (t ∷ [])) ts k) [
          | inl l ↦ elim (mem-append_cases cs (t ∷ []) l) [
            | inl x ↦ inl x
            | inr (Memᴰ.head e) ↦ inr (Memᴰ.head e)
            | inr (Memᴰ.tail x) ↦ elim x [ ]
          ]
          | inr r ↦ inr (Memᴰ.tail r)
        ])
        m

  refused : (a b c : Bool) → (a || b || c) ≡ true → a ≡ false → b ≡ false → c ≡ true
  refused a b c h k l = ground arith

  add_candidates-complete :
      (cs ts : List String) {name : String}
      → Memᴰ name ts
      → (name == "") ≡ false
      → elem name visited ≡ false
      → Memᴰ name (add_candidates visited cs ts)
  unfolding add_candidates
  add_candidates-complete cs [] m h k = elim m [ ]
  add_candidates-complete cs (t ∷ ts) {name} (Memᴰ.tail m) h k =
      either_way (λ x. Memᴰ name (add_candidates visited x ts))
        (t == "" || elem t visited || elem t cs) _ _ (λ _. add_candidates-complete cs ts m h k)
        (λ _. add_candidates-complete (cs ++ (t ∷ [])) ts m h k)
  add_candidates-complete cs (t ∷ ts) {name} (Memᴰ.head e) h k =
      subst (λ y. Memᴰ y (add_candidates visited cs (t ∷ ts))) (sym e)
        (either_way (λ x. Memᴰ t (add_candidates visited x ts))
          (t == "" || elem t visited || elem t cs) _ _
          (λ r. add_candidates-keeps cs ts (
            elem-mem t cs (
              refused (t == "") (elem t visited) (elem t cs) r (subst (λ y. (y == "") ≡ false) e h)
                (subst (λ y. elem y visited ≡ false) e k))))
          (λ _. add_candidates-keeps (cs ++ (t ∷ [])) ts (mem-append_right cs (Memᴰ.head refl))))

-- The nodes that the position of the run leads to: the selected route of the current step, or the
-- targets of the current node.
abbrev pub position : RunDetail → String
position d = current_node d.run (current_step none (reached d.steps))

abbrev pub leads_to : RunDetail → Workflow → List String
leads_to d wf = proposed wf (position d) (current_step none (reached d.steps))

abbrev pub visited_of : RunDetail → List String
visited_of d = nodes_of (reached d.steps)

abbrev pub first_of : RunDetail → ℕ
first_of d = next_sequence 0 (reached d.steps)

-- `rows` are the added steps, the last one first.
pub record Extends (wf : Workflow) (d e : RunDetail) : Type 0 where
  pub rows : List StepEntry
  pub extended : e ≡ record d { steps = d.steps ++ reverse rows }
  pub are_rows : AreRows d.run.id wf (visited_of d) (leads_to d wf) (first_of d) rows
  pub above : All (λ s. s.sequence < first_of d) (reached d.steps)
  pub finished : same_state d.run.state completed ≡ true → e ≡ d
  pub complete :
      same_state d.run.state completed ≡ false
      → (position d == "") ≡ false
      → (name : String) → Memᴰ name (leads_to d wf)
      → ((n : Node) × (lookup name wf.nodes ≡ some n))
      → (name == "") ≡ false
      → elem name (visited_of d) ≡ false
      → elem name (nodes_of rows) ≡ true

module _ (d : RunDetail) (wf : Workflow) where
  unchanged : same_state d.run.state completed ≡ true ⊎ (position d == "") ≡ true → Extends wf d d
  unchanged why = record {
    rows = [];
    extended = ap (λ k. record d { steps = k }) (sym (append-nil d.steps));
    are_rows = tt;
    above = next_sequence-above 0 (reached d.steps);
    finished = λ h. refl;
    complete = λ h k. elim why [ inl x ↦ cc (x, h) | inr x ↦ cc (x, k) ];
  }

  add_after-Extends :
      same_state d.run.state completed ≡ false
      → (e : RunDetail) × (add_after d wf (reached d.steps) (position d) ≡ some e) × Extends wf d e
  add_after-Extends ongoing =
      let candidates = add_candidates (visited_of d) [] (leads_to d wf) in
      let routed = is_routed (position d) (current_step none (reached d.steps)) in
      let start : Added = record { rows = []; next = first_of d } in
      let (a, ran, good, keeps, holds) =
        append_all-Ran d.run.id wf (visited_of d) (leads_to d wf) (first_of d)
          (suc (length wf.nodes)) routed candidates start
          (record { rows = tt; count = omega arith })
          (λ name m. elim (add_candidates-sound (visited_of d) [] (leads_to d wf) m) [
            | inl x ↦ elim x [ ]
            | inr x ↦ target x
          ])
          (omega arith) in
      (
        record d { steps = d.steps ++ reverse a.rows },
        rw ran refl,
        record {
          rows = a.rows;
          extended = refl;
          are_rows = good.rows;
          above = next_sequence-above 0 (reached d.steps);
          finished = λ h. cc (h, ongoing);
          complete = λ h k name m x y z.
              holds name (add_candidates-complete (visited_of d) [] (leads_to d wf) m y z) x y z;
        },
      )

-- `AddPendingNodes` ends on its fuel, for any definition, also one whose routes go round. The recorded
-- steps stand first and unchanged. The added ones are pending steps of the run; each is of a node that
-- exists, that was not reached, and that no other added step is of, and is a target of the position of
-- the run (the selected route of the current step, or else any route of the current node) or follows
-- one by nodes with a sole route. Their sequences go up by one from the first that is above all those
-- of the reached steps. A completed run is left as it is. For any other that has a position every
-- target of the position that exists and was not reached has an added step.
pub add_pending_nodes-Extends :
    (d : RunDetail) (wf : Workflow)
    → (e : RunDetail) × (add_pending_nodes d wf ≡ some e) × Extends wf d e
unfolding add_pending_nodes
add_pending_nodes-Extends d wf =
    either_way (λ m. (e : RunDetail) × (m ≡ some e) × Extends wf d e)
      (same_state d.run.state completed) _ _ (λ h. (d, refl, unchanged d wf (inl h)))
      (λ h.
        either_way (λ m. (e : RunDetail) × (m ≡ some e) × Extends wf d e) (position d == "") _ _
          (λ k. (d, refl, unchanged d wf (inr k))) (λ k. add_after-Extends d wf h))
