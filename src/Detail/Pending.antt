-- ===== src/Detail/Pending.antt =====
-- `AddPendingNodes` of internal/run/detail.go ends, and what it adds.
use relay_flow.Prelude.{
  ℕ, zero, suc, ◌+◌, ◌<◌, String, Bool, true, false, not, some, List, [], ◌∷◌, Memᴰ, elem, length,
  lookup, ◌==◌, ==_refl, ◌||◌, Bool-cases, Option-cases, ◌≡◌, inl, inr, refl, sym, subst, arith,
}
use relay_flow.Workflow.{Node, Workflow, all_routes, end_node}
use relay_flow.Detail.{
  Added, added_nodes, push, follows, single, is_skipped, append_pending, append_all,
}
use relay_flow.Detail.Rows.{IsDownstream, next, AreRows}
use relay_flow.Detail.Counts.{missing, missing-le, missing-fewer}

skipped-cases : (a b c : Bool) → (a || b || c) ≡ true → a ≡ false → b ≡ false → c ≡ true
skipped-cases a b c h k l = ground arith

not_skipped : (a b c : Bool) → (a || b || c) ≡ false → (b ≡ false) × (c ≡ false)
not_skipped a b c h = (ground arith, ground arith)

follows-single :
    (follow_single : Bool) (name : String) (n : Node) {goal : String}
    → follows follow_single name n ≡ some goal
    → single (all_routes n) ≡ some goal
follows-single follow_single name n h = elim (Bool-cases (not follow_single || name == end_node)) [
  | inl e ↦ cc (rw e at h)
  | inr e ↦ rw e at h
]

module _ (run_id : String) (wf : Workflow) (visited targets : List String) (first : ℕ) where
  pub record IsAdded (a : Added) : Type 0 where
    pub rows : AreRows run_id wf visited targets first a.rows
    pub count : a.next ≡ first + length a.rows

  -- A node that exists and was not reached has a row.
  abbrev pub Holds : String → Added → Type 0
  Holds name b =
      ((n : Node) × (lookup name wf.nodes ≡ some n))
      → (name == "") ≡ false
      → elem name visited ≡ false
      → elem name (added_nodes b) ≡ true

  abbrev pub Keeps : Added → Added → Type 0
  Keeps a b = (name : String) → elem name (added_nodes a) ≡ true → elem name (added_nodes b) ≡ true

  pub record Ran (name : String) (a b : Added) : Type 0 where
    pub good : IsAdded b
    pub keeps : Keeps a b
    pub holds : Holds name b

  push-IsAdded :
      (name : String) (n : Node) (a : Added)
      → IsAdded a
      → IsDownstream wf targets name
      → lookup name wf.nodes ≡ some n
      → elem name visited ≡ false
      → elem name (added_nodes a) ≡ false
      → IsAdded (push run_id name n a)
  push-IsAdded name n a good why found new unseen = record {
    rows = (
      record {
        waits = refl;
        of_run = refl;
        exists = (n, found);
        unvisited = new;
        fresh = unseen;
        number = good.count;
        reason = why;
      },
      good.rows,
    );
    count = omega (arith, good.count);
  }

  push-Keeps : (name : String) (n : Node) (a : Added) → Keeps a (push run_id name n a)
  push-Keeps name n a k h = ground arith

  push-elem :
      (name : String) (n : Node) (a : Added) → elem name (added_nodes (push run_id name n a)) ≡ true
  push-elem name n a = rw (==_refl name) refl

  append_pending-Ran :
      (fuel : ℕ) (name : String) (follow_single : Bool) (a : Added)
      → IsAdded a
      → IsDownstream wf targets name
      → missing (added_nodes a) wf.nodes < fuel
      → (b : Added) × (append_pending run_id wf visited fuel name follow_single a ≡ some b)
        × Ran name a b
  unfolding append_pending
  append_pending-Ran zero name follow_single a good why less = absurd (omega (arith, less))
  append_pending-Ran (suc fuel) name follow_single a good why less =
      elim (Bool-cases (is_skipped run_id wf visited name a)) [
        | inl e ↦
            rw (e, append_pending)
              (
                a,
                refl,
                record {
                  good = good;
                  keeps = λ k h. h;
                  holds = λ x k l. skipped-cases (name == "") (elem name visited) _ e k l;
                },
              )
        | inr e ↦ elim (Option-cases (lookup name wf.nodes)) [
          | inl f ↦
              rw (e, f, append_pending)
                (a, refl, record { good = good; keeps = λ k h. h; holds = λ x k l. cc (f, x.1) })
          | inr (n, f) ↦
              let (new, unseen) = not_skipped (name == "") (elem name visited) _ e in
              let pushed = push-IsAdded name n a good why f new unseen in
              elim (Option-cases (follows follow_single name n)) [
                | inl g ↦
                    rw (e, f, g, append_pending)
                      (
                        push run_id name n a,
                        refl,
                        record {
                          good = pushed;
                          keeps = push-Keeps name n a;
                          holds = λ x k l. push-elem name n a;
                        },
                      )
                | inr (goal, g) ↦
                    let (b, ran, r) =
                      append_pending-Ran fuel goal true (push run_id name n a) pushed
                        (next why f (follows-single follow_single name n g))
                        (omega
                          (arith, less, missing-fewer name (added_nodes a) wf.nodes f unseen)) in
                    rw (e, f, g, append_pending)
                      (
                        b,
                        ran,
                        record {
                          good = r.good;
                          keeps = λ k h. r.keeps k (push-Keeps name n a k h);
                          holds = λ x k l. r.keeps name (push-elem name n a);
                        },
                      )
              ]
        ]
      ]

  pub append_all-Ran :
      (fuel : ℕ) (follow_single : Bool) (cs : List String) (a : Added)
      → IsAdded a
      → ((name : String) → Memᴰ name cs → IsDownstream wf targets name)
      → length wf.nodes < fuel
      → (b : Added) × (append_all run_id wf visited fuel follow_single cs a ≡ some b)
        × IsAdded b
        × Keeps a b
        × ((name : String) → Memᴰ name cs → Holds name b)
  unfolding append_all
  append_all-Ran fuel follow_single [] a good why less =
      (a, refl, good, λ k h. h, λ k m. elim m [ ])
  append_all-Ran fuel follow_single (c ∷ cs) a good why less =
      let (b, ran, r) =
        append_pending-Ran fuel c follow_single a good (why c (Memᴰ.head refl))
          (omega (arith, less, missing-le (added_nodes a) wf.nodes)) in
      let (e, all, fine, keeps, holds) =
        append_all-Ran fuel follow_single cs b r.good (λ k m. why k (Memᴰ.tail m)) less in
      rw (ran, append_all)
        (
          e,
          all,
          fine,
          λ k h. keeps k (r.keeps k h),
          λ k m. elim m [
            | Memᴰ.head p ↦ subst (λ x. Holds x e) (sym p) (λ x y z. keeps c (r.holds x y z))
            | Memᴰ.tail q ↦ holds k q
          ],
        )
