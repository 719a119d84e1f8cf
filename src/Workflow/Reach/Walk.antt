-- ===== src/Workflow/Reach/Walk.antt =====
-- The walk of `validateReachability` in internal/workflow/workflow.go ends with its queue empty,
-- and visits the nodes that the routes reach from `start`, and no other.
use relay_flow.Prelude.{
  ℕ, zero, suc, ◌+◌, ◌≤◌, String, true, false, some, List, [], ◌∷◌, ◌++◌, Memᴰ, elem, elem-mem,
  mem-append_left, mem-append_right, mem-append_cases, length, length-append, ◌==◌, ==-eq, eq_iff,
  Bool-cases, if◌then◌else◌, ◌≡◌, refl, sym, ap, subst, ◌↔◌, ◌⊎◌, inl, inr, arith,
}
use mathlib.Core.Option.{some-injective}
use relay_flow.Workflow.{Node, all_routes, targets, start_node}
use relay_flow.Workflow.Reach.{adj, walk, edge_count, visited_from_start}

-- A route of the entry `a` leads to `b`.
abbrev pub HasEdge : List (String × Node) → String → String → Type 0
HasEdge nodes a b = (n : Node) × Memᴰ (a, n) nodes × Memᴰ b (targets (all_routes n))

pub data Reachable (nodes : List (String × Node)) : String → Type 0 where
  start : {a : String} → a ≡ start_node → Reachable nodes a
  step : {a b : String} → Reachable nodes a → HasEdge nodes a b → Reachable nodes b

adj_sound : (nodes : List (String × Node)) (a b : String) → Memᴰ b (adj nodes a) → HasEdge nodes a b
unfolding adj
adj_sound [] a b m = elim m [ ]
adj_sound ((j, n) ∷ nodes) a b m = elim (Bool-cases (j == a)) [
  | inl e ↦ elim (mem-append_cases (targets (all_routes n)) (adj nodes a) (rw e at m)) [
    | inl l ↦ (n, Memᴰ.head (ap (λ k. (k, n)) (sym (==-eq e))), l)
    | inr r ↦ let (n', p, q) = adj_sound nodes a b r in (n', Memᴰ.tail p, q)
  ]
  | inr e ↦ let (n', p, q) = adj_sound nodes a b (rw e at m) in (n', Memᴰ.tail p, q)
]

adj_complete :
    (nodes : List (String × Node)) (a b : String) (n : Node)
    → Memᴰ (a, n) nodes
    → Memᴰ b (targets (all_routes n))
    → Memᴰ b (adj nodes a)
unfolding adj
adj_complete [] a b n m r = elim m [ ]
adj_complete ((j, n') ∷ nodes) a b n (Memᴰ.head e) r =
    let same : (j == a) ≡ true = (eq_iff j a).1 (ap (λ p. p.0) (sym e)) in
    rw same (
      mem-append_left (adj nodes a)
        (subst (λ k. Memᴰ b (targets (all_routes k))) (ap (λ p. p.1) e) r))
adj_complete ((j, n') ∷ nodes) a b n (Memᴰ.tail m) r = elim (Bool-cases (j == a)) [
  | inl e ↦ rw e (mem-append_right (targets (all_routes n')) (adj_complete nodes a b n m r))
  | inr e ↦ rw e (adj_complete nodes a b n m r)
]

-- The edges of the entries that are not yet visited.
unvisited_edges : List String → List (String × Node) → ℕ
unvisited_edges visited [] = 0
unvisited_edges visited ((j, n) ∷ nodes) =
    let rest = unvisited_edges visited nodes in
    if elem j visited then rest else length (targets (all_routes n)) + rest

unvisited_edges-nil : (nodes : List (String × Node)) → unvisited_edges [] nodes ≡ edge_count nodes
unfolding unvisited_edges edge_count
unvisited_edges-nil [] = refl
unvisited_edges-nil ((j, n) ∷ nodes) =
    ap (λ k. length (targets (all_routes n)) + k) (unvisited_edges-nil nodes)

unvisited_edges-visit :
    (nodes : List (String × Node)) (visited : List String) (cur : String)
    → elem cur visited ≡ false
    → length (adj nodes cur) + unvisited_edges (cur ∷ visited) nodes ≡ unvisited_edges visited nodes
unfolding unvisited_edges adj
unvisited_edges-visit [] visited cur h = omega arith
unvisited_edges-visit ((j, n) ∷ nodes) visited cur h = elim (Bool-cases (j == cur)) [
  | inl e ↦
      let new : elem j visited ≡ false = subst (λ k. elem k visited ≡ false) (sym (==-eq e)) h in
      rw (e, new)
        (omega (
          arith,
          unvisited_edges-visit nodes visited cur h,
          length-append (targets (all_routes n)) (adj nodes cur),
        ))
  | inr e ↦ rw e (ground (arith, unvisited_edges-visit nodes visited cur h))
]

-- Each round lowers the entries of the queue plus the unvisited edges by one, so that much fuel is
-- enough.
walk_total :
    (nodes : List (String × Node)) (fuel : ℕ) (visited queue : List String)
    → length queue + unvisited_edges visited nodes ≤ fuel
    → (out : List String) × (walk fuel (adj nodes) visited queue ≡ some out)
unfolding walk
walk_total nodes fuel visited [] h = (visited, refl)
walk_total nodes zero visited (cur ∷ queue) h = absurd (omega arith)
walk_total nodes (suc fuel) visited (cur ∷ queue) h = elim (Bool-cases (elem cur visited)) [
  | inl e ↦ rw (e, walk) (walk_total nodes fuel visited queue (omega arith))
  | inr e ↦
      rw (e, walk)
        (walk_total nodes fuel (cur ∷ visited) (queue ++ adj nodes cur) (
          omega (
            arith,
            length-append queue (adj nodes cur),
            unvisited_edges-visit nodes visited cur e,
          )))
]

module _ (nodes : List (String × Node)) where
  walk_sound :
      (fuel : ℕ) (visited queue out : List String)
      → ((a : String) → Memᴰ a visited → Reachable nodes a)
      → ((a : String) → Memᴰ a queue → Reachable nodes a)
      → walk fuel (adj nodes) visited queue ≡ some out
      → (a : String) → Memᴰ a out
      → Reachable nodes a
  unfolding walk
  walk_sound fuel visited [] out hv hq e =
      λ a m. hv a (subst (λ l. Memᴰ a l) (sym (some-injective visited out e)) m)
  walk_sound zero visited (cur ∷ queue) out hv hq e = cc
  walk_sound (suc fuel) visited (cur ∷ queue) out hv hq e = elim (Bool-cases (elem cur visited)) [
    | inl t ↦ walk_sound fuel visited queue out hv (λ a m. hq a (Memᴰ.tail m)) (rw (t, walk) at e)
    | inr t ↦
        let r = hq cur (Memᴰ.head refl) in
        walk_sound fuel (cur ∷ visited) (queue ++ adj nodes cur) out (λ a m. visit r a m)
          (λ a m. enqueue r a m) (rw (t, walk) at e)
  ]
    where
      visit : Reachable nodes cur → (a : String) → Memᴰ a (cur ∷ visited) → Reachable nodes a
      visit r a (Memᴰ.head p) = subst (Reachable nodes) (sym p) r
      visit r a (Memᴰ.tail m) = hv a m

      enqueue :
          Reachable nodes cur → (a : String) → Memᴰ a (queue ++ adj nodes cur) → Reachable nodes a
      enqueue r a m = elim (mem-append_cases queue (adj nodes cur) m) [
        | inl l ↦ hq a (Memᴰ.tail l)
        | inr l ↦ step r (adj_sound nodes cur a l)
      ]

  -- Where the edges of the visited nodes lead.
  abbrev Closed : List String → List String → Type 0
  Closed visited queue =
      (a b : String) → Memᴰ a visited → HasEdge nodes a b → Memᴰ b visited ⊎ Memᴰ b queue

  record Covers (visited queue out : List String) : Type 0 where
    keeps : (a : String) → Memᴰ a visited → Memᴰ a out
    takes : (a : String) → Memᴰ a queue → Memᴰ a out
    closed : (a b : String) → Memᴰ a out → HasEdge nodes a b → Memᴰ b out

  pass :
      (visited queue : List String) (cur : String)
      → Memᴰ cur visited
      → Closed visited (cur ∷ queue)
      → Closed visited queue
  pass visited queue cur seen c a b m e = elim (c a b m e) [
    | inl l ↦ inl l
    | inr (Memᴰ.head p) ↦ inl (subst (λ k. Memᴰ k visited) (sym p) seen)
    | inr (Memᴰ.tail r) ↦ inr r
  ]

  visit-Closed :
      (visited queue : List String) (cur : String)
      → Closed visited (cur ∷ queue)
      → Closed (cur ∷ visited) (queue ++ adj nodes cur)
  visit-Closed visited queue cur c a b (Memᴰ.head p) (n, q, r) =
      inr
        (mem-append_right queue (adj_complete nodes cur b n (subst (λ k. Memᴰ (k, n) nodes) p q) r))
  visit-Closed visited queue cur c a b (Memᴰ.tail m) e = elim (c a b m e) [
    | inl l ↦ inl (Memᴰ.tail l)
    | inr (Memᴰ.head p) ↦ inl (Memᴰ.head p)
    | inr (Memᴰ.tail r) ↦ inr (mem-append_left (adj nodes cur) r)
  ]

  walk_complete :
      (fuel : ℕ) (visited queue out : List String)
      → Closed visited queue
      → walk fuel (adj nodes) visited queue ≡ some out
      → Covers visited queue out
  unfolding walk
  walk_complete fuel visited [] out c e =
      subst (Covers visited []) (some-injective visited out e) (record {
        keeps = λ a m. m;
        takes = λ a m. elim m [ ];
        closed = λ a b m h. elim (c a b m h) [ inl l ↦ l | inr r ↦ elim r [ ] ];
      })
  walk_complete zero visited (cur ∷ queue) out c e = cc
  walk_complete (suc fuel) visited (cur ∷ queue) out c e = elim (Bool-cases (elem cur visited)) [
    | inl t ↦
        let seen = elem-mem cur visited t in
        let w =
          walk_complete fuel visited queue out (pass visited queue cur seen c)
            (rw (t, walk) at e) in
        record {
          keeps = w.keeps;
          takes = λ a m. elim m [
            | Memᴰ.head p ↦ w.keeps a (subst (λ k. Memᴰ k visited) (sym p) seen)
            | Memᴰ.tail r ↦ w.takes a r
          ];
          closed = w.closed;
        }
    | inr t ↦
        let w =
          walk_complete fuel (cur ∷ visited) (queue ++ adj nodes cur) out
            (visit-Closed visited queue cur c) (rw (t, walk) at e) in
        record {
          keeps = λ a m. w.keeps a (Memᴰ.tail m);
          takes = λ a m. elim m [
            | Memᴰ.head p ↦ w.keeps a (Memᴰ.head p)
            | Memᴰ.tail r ↦ w.takes a (mem-append_left (adj nodes cur) r)
          ];
          closed = w.closed;
        }
  ]

-- The walk of `validateReachability` takes every entry off its queue, and what it has visited then
-- is exactly what the routes reach from `start`.
pub visited_from_start_exact :
    (nodes : List (String × Node))
    → (out : List String) × (visited_from_start nodes ≡ some out)
      × ((a : String) → Memᴰ a out ↔ Reachable nodes a)
unfolding visited_from_start
visited_from_start_exact nodes =
    let (out, e) =
      walk_total nodes (1 + edge_count nodes) [] (start_node ∷ [])
        (omega (arith, unvisited_edges-nil nodes)) in
    let c =
      walk_complete nodes (1 + edge_count nodes) [] (start_node ∷ []) out (λ a b m h. elim m [ ])
        e in
    (
      out,
      e,
      λ a. (
        walk_sound nodes (1 + edge_count nodes) [] (start_node ∷ []) out (λ b m. elim m [ ])
            (λ b m. elim m [ Memᴰ.head p ↦ start p | Memᴰ.tail r ↦ elim r [ ] ]) e a,
        reached out c a,
      ),
    )
  where
    reached :
        (out : List String)
        → Covers nodes [] (start_node ∷ []) out
        → (a : String) → Reachable nodes a
        → Memᴰ a out
    reached out c a (start p) = c.takes a (Memᴰ.head p)
    reached out c b (step {a = a} r h) = c.closed a b (reached out c a r) h
