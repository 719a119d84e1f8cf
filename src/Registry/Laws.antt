-- ===== src/Registry/Laws.antt =====
-- The methods of `Registry` of internal/workflow/store.go as changes of one function on names.
use Prim.Native.String.{compare}
use text.Mathlib.Text.{is_le}
use relay_flow.Prelude.{
  String, none, some, List, [], ◌∷◌, Memᴰ, lookup, ◌==◌, if◌then◌else◌, ==-eq, ==_refl, Bool-cases,
  eq_iff, ◌≡◌, ◌↔◌, inl, inr, refl, sym, subst, arith,
}
use relay_flow.Workflow.{Workflow}
use relay_flow.Registry.{Entries, replace, remove, insert, list}

-- Each key once, and the workflow under it has its name.
abbrev pub IsKeyed : Entries → Type 0
IsKeyed [] = Unit
IsKeyed ((k, w) ∷ m) = (w.name ≡ k) × (lookup k m ≡ none) × IsKeyed m

pub get-replace :
    (n : String) (w : Workflow) (m : Entries)
    → lookup n (replace w m) ≡ (if w.name == n then some w else lookup n m)
unfolding replace
get-replace n w [] = refl
get-replace n w ((k, v) ∷ m) = elim (Bool-cases (k == w.name)) [
  | inl e ↦ rw e (rw (==-eq e) (ground arith))
  | inr e ↦ rw e (ground (arith, get-replace n w m, eq_iff k w.name, eq_iff k n, eq_iff w.name n))
]

pub get-remove :
    (n k : String) (m : Entries) → lookup n (remove k m) ≡ (if k == n then none else lookup n m)
unfolding remove
get-remove n k [] = ground arith
get-remove n k ((j, v) ∷ m) = elim (Bool-cases (j == k)) [
  | inl e ↦ rw e (rw (==-eq e) (ground (arith, get-remove n k m)))
  | inr e ↦ rw e (ground (arith, get-remove n k m, eq_iff j k, eq_iff j n, eq_iff k n))
]

pub replace-IsKeyed : (w : Workflow) (m : Entries) → IsKeyed m → IsKeyed (replace w m)
unfolding replace
replace-IsKeyed w [] h = (refl, refl, tt)
replace-IsKeyed w ((k, v) ∷ m) h = elim (Bool-cases (k == w.name)) [
  | inl e ↦ rw (e, replace) (sym (==-eq e), h.1, h.2)
  | inr e ↦
      let absent : lookup k (replace w m) ≡ none =
        ground (arith, get-replace k w m, h.1, eq_iff k w.name, eq_iff w.name k) in
      rw (e, replace) (h.0, absent, replace-IsKeyed w m h.2)
]

pub remove-IsKeyed : (n : String) (m : Entries) → IsKeyed m → IsKeyed (remove n m)
unfolding remove
remove-IsKeyed n [] h = tt
remove-IsKeyed n ((k, v) ∷ m) h = elim (Bool-cases (k == n)) [
  | inl e ↦ rw (e, remove) (remove-IsKeyed n m h.2)
  | inr e ↦
      let absent : lookup k (remove n m) ≡ none = ground (arith, get-remove k n m, h.1) in
      rw (e, remove) (h.0, absent, remove-IsKeyed n m h.2)
]

pub insert_iff : (v w : Workflow) (ws : List Workflow) → Memᴰ v (insert w ws) ↔ Memᴰ v (w ∷ ws)
insert_iff v w [] = (λ m. m, λ m. m)
insert_iff v w (u ∷ us) = elim (Bool-cases (is_le (compare w.name u.name))) [
  | inl e ↦ rw e (λ m. m, λ m. m)
  | inr e ↦ rw e (
    λ m. elim m [
      | Memᴰ.head p ↦ Memᴰ.tail (Memᴰ.head p)
      | Memᴰ.tail r ↦ elim ((insert_iff v w us).0 r) [
        | Memᴰ.head p ↦ Memᴰ.head p
        | Memᴰ.tail q ↦ Memᴰ.tail (Memᴰ.tail q)
      ]
    ],
    λ m. elim m [
      | Memᴰ.head p ↦ Memᴰ.tail ((insert_iff v w us).1 (Memᴰ.head p))
      | Memᴰ.tail (Memᴰ.head p) ↦ Memᴰ.head p
      | Memᴰ.tail (Memᴰ.tail q) ↦ Memᴰ.tail ((insert_iff v w us).1 (Memᴰ.tail q))
    ],
  )
]

-- What is listed is what can be looked up.
pub list_iff :
    (w : Workflow) (m : Entries) → IsKeyed m → Memᴰ w (list m) ↔ (lookup w.name m ≡ some w)
unfolding list
list_iff w [] h = (λ m. elim m [ ], λ e. cc)
list_iff w ((k, v) ∷ m) h = (
  λ t. elim ((insert_iff w v (list m)).0 t) [
    | Memᴰ.head p ↦
        subst (λ (x : Workflow). (if k == x.name then some v else lookup x.name m) ≡ some x) (sym p)
          (rw (h.0, ==_refl k) refl)
    | Memᴰ.tail r ↦
        let there = (list_iff w m h.2).0 r in ground (arith, there, h.1, eq_iff k w.name)
  ],
  λ e. (insert_iff w v (list m)).1 (elim (Bool-cases (k == w.name)) [
    | inl s ↦ Memᴰ.head (ground (arith, e, s))
    | inr s ↦ Memᴰ.tail ((list_iff w m h.2).1 (ground (arith, e, s)))
  ]),
)
