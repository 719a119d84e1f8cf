-- ===== src/Registry/Refines.antt =====
-- `Registry` of internal/workflow/store.go against a function from names to workflows.
use Prim.Native.String.{compare}
use text.Mathlib.Text.{is_le}
use relay_flow.Prelude.{
  String, true, Option, none, some, List, [], ◌∷◌, Memᴰ, lookup, elem, ◌==◌, eq_iff, if◌then◌else◌,
  ==_refl, Bool-cases, ◌≡◌, ◌↔◌, ◌∙◌, inl, inr, refl, sym, ap, arith,
}
use relay_flow.Workflow.{Workflow}
use relay_flow.Registry.{Entries, get, replace, remove, insert, list, references_repo}
use relay_flow.Registry.Order.{is_le_total}
use relay_flow.Registry.Laws.{
  IsKeyed, get-replace, get-remove, replace-IsKeyed, remove-IsKeyed, list_iff,
}

-- Each workflow's name is at most that of the next one.
abbrev IsLeast : Workflow → List Workflow → Type 0
IsLeast w [] = Unit
IsLeast w (v ∷ vs) = is_le (compare w.name v.name) ≡ true

abbrev pub IsSorted : List Workflow → Type 0
IsSorted [] = Unit
IsSorted (w ∷ ws) = IsLeast w ws × IsSorted ws

insert-IsLeast :
    (u w : Workflow) (ws : List Workflow)
    → is_le (compare u.name w.name) ≡ true
    → IsLeast u ws
    → IsLeast u (insert w ws)
insert-IsLeast u w [] a b = a
insert-IsLeast u w (v ∷ vs) a b = elim (Bool-cases (is_le (compare w.name v.name))) [
  | inl e ↦ rw e a
  | inr e ↦ rw e b
]

insert-IsSorted : (w : Workflow) (ws : List Workflow) → IsSorted ws → IsSorted (insert w ws)
insert-IsSorted w [] h = (tt, tt)
insert-IsSorted w (v ∷ vs) h = elim (Bool-cases (is_le (compare w.name v.name))) [
  | inl e ↦ rw e (e, h)
  | inr e ↦ rw e (insert-IsLeast v w vs (is_le_total w.name v.name e) h.0, insert-IsSorted w vs h.1)
]

list-IsSorted : (m : Entries) → IsSorted (list m)
unfolding list
list-IsSorted [] = tt
list-IsSorted ((k, w) ∷ m) = insert-IsSorted w (list m) (list-IsSorted m)

references_iff :
    (repo : String) (m : Entries)
    → IsKeyed m
    → (references_repo repo m ≡ true)
      ↔ ((w : Workflow) × (lookup w.name m ≡ some w) × (elem repo w.repos ≡ true))
unfolding references_repo
references_iff repo [] h = (λ e. cc, λ e. cc (e.1))
references_iff repo ((k, v) ∷ m) h = (
  λ e. elim (Bool-cases (elem repo v.repos)) [
    | inl y ↦ (v, rw (h.0, ==_refl k) refl, y)
    | inr n ↦
        let (w, there, lists) = (references_iff repo m h.2).0 (ground (arith, e, n)) in
        (w, ground (arith, there, h.1, eq_iff k w.name), lists)
  ],
  λ e. elim (Bool-cases (k == e.0.name)) [
    | inl s ↦
        let same : v ≡ e.0 = ground (arith, e.1, s) in
        let lists : elem repo v.repos ≡ true = rw same (e.2) in ground (arith, lists)
    | inr s ↦
        let rest = (references_iff repo m h.2).1 (e.0, ground (arith, e.1, s), e.2) in
        ground (arith, rest)
  ],
)

-- The registry as a client sees it: the function that `Get` reads, with the same workflows in the
-- list, in the order of their names, and in the question for a repo.
pub record Shows (m : Entries) (f : String → Option Workflow) : Type 0 where
  pub keyed : IsKeyed m
  pub reads : (n : String) → get n m ≡ f n
  pub lists : (w : Workflow) → Memᴰ w (list m) ↔ (f w.name ≡ some w)
  pub sorted : IsSorted (list m)
  pub references :
      (repo : String)
      → (references_repo repo m ≡ true)
        ↔ ((w : Workflow) × (f w.name ≡ some w) × (elem repo w.repos ≡ true))

pub shows :
    (m : Entries) (f : String → Option Workflow)
    → IsKeyed m
    → ((n : String) → lookup n m ≡ f n)
    → Shows m f
unfolding get
shows m f h r = record {
  keyed = h;
  reads = r;
  lists = λ w. rw (← r w.name) (list_iff w m h);
  sorted = list-IsSorted m;
  references = λ repo. (
    λ e. let (w, there, has) = (references_iff repo m h).0 e in (w, sym (r w.name) ∙ there, has),
    λ e. (references_iff repo m h).1 (e.0, r (e.0.name) ∙ e.1, e.2),
  );
}

pub data Change : Type 0 where
  replaced : Workflow → Change
  removed : String → Change

unfoldable pub run : List Change → Entries → Entries
run [] m = m
run (replaced w ∷ cs) m = run cs (replace w m)
run (removed n ∷ cs) m = run cs (remove n m)

-- The same changes of a function.
unfoldable pub replay : List Change → (String → Option Workflow) → String → Option Workflow
replay [] f = f
replay (replaced w ∷ cs) f = replay cs (λ n. if w.name == n then some w else f n)
replay (removed k ∷ cs) f = replay cs (λ n. if k == n then none else f n)

-- After any sequence of `Replace` and `Remove`, the registry shows the function that the same
-- changes make of the function it showed before: `Get` reads it, `List` has exactly its workflows,
-- sorted by name, and `ReferencesRepo` says exactly whether one of them lists the repo.
pub run_refines :
    (cs : List Change) (m : Entries) (f : String → Option Workflow)
    → Shows m f
    → Shows (run cs m) (replay cs f)
unfolding run replay get
run_refines [] m f h = h
run_refines (replaced w ∷ cs) m f h = run_refines cs (replace w m) _ (
    shows (replace w m) _ (replace-IsKeyed w m h.keyed)
      (λ n. get-replace n w m ∙ ap (λ o. if w.name == n then some w else o) (h.reads n)))
run_refines (removed k ∷ cs) m f h = run_refines cs (remove k m) _ (
    shows (remove k m) _ (remove-IsKeyed k m h.keyed)
      (λ n. get-remove n k m ∙ ap (λ o. if k == n then none else o) (h.reads n)))
