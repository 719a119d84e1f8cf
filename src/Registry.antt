-- ===== src/Registry.antt =====
-- `Registry` of internal/workflow/store.go: the workflows in memory. The Go map `byID` is the list
-- of its entries; its lock makes each method one step.
pub mod Laws
pub mod Order
pub mod Refines
use Prim.Native.String.{compare}
use text.Mathlib.Text.{is_le}
use relay_flow.Prelude.{
  String, Bool, false, Option, List, [], ◌∷◌, lookup, elem, ◌==◌, ◌||◌, if◌then◌else◌,
}
use relay_flow.Workflow.{Workflow}

abbrev pub Entries : Type 0
Entries = List (String × Workflow)

-- `Get`
unfoldable pub get : String → Entries → Option Workflow
get = lookup

-- `Replace`: `byID[wf.Name] = wf`.
unfoldable pub replace : Workflow → Entries → Entries
replace w [] = (w.name, w) ∷ []
replace w ((k, v) ∷ m) = if k == w.name then (k, w) ∷ m else (k, v) ∷ replace w m

-- `Remove`: `delete(byID, name)`.
unfoldable pub remove : String → Entries → Entries
remove name [] = []
remove name ((k, v) ∷ m) = let rest = remove name m in if k == name then rest else (k, v) ∷ rest

abbrev pub insert : Workflow → List Workflow → List Workflow
insert w [] = w ∷ []
insert w (v ∷ vs) =
    let rest = insert w vs in if is_le (compare w.name v.name) then w ∷ v ∷ vs else v ∷ rest

-- `List`, sorted by name.
unfoldable pub list : Entries → List Workflow
list [] = []
list ((k, w) ∷ m) = insert w (list m)

-- `ReferencesRepo`
unfoldable pub references_repo : String → Entries → Bool
references_repo repo [] = false
references_repo repo ((k, w) ∷ m) = elem repo w.repos || references_repo repo m
