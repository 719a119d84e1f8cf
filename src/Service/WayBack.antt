-- ===== src/Service/WayBack.antt =====
-- How internal/workflow/service.go puts a registry entry back.
use relay_flow.Prelude.{
  String, false, Option, none, some, [], ◌∷◌, lookup, ◌==◌, eq_iff, Bool-cases, ◌≡◌, inl, inr,
  arith,
}
use relay_flow.Workflow.{Workflow}
use relay_flow.Registry
use relay_flow.Registry.{Entries, replace}
use relay_flow.Registry.Laws.{IsKeyed, get-replace, get-remove, replace-IsKeyed, remove-IsKeyed}
use relay_flow.Store.Disk.{Disk, StoreError, Ran}
use relay_flow.Store.Recovery.{Ends, done, failed, halted}
use relay_flow.Service.{unreplace, unremove}
use relay_flow.Service.Outcomes.{SameEntries}

module _ (m : Entries) (keyed : IsKeyed m) where
  named : (v : Workflow) (n : String) (e : Entries) → IsKeyed e → lookup n e ≡ some v → v.name ≡ n
  named v n [] k h = cc
  named v n ((j, u) ∷ e) k h = elim (Bool-cases (j == n)) [
    | inl s ↦ ground (arith, k.0, eq_iff j n)
    | inr s ↦ named v n e k.2 (ground arith)
  ]

  -- The old entry back under its name.
  pub unreplaced :
      (n : String) (e : Entries) (o : Option Workflow)
      → lookup n m ≡ o
      → ((k : String) → (n == k) ≡ false → lookup k e ≡ lookup k m)
      → SameEntries m (unreplace n o e)
  unreplaced n e none h others k = elim (Bool-cases (n == k)) [
    | inl s ↦ ground (arith, get-remove k n e, eq_iff n k)
    | inr s ↦ ground (arith, get-remove k n e, others k s)
  ]
  unreplaced n e (some v) h others k =
      let name = named v n m keyed h in
      elim (Bool-cases (n == k)) [
        | inl s ↦ ground (arith, get-replace k v e, eq_iff n k, eq_iff v.name k)
        | inr s ↦ ground (arith, get-replace k v e, others k s)
      ]

  pub unreplace-IsKeyed :
      (n : String) (o : Option Workflow) (e : Entries) → IsKeyed e → IsKeyed (unreplace n o e)
  unreplace-IsKeyed n none e h = remove-IsKeyed n e h
  unreplace-IsKeyed n (some v) e h = replace-IsKeyed v e h

  pub unremoved :
      (n : String) (o : Option Workflow)
      → lookup n m ≡ o
      → SameEntries m (unremove o (Registry.remove n m))
  unremoved n none h k = ground (arith, get-remove k n m, eq_iff n k)
  unremoved n (some v) h k =
      let name = named v n m keyed h in
      ground (
        arith,
        get-replace k v (Registry.remove n m),
        get-remove k n m,
        eq_iff n k,
        eq_iff v.name k,
      )

  pub unremove-IsKeyed :
      (n : String) (o : Option Workflow) → IsKeyed (unremove o (Registry.remove n m))
  unremove-IsKeyed n none = remove-IsKeyed n m keyed
  unremove-IsKeyed n (some v) = replace-IsKeyed v (Registry.remove n m) (remove-IsKeyed n m keyed)

pub Ends-map :
    {A : Type 0} {Good Better : A → Disk → Type 0} {Bad : StoreError → Disk → Type 0}
    {Halt : Disk → Type 0} {r : Ran A}
    → ((a : A) (d : Disk) → Good a d → Better a d)
    → Ends Good Bad Halt r
    → Ends Better Bad Halt r
Ends-map f (done {a} {d} h) = done (f a d h)
Ends-map f (failed h) = failed h
Ends-map f (halted h) = halted h
