-- ===== src/Service/Removes.antt =====
-- `Remove` of internal/workflow/service.go, under failures and crashes.
use relay_flow.Prelude.{String, false, none, List, Result, ok, err, ◌≡◌, refl, subst}
use relay_flow.Registry
use relay_flow.Registry.{Entries, replace}
use relay_flow.Registry.Laws.{IsKeyed, remove-IsKeyed}
use relay_flow.Store.Disk.{Fate, Disk, FileSnapshot}
use relay_flow.Store.Files.{remove}
use relay_flow.Store.Recovery.{settled, Ends, done}
use relay_flow.Store.Crashes.{IsWhole, Settles, IsFinal}
use relay_flow.Store.Replace.{Either, AfterFailure, remove_ends}
use relay_flow.Service.{
  ServiceError, Ports, State, check_active, unremove, remove_checked, remove_workflow,
}
use relay_flow.Service.Changes.{change_ends}
use relay_flow.Service.Outcomes.{Refused, Committed, Replied, Settles-AfterRefusal}
use relay_flow.Service.Accepts.{check_active-ok}
use relay_flow.Service.WayBack.{unremoved, unremove-IsKeyed, Ends-map}

abbrev pub absent_pair : FileSnapshot
absent_pair = record { yaml = none; hash = none }

-- How a removal ends.
abbrev pub Removed :
    Ports → State → String → FileSnapshot → Result ServiceError (Unit {0}) → State → Disk → Type 0
Removed p st name old (ok u) st' d =
    (p.has_active name ≡ ok false) × Committed p st (Registry.remove name) absent_pair st' d
Removed p st name old (err e) st' d = Refused p st old absent_pair e st' d

Removed-reply :
    (p : Ports) (st : State) (name : String) (old : FileSnapshot)
    (r : Result ServiceError (Unit {0})) (st' : State) (d : Disk)
    → p.has_active name ≡ ok false
    → Replied p st (Registry.remove name) old absent_pair tt r st' d
    → Removed p st name old r st' d
Removed-reply p st name old (ok v) st' d free h = (free, h.1)
Removed-reply p st name old (err e) st' d free h = h

remove_checked-Ends :
    (p : Ports) (st : State) (name : String) (d : Disk) (s : List Fate)
    (r : Result ServiceError (Unit {0}))
    → check_active p name ≡ r
    → IsKeyed st.registry
    → Settles d.pair d
    → Ends
        (λ a x. Removed p st name d.pair a.result a.state x)
        (λ e x. ⊥)
        (Either d.pair absent_pair)
        (remove_checked p st name r d s)
unfolding Registry.get
remove_checked-Ends p st name d s (err e) h keyed at_rest = done (record {
  memory = record { entries = λ n. refl; keyed = keyed; synced = λ k _. k };
  disk = Settles-AfterRefusal d.pair absent_pair e d at_rest;
})
remove_checked-Ends p st name d s (ok u) h keyed at_rest =
    let before = Registry.get name st.registry in
    Ends-map (λ a x. Removed-reply p st name d.pair a.result a.state x (check_active-ok p name h))
      (change_ends p st (Registry.remove name) (unremove before) tt d.pair absent_pair keyed
        (remove-IsKeyed name st.registry keyed) (unremove-IsKeyed st.registry keyed name before)
        (unremoved st.registry keyed name before refl) remove
        (λ x s' a b c.
          subst
            (λ q.
              Ends (λ u y. IsFinal absent_pair y) (AfterFailure q absent_pair)
                (Either q absent_pair) (remove x s'))
            c (remove_ends x s' a b))
        d s refl at_rest)

-- From a disk at rest and a registry that has each name once, under every schedule of failures and
-- crashes of the files of the workflow. Where `Remove` reports no error, the workflow had no active
-- run, its files are gone and there is no journal, it is gone from the registry, which is otherwise as
-- before, and the bindings of the repos are those of the new registry (where `Rebind` is set). Where
-- it refuses, the registry has the same workflows under the same names as before, the next recovery
-- brings back the old files, and bindings that were those of the registry still are; but if the way
-- back failed as well, the next recovery brings about the old pair or the removal, and nothing is
-- said of the bindings. Where the process stops in it, the next recovery brings about one of the two
-- whole. No error of the store escapes.
pub remove_workflow-Ends :
    (p : Ports) (st : State) (name : String) (d : Disk) (s : List Fate)
    → IsKeyed st.registry
    → IsWhole d
    → settled d ≡ d.pair
    → Ends
        (λ a x. Removed p st name d.pair a.result a.state x)
        (λ e x. ⊥)
        (Either d.pair absent_pair)
        (remove_workflow p st name d s)
unfolding remove_workflow
remove_workflow-Ends p st name d s keyed w quiet =
    remove_checked-Ends p st name d s (check_active p name) refl keyed
      (record { whole = w; settles = quiet })
