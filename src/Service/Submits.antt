-- ===== src/Service/Submits.antt =====
-- `Submit` of internal/workflow/service.go, under failures and crashes.
use relay_flow.Prelude.{String, some, List, Result, ok, err, ◌≡◌, refl, subst, ◌∙◌}
use relay_flow.Workflow.{Workflow}
use relay_flow.Workflow.Health.{mark_healthy}
use relay_flow.Registry
use relay_flow.Registry.{Entries, replace}
use relay_flow.Registry.Laws.{IsKeyed, get-replace, replace-IsKeyed}
use relay_flow.Store.Disk.{Fate, Disk, FileSnapshot}
use relay_flow.Store.Files.{hash_text, put}
use relay_flow.Store.Recovery.{settled, Ends, done}
use relay_flow.Store.Crashes.{IsWhole, Settles, IsFinal}
use relay_flow.Store.Replace.{Either, AfterFailure, put_ends}
use relay_flow.Service.{
  ServiceError, Ports, State, check_submission, unreplace, submit_checked, submit,
}
use relay_flow.Service.Changes.{change_ends}
use relay_flow.Service.Outcomes.{Refused, Committed, Replied, Settles-AfterRefusal}
use relay_flow.Service.Accepts.{Passes, check_submission-Passes}
use relay_flow.Service.WayBack.{unreplaced, unreplace-IsKeyed, Ends-map}

abbrev pub stored_pair : Ports → String → FileSnapshot
stored_pair p yaml = record { yaml = some yaml; hash = some (hash_text (p.sum yaml)) }

-- How a submission ends.
abbrev pub Submitted :
    Ports → State → String → FileSnapshot → Result ServiceError Workflow → State → Disk → Type 0
Submitted p st yaml old (ok v) st' d =
    (w : Workflow) × Passes p st yaml w
    × (v ≡ mark_healthy w)
    × Committed p st (replace v) (stored_pair p yaml) st' d
Submitted p st yaml old (err e) st' d = Refused p st old (stored_pair p yaml) e st' d

accepted_reply :
    (p : Ports) (st : State) (yaml : String) (old : FileSnapshot) (w : Workflow)
    (r : Result ServiceError Workflow) (st' : State) (d : Disk)
    → Passes p st yaml w
    → Replied p st (replace (mark_healthy w)) old (stored_pair p yaml) (mark_healthy w) r st' d
    → Submitted p st yaml old r st' d
accepted_reply p st yaml old w (ok v) st' d passes h = (w, passes, h.0, rw h.0 h.1)
accepted_reply p st yaml old w (err e) st' d passes h = h

pub submit_checked-Ends :
    (p : Ports) (st : State) (yaml : String) (d : Disk) (s : List Fate)
    (r : Result ServiceError Workflow)
    → check_submission p st yaml ≡ r
    → IsKeyed st.registry
    → Settles d.pair d
    → Ends
        (λ a x. Submitted p st yaml d.pair a.result a.state x)
        (λ e x. ⊥)
        (Either d.pair (stored_pair p yaml))
        (submit_checked p st yaml r d s)
unfolding mark_healthy Registry.get
submit_checked-Ends p st yaml d s (err e) h keyed at_rest = done (record {
  memory = record { entries = λ n. refl; keyed = keyed; synced = λ k _. k };
  disk = Settles-AfterRefusal d.pair (stored_pair p yaml) e d at_rest;
})
submit_checked-Ends p st yaml d s (ok w) h keyed at_rest =
    let accepted = mark_healthy w in
    let before = Registry.get w.name st.registry in
    let placed = replace-IsKeyed accepted st.registry keyed in
    Ends-map
      (λ a x.
        accepted_reply p st yaml d.pair w a.result a.state x (check_submission-Passes p st yaml h))
      (change_ends p st (replace accepted) (unreplace w.name before) accepted d.pair
        (stored_pair p yaml) keyed placed
        (unreplace-IsKeyed st.registry keyed w.name before (replace accepted st.registry) placed)
        (unreplaced st.registry keyed w.name (replace accepted st.registry) before refl
          (λ k ne. get-replace k accepted st.registry ∙ rw ne refl))
        (put p.sum yaml)
        (λ x s' a b c.
          subst
            (λ q.
              Ends (λ u y. IsFinal (stored_pair p yaml) y) (AfterFailure q (stored_pair p yaml))
                (Either q (stored_pair p yaml)) (put p.sum yaml x s'))
            c (put_ends p.sum yaml x s' a b))
        d s refl at_rest)

-- From a disk at rest and a registry that has each name once, under every schedule of failures and
-- crashes of the files of the workflow, and whatever the callbacks answer. Where `Submit` accepts a
-- definition, it parsed, is valid, lists registered repos, had no active run and passed the callbacks;
-- the files hold it with its sum and no journal, the registry has it as healthy and is otherwise as
-- before, and the bindings of the repos are those of the new registry (where `Rebind` is set). Where
-- it refuses, the registry has the same workflows under the same names as before, the next recovery
-- brings back the old files, and bindings that were those of the registry still are; but if the way
-- back failed as well, the next recovery brings about the old pair or the new one, and nothing is
-- said of the bindings. Where the process stops in it, the next recovery brings about one of the two
-- pairs whole. No error of the store escapes.
pub submit-Ends :
    (p : Ports) (st : State) (yaml : String) (d : Disk) (s : List Fate)
    → IsKeyed st.registry
    → IsWhole d
    → settled d ≡ d.pair
    → Ends
        (λ a x. Submitted p st yaml d.pair a.result a.state x)
        (λ e x. ⊥)
        (Either d.pair (stored_pair p yaml))
        (submit p st yaml d s)
unfolding submit
submit-Ends p st yaml d s keyed w quiet =
    submit_checked-Ends p st yaml d s (check_submission p st yaml) refl keyed
      (record { whole = w; settles = quiet })
