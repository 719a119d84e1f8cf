-- ===== src/Service/Restart.antt =====
-- A submission of internal/workflow/service.go, and the start-up after it: recovery and load of
-- internal/workflow/store.go.
use relay_flow.Prelude.{
  String, Option, none, some, List, [], Result, ok, err, ◌≡◌, ◌⊎◌, inl, inr, refl, sym, subst, ◌∙◌,
}
use relay_flow.Workflow.{Workflow}
use relay_flow.Workflow.Name.{codes}
use relay_flow.Registry.Laws.{IsKeyed}
use relay_flow.Store.Disk.{Fate, Disk, FileSnapshot, Ran, returned}
use relay_flow.Store.Recovery.{settled, recover, Ends, done, failed, halted}
use relay_flow.Store.Crashes.{IsWhole, Settles, final-Settles}
use relay_flow.Store.Replace.{Either}
use relay_flow.Store.Load.{Read, missing, found, Loader, load_record}
use relay_flow.Store.Files.{hash_text}
use relay_flow.Store.Load.Hex.{IsDigest, trim_space-hash_text}
use relay_flow.Store.Load.Trust.{IsTrusted, IsHealthy, trusted-IsHealthy}
use relay_flow.Service.{ServiceError, Ports, State, check_submission, submit_checked, submit}
use relay_flow.Service.Accepts.{Passes, check_submission-Passes}
use relay_flow.Service.Outcomes.{AfterRefusal-Either}
use relay_flow.Service.Submits.{Submitted, stored_pair, submit_checked-Ends}
use relay_flow.Store.Startup.{recover_settled}

abbrev pub read_of : Option String → Read
read_of none = missing
read_of (some text) = found text

-- The loader has the parser and the sum of the service; the sum is written as its digits alone.
pub record Agrees (p : Ports) (l : Loader) : Type 0 where
  pub parse : (yaml : String) → l.parse yaml ≡ p.parse yaml
  pub sum : (yaml : String) → l.sum yaml ≡ p.sum yaml
  pub digest : (yaml : String) → IsDigest (codes (l.sum yaml))

stored-IsTrusted :
    (p : Ports) (l : Loader) (st : State) (yaml : String) (w : Workflow)
    → Agrees p l
    → Passes p st yaml w
    → IsTrusted l w.name (found yaml) (found (hash_text (p.sum yaml))) w
stored-IsTrusted p l st yaml w a h = record {
  raw = yaml;
  text = hash_text (p.sum yaml);
  reads = refl;
  parses = a.parse yaml ∙ h.parses;
  named = refl;
  hash_reads = refl;
  accepted = rw (← a.sum yaml) (rw (trim_space-hash_text (l.sum yaml) (a.digest yaml).digits) refl);
  valid = h.valid;
}

-- A start-up whose accesses work: the recovery ends, and what it leaves is the old pair, or loads as
-- the healthy workflow that was submitted.
abbrev pub Restarts : Ports → Loader → State → String → FileSnapshot → Disk → Type 0
Restarts p l st yaml old x =
    (y : Disk) × (recover x [] ≡ returned (ok tt) y [])
    × ((y.pair ≡ old)
        ⊎ ((w : Workflow) × Passes p st yaml w
            × IsHealthy (load_record l w.name (read_of y.pair.yaml) (read_of y.pair.hash)) w))

module _ (p : Ports) (l : Loader) (st : State) (yaml : String) (old : FileSnapshot)
    (agrees : Agrees p l) where
  old-Restarts : (x : Disk) → Settles old x → Restarts p l st yaml old x
  old-Restarts x h = let (y, e, q) = recover_settled old x h in (y, e, inl q)

  new-Restarts :
      (w : Workflow) (x : Disk)
      → Passes p st yaml w
      → Settles (stored_pair p yaml) x
      → Restarts p l st yaml old x
  new-Restarts w x passes h =
      let (y, e, q) = recover_settled (stored_pair p yaml) x h in
      let load =
        trusted-IsHealthy l w.name (found yaml) (found (hash_text (p.sum yaml))) w agrees.digest
          (stored-IsTrusted p l st yaml w agrees passes) in
      let loaded =
        subst
          (λ (z : FileSnapshot).
            IsHealthy (load_record l w.name (read_of z.yaml) (read_of z.hash)) w)
          (sym q) load in
      (y, e, inr (w, passes, loaded))

  Either-Restarts :
      (w : Workflow) (x : Disk)
      → Passes p st yaml w
      → Either old (stored_pair p yaml) x
      → Restarts p l st yaml old x
  Either-Restarts w x passes (inl h) = old-Restarts x h
  Either-Restarts w x passes (inr h) = new-Restarts w x passes h

Ends-widen :
    {A : Type 0} {Good Better : A → Disk → Type 0} {Halt Better_halt : Disk → Type 0} {r : Ran A}
    → ((a : A) (d : Disk) → Good a d → Better a d)
    → ((d : Disk) → Halt d → Better_halt d)
    → Ends Good (λ e x. ⊥) Halt r
    → Ends Better (λ e x. ⊥) Better_halt r
Ends-widen f g (done {a} {d} h) = done (f a d h)
Ends-widen f g (failed h) = absurd h
Ends-widen f g (halted {d} h) = halted (g d h)

module _ (p : Ports) (l : Loader) (st : State) (yaml : String) (agrees : Agrees p l) where
  Submitted-Restarts :
      (old : FileSnapshot) (w : Workflow) (r : Result ServiceError Workflow) (st' : State)
      (x : Disk)
      → Passes p st yaml w
      → Submitted p st yaml old r st' x
      → Restarts p l st yaml old x
  Submitted-Restarts old w (ok v) st' x passes (u, uses, same, c) =
      new-Restarts p l st yaml old agrees u x uses (final-Settles c.disk)
  Submitted-Restarts old w (err e) st' x passes h =
      Either-Restarts p l st yaml old agrees w x passes
        (AfterRefusal-Either old (stored_pair p yaml) e x h.disk)

  checked-Restarts :
      (d : Disk) (s : List Fate) (r : Result ServiceError Workflow)
      → check_submission p st yaml ≡ r
      → IsKeyed st.registry
      → Settles d.pair d
      → Ends
          (λ a x. Restarts p l st yaml d.pair x)
          (λ e x. ⊥)
          (Restarts p l st yaml d.pair)
          (submit_checked p st yaml r d s)
  checked-Restarts d s (err e) h keyed at_rest =
      done (old-Restarts p l st yaml d.pair agrees d at_rest)
  checked-Restarts d s (ok w) h keyed at_rest =
      let passes = check_submission-Passes p st yaml h in
      Ends-widen (λ a x. Submitted-Restarts d.pair w a.result a.state x passes)
        (λ x. Either-Restarts p l st yaml d.pair agrees w x passes)
        (submit_checked-Ends p st yaml d s (ok w) h keyed at_rest)

-- However a submission ends, and also where the process stops in it, under every schedule of failures
-- and crashes, from a disk at rest: a start-up after it whose accesses work ends its recovery, and
-- then the files are the pair from before, or the loader, which has the parser and the sum of the
-- service, makes a healthy record of the submitted workflow, which had passed every check.
pub submit-Restarts :
    (p : Ports) (l : Loader) (st : State) (yaml : String) (d : Disk) (s : List Fate)
    → Agrees p l
    → IsKeyed st.registry
    → IsWhole d
    → settled d ≡ d.pair
    → Ends
        (λ a x. Restarts p l st yaml d.pair x)
        (λ e x. ⊥)
        (Restarts p l st yaml d.pair)
        (submit p st yaml d s)
unfolding submit
submit-Restarts p l st yaml d s agrees keyed w quiet =
    checked-Restarts p l st yaml agrees d s (check_submission p st yaml) refl keyed
      (record { whole = w; settles = quiet })
