-- ===== src/Service/Changes.antt =====
-- One change of a workflow in internal/workflow/service.go: the write of the store, the registry and
-- the rebind, with the way back where the rebind fails; under failures and crashes.
use relay_flow.Prelude.{List, Result, ok, err, ◌≡◌, inl, inr, refl, sym, subst, ◌∙◌}
use relay_flow.Repo.Bind.{BindError}
use relay_flow.Registry.{Entries}
use relay_flow.Registry.Laws.{IsKeyed}
use relay_flow.Store.Disk.{Fate, Disk, FileSnapshot, StoreError, read_failed, Ran, Exec}
use relay_flow.Store.Recovery.{settled, Ends, done, failed, halted, Ends-snapshot}
use relay_flow.Store.Crashes.{IsWhole, Settles, IsFinal, final-Settles}
use relay_flow.Store.Replace.{Either, AfterFailure}
use relay_flow.Store.Compensation.{restore_pair-Ends}
use relay_flow.Service.{
  ServiceError, storage, Ports, State, caught, rebind_error, rebind, undo, commit, change,
  change_from,
}
use relay_flow.Service.Outcomes.{SameEntries, Undone, Refused, Answers}
use relay_flow.Service.Bindings.{Rebinds, rebind_lem}

Ends-attempt :
    {A B : Type 0} {Done : A → Disk → Type 0} {Stopped Halt : Disk → Type 0}
    {Good : B → Disk → Type 0} {Bad : StoreError → Disk → Type 0} {r : Ran B}
    (k : Result StoreError B → Exec A)
    → ((b : B) (d : Disk) (s : List Fate) → Good b d → Ends Done (λ e x. ⊥) Stopped (k (ok b) d s))
    → ((e : StoreError) (d : Disk) (s : List Fate)
        → Bad e d
        → Ends Done (λ e x. ⊥) Stopped (k (err e) d s))
    → ((d : Disk) → Halt d → Stopped d)
    → Ends Good Bad Halt r
    → Ends Done (λ e x. ⊥) Stopped (caught r k)
Ends-attempt k good bad stop (done {a} {d} {s} h) = good a d s h
Ends-attempt k good bad stop (failed {e} {d} {s} h) = bad e d s h
Ends-attempt k good bad stop (halted {d} h) = halted (stop d h)

swap-Either : {old new : FileSnapshot} (d : Disk) → Either new old d → Either old new d
swap-Either d (inl a) = inr a
swap-Either d (inr a) = inl a

module _ {A : Type 0} (p : Ports) (st : State) (forth back : Entries → Entries) (a : A)
    (old new : FileSnapshot) (keyed : IsKeyed st.registry)
    (keyed_forth : IsKeyed (forth st.registry)) (keyed_back : IsKeyed (back (forth st.registry)))
    (restores : SameEntries st.registry (back (forth st.registry))) where
  -- The state that the second rebind starts from, and the refusal after it.
  abbrev back_state : State
  back_state = record st { registry = back (forth st.registry) }

  refused :
      (e : BindError) (files : Result StoreError (Unit {0})) (bound : Result BindError (Unit {0}))
      (st' : State) (d : Disk)
      → Rebinds p.wired back_state bound st'
      → ((u : Unit {0}) → files ≡ ok u → IsFinal old d)
      → Either old new d
      → Refused p st old new (rebind_error e files bound) st' d
  refused e (ok u) (ok v) st' d r f g = record {
    memory = record {
      entries = rw (r.registry) restores;
      keyed = rw (r.registry) keyed_back;
      synced = λ _ _. r.synced refl;
    };
    disk = final-Settles (f u refl);
  }
  refused e (err x) bound st' d r f g = record {
    memory = record {
      entries = rw (r.registry) restores;
      keyed = rw (r.registry) keyed_back;
      synced = λ _ h. absurd h;
    };
    disk = g;
  }
  refused e (ok u) (err y) st' d r f g = record {
    memory = record {
      entries = rw (r.registry) restores;
      keyed = rw (r.registry) keyed_back;
      synced = λ _ h. absurd h;
    };
    disk = g;
  }

  undo_ends :
      (e : BindError) (d : Disk) (s : List Fate)
      → IsFinal new d
      → Answers p st forth old new a
          (undo p back old e (record st { registry = forth st.registry }) d s)
  undo_ends e d s f =
      let whole = final-Settles f in
      let quiet : settled d ≡ d.pair = whole.settles ∙ sym f.holds in
      let again = rebind_lem p.wired back_state in
      let other : (x : Disk) → Either d.pair old x → Either old new x =
        λ x h. swap-Either x (subst (λ q. Either q old x) f.holds h) in
      Ends-attempt _
        (λ u x s' h. done (
          refused e (ok u) (rebind p.wired back_state).0 (rebind p.wired back_state).1 x again
            (λ _ _. h) (inl (final-Settles h))))
        (λ b x s' h. done (
          refused e (err b) (rebind p.wired back_state).0 (rebind p.wired back_state).1 x again
            (λ v k. cc) (other x h)))
        other (restore_pair-Ends old d s whole.whole quiet)

  commit_ends :
      (r : Result BindError (Unit {0})) (st1 : State) (d : Disk) (s : List Fate)
      → Rebinds p.wired (record st { registry = forth st.registry }) r st1
      → IsFinal new d
      → Answers p st forth old new a (commit p back old a (r, st1) d s)
  commit_ends (ok u) st1 d s r f = done (
    refl,
    record {
      entries = r.registry;
      keyed = rw (r.registry) keyed_forth;
      synced = r.synced refl;
      disk = f;
    },
  )
  commit_ends (err e) st1 d s r f = rw (r.unchanged e refl) (undo_ends e d s f)

  pub kept : (e : ServiceError) → Undone p st e st
  kept e = record { entries = λ n. refl; keyed = keyed; synced = λ h _. h }

  -- The change as a whole, from what its write of the store does.
  module _ (write : Exec (Unit {0}))
      (writes : (x : Disk) (s : List Fate)
        → IsWhole x
        → settled x ≡ x.pair
        → x.pair ≡ old
        → Ends (λ u y. IsFinal new y) (AfterFailure old new) (Either old new) (write x s)) where
    change_from_ends :
        (x : Disk) (s : List Fate)
        → Settles old x
        → x.pair ≡ old
        → Answers p st forth old new a (change_from p st write forth back a old x s)
    change_from_ends x s h same =
        Ends-attempt _
          (λ u y s' f.
            commit_ends (rebind p.wired (record st { registry = forth st.registry })).0
              (rebind p.wired (record st { registry = forth st.registry })).1 y s'
              (rebind_lem p.wired (record st { registry = forth st.registry })) f)
          (λ e y s' f. done (record { memory = kept (storage e); disk = f })) (λ y f. f)
          (writes x s h.whole (h.settles ∙ sym same) same)

    pub change_ends :
        (d : Disk) (s : List Fate)
        → d.pair ≡ old
        → Settles old d
        → Answers p st forth old new a (change p st write forth back a d s)
    change_ends d s same h =
        Ends-attempt _
          (λ q x s' g.
            let here : ◌≡◌ {A = FileSnapshot × Disk} (old, d) (q, x) =
              λ i. (sym g.0 i, sym g.1 i) in
            subst
              (λ (y : FileSnapshot × Disk).
                Answers p st forth old new a (change_from p st write forth back a y.0 y.1 s'))
              here (change_from_ends d s' h same))
          (λ e x s' g. done (record { memory = kept (storage e); disk = rw g.0 g.1 }))
          (λ x g. inl g)
          (Ends-snapshot {Done = λ q x. (q ≡ old) × (x ≡ d)}
            {Failed = λ e x. (e ≡ read_failed) × Settles old x} {Stopped = Settles old} d s
            (same, refl) (refl, h) h)
