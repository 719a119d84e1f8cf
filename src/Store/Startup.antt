-- ===== src/Store/Startup.antt =====
-- `recoverTransactions` of internal/workflow/store.go, at a start-up in which every access works.
use relay_flow.Prelude.{
  String, false, Option, Option-cases, none, some, [], ok, Bool-cases, ◌≡◌, inl, inr, refl, subst,
  ◌∙◌,
}
use relay_flow.Store.Disk.{
  Kind, forward, rollback, Disk, FileSnapshot, Transaction, Ran, returned, Exec, access, unlink,
  ◌>>◌,
}
use relay_flow.Store.Files.{
  pair_matches, put_yaml, put_hash, snapshot, restore, restore_yaml, restore_hash, remove_journal,
  recover_kind, recover_transaction,
}
use relay_flow.Store.Recovery.{settled, recover, done, failed, halted}
use relay_flow.Store.Crashes.{Settles, IsFinal, Recovers, recover_ends}

-- A call that works, from an exhausted schedule on.
abbrev Works : Ran (Unit {0}) → Type 0
Works r = (y : Disk) × (r ≡ returned (ok tt) y [])

yaml-Works : (y : Option String) (d : Disk) → Works (restore_yaml y d [])
unfolding access unlink
yaml-Works none d = (put_yaml none d, refl)
yaml-Works (some y) d = (put_yaml (some y) d, refl)

hash-Works : (h : Option String) (d : Disk) → Works (restore_hash h d [])
unfolding access unlink
hash-Works none d = (put_hash none d, refl)
hash-Works (some h) d = (put_hash (some h) d, refl)

module _ (m k : Exec (Unit {0})) (each_works : (d : Disk) → Works (k d [])) where
  then-Works : (d : Disk) → Works (m d []) → Works ((m >> k) d [])
  then-Works d (y, e) = rw e (each_works y)

restore-Works : (p : FileSnapshot) (d : Disk) → Works (restore p d [])
unfolding restore
restore-Works p d =
    then-Works (restore_yaml p.yaml) (restore_hash p.hash) (hash-Works p.hash) d
      (yaml-Works p.yaml d)

journal-Works : (d : Disk) → Works (remove_journal d [])
unfolding unlink
journal-Works d = (record d { journal = none }, refl)

kind-Works :
    (k : Kind) (t : Transaction) (p : FileSnapshot) (d : Disk)
    → Works (recover_kind k t false p d [])
kind-Works forward t p d = elim (Bool-cases (pair_matches p t.new_snapshot)) [
  | inl e ↦ rw e (journal-Works d)
  | inr e ↦ elim (Bool-cases (pair_matches p t.old_snapshot)) [
    | inl k ↦ rw (e, k) (journal-Works d)
    | inr k ↦
        rw (e, k)
          (then-Works (restore t.old_snapshot) remove_journal journal-Works d
            (restore-Works t.old_snapshot d))
  ]
]
kind-Works rollback t p d = elim (Bool-cases (pair_matches p t.new_snapshot)) [
  | inl e ↦ rw e (journal-Works d)
  | inr e ↦ rw e (
      then-Works (restore t.new_snapshot) remove_journal journal-Works d
        (restore-Works t.new_snapshot d))
]

recover-Works : (d : Disk) → Works (recover d [])
unfolding recover recover_transaction snapshot access
recover-Works d = elim (Option-cases d.journal) [
  | inl e ↦ rw (e, recover) (d, refl)
  | inr (t, e) ↦ rw (e, recover) (kind-Works t.kind t d.pair d)
]

Recovers-IsFinal :
    (q : FileSnapshot) (r : Ran (Unit {0})) (y : Disk)
    → r ≡ returned (ok tt) y []
    → Recovers q r
    → IsFinal q y
Recovers-IsFinal q r y e (done h) = subst (IsFinal q) (cc) h
Recovers-IsFinal q r y e (failed h) = cc
Recovers-IsFinal q r y e (halted h) = cc

-- What a start-up makes of a disk that it can bring in order.
pub recover_settled :
    (q : FileSnapshot) (x : Disk)
    → Settles q x
    → (y : Disk) × (recover x [] ≡ returned (ok tt) y []) × (y.pair ≡ q)
recover_settled q x h =
    let (y, e) = recover-Works x in
    let f = Recovers-IsFinal (settled x) (recover x []) y e (recover_ends x [] h.whole) in
    (y, e, f.holds ∙ h.settles)
