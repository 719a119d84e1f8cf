-- ===== src/Store/Recovery.antt =====
-- What a start-up makes of the files that internal/workflow/store.go left.
use relay_flow.Prelude.{
  String, true, false, Option, none, some, List, [], ◌∷◌, ok, err, ==-eq, ==_refl, if◌then◌else◌,
  ◌≡◌, refl, ap, &&-eq-true,
}
use relay_flow.Store.Disk.{
  Fate, works, fails, fails_late, crashes, Kind, forward, rollback, FileSnapshot, Transaction, Disk,
  StoreError, read_failed, remove_yaml_failed, write_yaml_failed, remove_hash_failed,
  write_hash_failed, recovered, Ran, returned, stopped, Exec, access, unlink, after,
}
use relay_flow.Store.Files.{
  pair_matches, same_file, put_yaml, put_hash, snapshot, restore, restore_yaml, restore_hash,
  recover_transaction,
}

-- The pair that recovery is to bring about.
abbrev pub settled_pair : FileSnapshot → Transaction → Kind → FileSnapshot
settled_pair p t forward = if pair_matches p t.new_snapshot then p else t.old_snapshot
settled_pair p t rollback = t.new_snapshot

abbrev pub settled : Disk → FileSnapshot
settled d = elim d.journal [ none ↦ d.pair | some t ↦ settled_pair d.pair t t.kind ]

-- `recoverTransactions`, for the one journal that there can be.
unfoldable pub recover : Exec (Unit {0})
unfolding recover_transaction
recover d s = elim d.journal [
  | none ↦ returned (ok tt) d s
  | some t ↦ recover_transaction t false d s
]

-- How a call ends, and with what disk.
pub data Ends {A : Type 0} (Done : A → Disk → Type 0) (Failed : StoreError → Disk → Type 0)
    (Stopped : Disk → Type 0) : Ran A → Type 0 where
  done :
      {a : A} {d : Disk} {s : List Fate} → Done a d → Ends Done Failed Stopped (returned (ok a) d s)
  failed :
      {e : StoreError} {d : Disk} {s : List Fate}
      → Failed e d
      → Ends Done Failed Stopped (returned (err e) d s)
  halted : {d : Disk} → Stopped d → Ends Done Failed Stopped (stopped d)

module _ {Failed : StoreError → Disk → Type 0} {Stopped : Disk → Type 0} where
  pub Ends-access :
      {Done : Unit {0} → Disk → Type 0} (f : Disk → Disk) (e : StoreError) (d : Disk)
      (s : List Fate)
      → Done tt (f d)
      → Failed e d
      → Failed e (f d)
      → Stopped d
      → Ends Done Failed Stopped (access f e d s)
  unfolding access
  Ends-access f e d [] a b c x = done a
  Ends-access f e d (works ∷ s) a b c x = done a
  Ends-access f e d (fails ∷ s) a b c x = failed b
  Ends-access f e d (fails_late ∷ s) a b c x = failed c
  Ends-access f e d (crashes ∷ s) a b c x = halted x

  pub Ends-unlink :
      {Done : Unit {0} → Disk → Type 0} (f : Disk → Disk) (e : StoreError) (d : Disk)
      (s : List Fate)
      → Done tt (f d)
      → Failed e d
      → Stopped d
      → Ends Done Failed Stopped (unlink f e d s)
  unfolding unlink
  Ends-unlink f e d [] a b x = done a
  Ends-unlink f e d (works ∷ s) a b x = done a
  Ends-unlink f e d (fails ∷ s) a b x = failed b
  Ends-unlink f e d (fails_late ∷ s) a b x = failed b
  Ends-unlink f e d (crashes ∷ s) a b x = halted x

  pub Ends-bind :
      {A B : Type 0} {Done : B → Disk → Type 0} {r : Ran A} (f : A → Exec B)
      → Ends (λ a d. (s : List Fate) → Ends Done Failed Stopped (f a d s)) Failed Stopped r
      → Ends Done Failed Stopped (after r f)
  Ends-bind f (done {s = s} h) = h s
  Ends-bind f (failed h) = failed h
  Ends-bind f (halted h) = halted h

  pub Ends-on_error :
      {A : Type 0} {Done : A → Disk → Type 0} {r : Ran A} (k : StoreError → Exec A)
      → Ends Done (λ e d. (s : List Fate) → Ends Done Failed Stopped (k e d s)) Stopped r
      → Ends Done Failed Stopped (recovered r k)
  Ends-on_error k (done h) = done h
  Ends-on_error k (failed {s = s} h) = h s
  Ends-on_error k (halted h) = halted h

same_file-eq : (a b : Option String) → same_file a b ≡ true → a ≡ b
same_file-eq none none h = refl
same_file-eq none (some b) h = cc
same_file-eq (some a) none h = cc
same_file-eq (some a) (some b) h = ap some (==-eq h)

same_file_refl : (a : Option String) → same_file a a ≡ true
same_file_refl none = refl
same_file_refl (some a) = ==_refl a

pub pair_matches-eq : (p q : FileSnapshot) → pair_matches p q ≡ true → p ≡ q
pair_matches-eq p q h =
    let (a, b) = &&-eq-true {a = same_file p.yaml q.yaml} h in
    let y = same_file-eq p.yaml q.yaml a in
    let z = same_file-eq p.hash q.hash b in λ i. record { yaml = y i; hash = z i }

pub pair_matches_refl : (p : FileSnapshot) → pair_matches p p ≡ true
pair_matches_refl p = rw (same_file_refl p.yaml, same_file_refl p.hash)

-- `snapshot` reads the pair and changes nothing.
pub Ends-snapshot :
    {Done : FileSnapshot → Disk → Type 0} {Failed : StoreError → Disk → Type 0}
    {Stopped : Disk → Type 0} (d : Disk) (s : List Fate)
    → Done d.pair d
    → Failed read_failed d
    → Stopped d
    → Ends Done Failed Stopped (snapshot d s)
unfolding snapshot
Ends-snapshot d s a b c = Ends-bind _ (
    Ends-access (λ x. x) read_failed d s
      (λ s'. Ends-bind _ (Ends-access (λ x. x) read_failed d s' (λ s''. done a) b b c)) b b c)

module _ {Failed : StoreError → Disk → Type 0} {Stopped : Disk → Type 0} where
  Ends-restore_yaml :
      {Done : Unit {0} → Disk → Type 0} (y : Option String) (d : Disk) (s : List Fate)
      → Done tt (put_yaml y d)
      → ((e : StoreError) → Failed e d × Failed e (put_yaml y d))
      → Stopped d
      → Ends Done Failed Stopped (restore_yaml y d s)
  Ends-restore_yaml none d s a b c =
      Ends-unlink (put_yaml none) remove_yaml_failed d s a (b remove_yaml_failed).0 c
  Ends-restore_yaml (some y) d s a b c =
      Ends-access (put_yaml (some y)) write_yaml_failed d s a (b write_yaml_failed).0
        (b write_yaml_failed).1 c

  Ends-restore_hash :
      {Done : Unit {0} → Disk → Type 0} (h : Option String) (d : Disk) (s : List Fate)
      → Done tt (put_hash h d)
      → ((e : StoreError) → Failed e d × Failed e (put_hash h d))
      → Stopped d
      → Ends Done Failed Stopped (restore_hash h d s)
  Ends-restore_hash none d s a b c =
      Ends-unlink (put_hash none) remove_hash_failed d s a (b remove_hash_failed).0 c
  Ends-restore_hash (some h) d s a b c =
      Ends-access (put_hash (some h)) write_hash_failed d s a (b write_hash_failed).0
        (b write_hash_failed).1 c

  -- `restore` writes the two files one after the other; it can end before, between and after.
  pub Ends-restore :
      {Done : Unit {0} → Disk → Type 0} (p : FileSnapshot) (d : Disk) (s : List Fate)
      → Done tt (record d { pair = p })
      → ((e : StoreError)
          → Failed e d × Failed e (put_yaml p.yaml d) × Failed e (record d { pair = p }))
      → Stopped d
      → Stopped (put_yaml p.yaml d)
      → Ends Done Failed Stopped (restore p d s)
  unfolding restore
  Ends-restore p d s a b c x = Ends-bind _ (
      Ends-restore_yaml p.yaml d s
        (λ s'. Ends-restore_hash p.hash (put_yaml p.yaml d) s' a (λ e. ((b e).1, (b e).2)) x)
        (λ e. ((b e).0, (b e).1)) c)
