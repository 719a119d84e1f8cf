-- ===== src/Store/Replace.antt =====
-- `Put` and `Remove` of internal/workflow/store.go, under failures and crashes: the pair of files is replaced
-- whole, or the old pair comes back.
use relay_flow.Prelude.{
  String, Bool, true, false, Option, none, some, List, ◌≡◌, ◌⊎◌, inl, inr, refl, ap, Bool-cases,
}
use relay_flow.Store.Disk.{
  Fate, FileSnapshot, Disk, StoreError, mkdir_failed, write_journal_failed, write_yaml_failed,
  write_hash_failed, remove_yaml_failed, remove_hash_failed, remove_journal_failed, rollback_failed,
  Ran, Exec, fail, recovered, access, unlink, after, ◌>>◌,
}
use relay_flow.Store.Files.{
  pair_matches, put_yaml, put_hash, put_journal, remove_journal, recover_transaction,
  rollback_transaction, new_transaction, or_rollback, put_pair, hash_text, put, exists, remove_pair,
  remove,
}
use relay_flow.Store.Recovery.{
  settled, Ends, done, failed, halted, Ends-access, Ends-unlink, Ends-bind, Ends-on_error,
  Ends-snapshot, Ends-restore, pair_matches-eq,
}
use relay_flow.Store.Crashes.{
  OneOf, IsWhole, Settles, IsFinal, final-Settles, forward-Settles, old_pair,
}

-- The next recovery is to bring about the one pair or the other.
abbrev pub Either : FileSnapshot → FileSnapshot → Disk → Type 0
Either old new d = Settles old d ⊎ Settles new d

-- What a failed replacement leaves: the old pair, unless the rollback failed too.
abbrev pub AfterFailure : FileSnapshot → FileSnapshot → StoreError → Disk → Type 0
AfterFailure old new (rollback_failed c e) d = Either old new d
AfterFailure old new _ d = Settles old d

-- Any mix of the two pairs under the journal of the replacement.
module _ (old : FileSnapshot) (y h : Option String) where
  abbrev wanted : FileSnapshot
  wanted = record { yaml = y; hash = h }

  abbrev Mixed : Disk → Type 0
  Mixed d =
      (d.journal ≡ some (new_transaction old y h))
      × OneOf d.pair.yaml old.yaml y
      × OneOf d.pair.hash old.hash h

  Mixed-Either : (d : Disk) → Mixed d → Either old wanted d
  Mixed-Either d (j, a, b) = elim (Bool-cases (pair_matches d.pair wanted)) [
    | inl m ↦ inr (
        forward-Settles (new_transaction old y h) d j refl (a, b)
          (rw m (pair_matches-eq d.pair wanted m)))
    | inr n ↦ inl (forward-Settles (new_transaction old y h) d j refl (a, b) (rw n))
  ]

  abbrev pub Replaces : Ran (Unit {0}) → Type 0
  Replaces = Ends (λ u d. IsFinal wanted d) (AfterFailure old wanted) (Either old wanted)

  -- The forced recovery of a rollback, from any mix.
  forced :
      (d : Disk) (s : List Fate)
      → Mixed d
      → Ends
          (λ u x. IsFinal old x)
          (λ e x. Either old wanted x)
          (Either old wanted)
          (recover_transaction (new_transaction old y h) true d s)
  unfolding recover_transaction
  forced d s (j, a, b) =
      let here = Mixed-Either d (j, a, b) in
      let between = Mixed-Either (put_yaml old.yaml d) (j, inl refl, b) in
      let behind = Mixed-Either (record d { pair = old }) (j, inl refl, inl refl) in
      Ends-bind _ (
        Ends-snapshot d s
          (λ s'. Ends-bind _ (
            Ends-restore old d s'
              (λ s''.
                Ends-unlink (put_journal none) remove_journal_failed (record d { pair = old }) s''
                  (record { holds = refl; no_journal = refl }) behind behind)
              (λ e. (here, between, behind)) here between))
          here here)

  rolled :
      (c : StoreError)
      → ((d : Disk) → Settles old d → AfterFailure old wanted c d)
      → {Done : Unit {0} → Disk → Type 0} {r : Ran (Unit {0})}
      → Ends (λ u x. IsFinal old x) (λ e x. Either old wanted x) (Either old wanted) r
      → Ends Done
          (AfterFailure old wanted)
          (Either old wanted)
          (after (recovered r (λ e. fail (rollback_failed c e))) (λ u. fail c))
  rolled c plain (done {d = x} h) = failed (plain x (final-Settles h))
  rolled c plain (failed h) = failed h
  rolled c plain (halted h) = halted h

  -- A rollback for a failed write.
  rolls_back :
      {Done : Unit {0} → Disk → Type 0} (c : StoreError)
      → ((d : Disk) → Settles old d → AfterFailure old wanted c d)
      → (d : Disk) (s : List Fate) → Mixed d
      → Ends Done
          (AfterFailure old wanted)
          (Either old wanted)
          (rollback_transaction (new_transaction old y h) c d s)
  unfolding rollback_transaction
  rolls_back c plain d s m = rolled c plain (forced d s m)

  -- The last step of a replacement removes the journal.
  drops_journal :
      (d : Disk) (s : List Fate)
      → Mixed d
      → d.pair ≡ wanted
      → Replaces (or_rollback (new_transaction old y h) remove_journal d s)
  drops_journal d s m e = Ends-on_error (rollback_transaction (new_transaction old y h)) (
      Ends-unlink (put_journal none) remove_journal_failed d s
        (record { holds = e; no_journal = refl })
        (λ s'. rolls_back remove_journal_failed (λ x k. k) d s' m) (Mixed-Either d m))

  -- A step under the journal: where it is reported as failed, the old pair comes back.
  guarded :
      (f : Disk → Disk) (c : StoreError)
      → ((d : Disk) → Settles old d → AfterFailure old wanted c d)
      → (k : Exec (Unit {0})) (d : Disk) (s : List Fate) → Mixed d
      → Mixed (f d)
      → ((s : List Fate) → Replaces (k (f d) s))
      → Replaces ((or_rollback (new_transaction old y h) (access f c) >> k) d s)
  guarded f c plain k d s m n next =
      Ends-bind (λ u. k)
        (Ends-on_error (rollback_transaction (new_transaction old y h)) (
          Ends-access f c d s next (λ s'. rolls_back c plain d s' m)
            (λ s'. rolls_back c plain (f d) s' n) (Mixed-Either d m)))

  guarded_unlink :
      (f : Disk → Disk) (c : StoreError)
      → ((d : Disk) → Settles old d → AfterFailure old wanted c d)
      → (k : Exec (Unit {0})) (d : Disk) (s : List Fate) → Mixed d
      → ((s : List Fate) → Replaces (k (f d) s))
      → Replaces ((or_rollback (new_transaction old y h) (unlink f c) >> k) d s)
  guarded_unlink f c plain k d s m next =
      Ends-bind (λ u. k)
        (Ends-on_error (rollback_transaction (new_transaction old y h))
          (Ends-unlink f c d s next (λ s'. rolls_back c plain d s' m) (Mixed-Either d m)))

module _ (old : FileSnapshot) (yaml hash : String) where
  abbrev Puts : Ran (Unit {0}) → Type 0
  Puts = Replaces old (some yaml) (some hash)

  puts :
      (d : Disk) (s : List Fate)
      → Mixed old (some yaml) (some hash) d
      → Puts (put_pair (new_transaction old (some yaml) (some hash)) yaml hash d s)
  unfolding put_pair
  puts d s (j, a, b) =
      guarded old (some yaml) (some hash) (put_yaml (some yaml)) write_yaml_failed (λ x k. k) _ d s
        (j, a, b) (j, inr refl, b)
        (λ s'.
          guarded old (some yaml) (some hash) (put_hash (some hash)) write_hash_failed (λ x k. k) _
            (put_yaml (some yaml) d) s' (j, inr refl, b) (j, inr refl, inr refl)
            (λ s''.
              drops_journal old (some yaml) (some hash)
                (record d { pair = record { yaml = some yaml; hash = some hash } }) s''
                (j, inr refl, inr refl) refl))

-- From a disk at rest, under every schedule of failures and crashes: where `Put` returns without an
-- error the disk holds the new definition and its hash, and no journal. Where it returns an error,
-- the next recovery brings back the old pair, unless the rollback failed as well; then, and where
-- the process stops in it, the next recovery brings about one of the two pairs whole.
pub put_ends :
    (sum : String → String) (yaml : String) (d : Disk) (s : List Fate)
    → IsWhole d
    → settled d ≡ d.pair
    → Replaces d.pair (some yaml) (some (hash_text (sum yaml))) (put sum yaml d s)
unfolding put
put_ends sum yaml d s w quiet =
    let t = new_transaction d.pair (some yaml) (some (hash_text (sum yaml))) in
    let here : Settles d.pair d = record { whole = w; settles = quiet } in
    let late =
      forward-Settles t (put_journal (some t) d) refl refl (inl refl, inl refl) (old_pair t) in
    Ends-bind _ (
      Ends-access (λ x. x) mkdir_failed d s
        (λ s1. Ends-bind _ (
          Ends-snapshot d s1
            (λ s2. Ends-bind _ (
              Ends-access (put_journal (some t)) write_journal_failed d s2
                (λ s3.
                  puts d.pair yaml (hash_text (sum yaml)) (put_journal (some t) d) s3
                    (refl, inl refl, inl refl))
                here late (inl here)))
            here (inl here)))
        here here (inl here))

removes :
    (old : FileSnapshot) (d : Disk) (b : Bool) (s : List Fate)
    → d.pair ≡ old
    → Settles old d
    → Replaces old none none (remove_pair (new_transaction old none none) b d s)
unfolding remove_pair
removes old d false s e here = failed here
removes old d true s e here =
    let t = new_transaction old none none in
    let a : d.pair.yaml ≡ old.yaml = ap (λ p. p.yaml) e in
    let b : d.pair.hash ≡ old.hash = ap (λ p. p.hash) e in
    let begun = put_journal (some t) d in
    let late : Settles old begun =
      forward-Settles t begun refl refl (inl a, inl b) (rw e (old_pair t)) in
    Ends-bind _ (
      Ends-access (put_journal (some t)) write_journal_failed d s
        (λ s1.
          guarded_unlink old none none (put_yaml none) remove_yaml_failed (λ x k. k) _ begun s1
            (refl, inl a, inl b)
            (λ s2.
              guarded_unlink old none none (put_hash none) remove_hash_failed (λ x k. k) _
                (put_yaml none begun) s2 (refl, inr refl, inl b)
                (λ s3.
                  drops_journal old none none
                    (record begun { pair = record { yaml = none; hash = none } }) s3
                    (refl, inr refl, inr refl) refl)))
        here late (inl here))

-- From a disk at rest, under every schedule of failures and crashes: where `Remove` returns without
-- an error the disk holds neither file of the pair, and no journal. Where it returns an error, the
-- next recovery brings back the old pair, unless the rollback failed as well; then, and where the
-- process stops in it, the next recovery brings about the old pair or the removal whole.
pub remove_ends :
    (d : Disk) (s : List Fate)
    → IsWhole d
    → settled d ≡ d.pair
    → Replaces d.pair none none (remove d s)
unfolding remove
remove_ends d s w quiet =
    let here : Settles d.pair d = record { whole = w; settles = quiet } in
    Ends-bind _
      (Ends-snapshot d s (λ s1. removes d.pair d (exists d.pair.yaml) s1 refl here) here (inl here))
