-- ===== src/Store/Crashes.antt =====
-- `recoverTransaction` of internal/workflow/store.go, under failures and crashes of its own.
use relay_flow.Prelude.{
  String, false, Option, none, some, List, ◌≡◌, ◌⊎◌, inl, inr, refl, sym, ap, subst, arith,
  Bool-cases, Option-cases, ◌∙◌,
}
use relay_flow.Store.Disk.{
  Fate, Kind, forward, rollback, FileSnapshot, Transaction, Disk, remove_journal_failed, Ran, ◌>>◌,
}
use relay_flow.Store.Files.{
  pair_matches, put_yaml, put_journal, remove_journal, restore, recover_forward, recover_rollback,
  recover_kind, recover_transaction,
}
use relay_flow.Store.Recovery.{
  settled_pair, settled, recover, Ends, done, Ends-unlink, Ends-bind, Ends-snapshot, Ends-restore,
  pair_matches-eq, pair_matches_refl,
}

-- A file holds what it held before the replacement or what it is to hold after it.
abbrev pub OneOf : Option String → Option String → Option String → Type 0
OneOf a old new = (a ≡ old) ⊎ (a ≡ new)

abbrev pub WholePair : FileSnapshot → Transaction → Kind → Type 0
WholePair p t forward =
    OneOf p.yaml t.old_snapshot.yaml t.new_snapshot.yaml
    × OneOf p.hash t.old_snapshot.hash t.new_snapshot.hash
WholePair p t rollback = Unit

-- What a replacement leaves behind, whether it ends or not.
abbrev pub IsWhole : Disk → Type 0
IsWhole d = elim d.journal [ none ↦ Unit | some t ↦ WholePair d.pair t t.kind ]

-- The disk is fit for a recovery, which will bring about the pair.
pub record Settles (p : FileSnapshot) (d : Disk) : Type 0 where
  pub whole : IsWhole d
  pub settles : settled d ≡ p

pub record IsFinal (p : FileSnapshot) (d : Disk) : Type 0 where
  pub holds : d.pair ≡ p
  pub no_journal : d.journal ≡ none

pub final-Settles : {p : FileSnapshot} {d : Disk} → IsFinal p d → Settles p d
final-Settles {p} {d} f = record {
  whole = ground (arith, f.no_journal);
  settles = rw (f.no_journal, settled) f.holds;
}

-- The journal of a replacement is on the disk.
pub forward-Settles :
    {p : FileSnapshot} (t : Transaction) (d : Disk)
    → d.journal ≡ some t
    → t.kind ≡ forward
    → WholePair d.pair t forward
    → settled_pair d.pair t forward ≡ p
    → Settles p d
forward-Settles t d j k w s = record {
  whole = rw (j, IsWhole) (rw k w);
  settles = rw (j, settled) (rw k s);
}

pub rollback-Settles :
    (t : Transaction) (d : Disk) → d.journal ≡ some t → t.kind ≡ rollback → Settles t.new_snapshot d
rollback-Settles t d j k = record {
  whole = rw (j, IsWhole) (rw k tt);
  settles = rw (j, settled) (rw k refl);
}

-- Putting the old definition back into a mixed pair does not make it the new one.
stays_mixed :
    (p old new : FileSnapshot)
    → OneOf p.yaml old.yaml new.yaml
    → pair_matches p new ≡ false
    → pair_matches (record p { yaml = old.yaml }) new ≡ false
stays_mixed p old new y m = elim (Bool-cases (pair_matches (record p { yaml = old.yaml }) new)) [
  | inr n ↦ n
  | inl e ↦
      let q = pair_matches-eq (record p { yaml = old.yaml }) new e in
      let a : p.yaml ≡ new.yaml = elim y [ inl o ↦ o ∙ ap (λ r. r.yaml) q | inr o ↦ o ] in
      let b : p.hash ≡ new.hash = ap (λ r. r.hash) q in
      let same : p ≡ new = λ i. record { yaml = a i; hash = b i } in absurd (clash same)
]
  where
    clash : p ≡ new → ⊥
    clash same = cc (subst (λ r. pair_matches r new ≡ false) same m, pair_matches_refl new)

abbrev pub Recovers : FileSnapshot → Ran (Unit {0}) → Type 0
Recovers p = Ends (λ u d. IsFinal p d) (λ e d. Settles p d) (λ d. Settles p d)

finish :
    {p : FileSnapshot} (d : Disk) (s : List Fate)
    → d.pair ≡ p
    → Settles p d
    → Recovers p (remove_journal d s)
finish {p} d s h k =
    let f : IsFinal p (put_journal none d) = record { holds = h; no_journal = refl } in
    Ends-unlink (put_journal none) remove_journal_failed d s f k k

pub old_pair : (t : Transaction) → settled_pair t.old_snapshot t forward ≡ t.old_snapshot
old_pair t = ground arith

module _ (t : Transaction) (d : Disk) (j : d.journal ≡ some t) where
  restore_forward :
      (s : List Fate)
      → t.kind ≡ forward
      → WholePair d.pair t forward
      → pair_matches d.pair t.new_snapshot ≡ false
      → Recovers t.old_snapshot ((restore t.old_snapshot >> remove_journal) d s)
  restore_forward s k w n =
      let before : Settles t.old_snapshot d = forward-Settles t d j k w (rw n) in
      let between : Settles t.old_snapshot (put_yaml t.old_snapshot.yaml d) =
        forward-Settles t (put_yaml t.old_snapshot.yaml d) j k (inl refl, w.1)
          (rw (stays_mixed d.pair t.old_snapshot t.new_snapshot w.0 n)) in
      let behind : Settles t.old_snapshot (record d { pair = t.old_snapshot }) =
        forward-Settles t (record d { pair = t.old_snapshot }) j k (inl refl, inl refl)
          (old_pair t) in
      Ends-bind _ (
        Ends-restore t.old_snapshot d s
          (λ s'. finish (record d { pair = t.old_snapshot }) s' refl behind)
          (λ e. (before, between, behind)) before between)

  restore_rollback :
      (s : List Fate)
      → t.kind ≡ rollback
      → Recovers t.new_snapshot ((restore t.new_snapshot >> remove_journal) d s)
  restore_rollback s k =
      let before = rollback-Settles t d j k in
      let between = rollback-Settles t (put_yaml t.new_snapshot.yaml d) j k in
      let behind = rollback-Settles t (record d { pair = t.new_snapshot }) j k in
      Ends-bind _ (
        Ends-restore t.new_snapshot d s
          (λ s'. finish (record d { pair = t.new_snapshot }) s' refl behind)
          (λ e. (before, between, behind)) before between)

  pub recover_forward_ends :
      (s : List Fate)
      → t.kind ≡ forward
      → WholePair d.pair t forward
      → Recovers (settled_pair d.pair t forward) (recover_forward t false d.pair d s)
  recover_forward_ends s k w = elim (Bool-cases (pair_matches d.pair t.new_snapshot)) [
    | inl m ↦ rw m (finish d s refl (forward-Settles t d j k w (rw m)))
    | inr n ↦ elim (Bool-cases (pair_matches d.pair t.old_snapshot)) [
      | inl m ↦
          rw (n, m)
            (finish d s (pair_matches-eq d.pair t.old_snapshot m)
              (forward-Settles t d j k w (rw n)))
      | inr m ↦ rw (n, m) (restore_forward s k w n)
    ]
  ]

  recover_rollback_ends :
      (s : List Fate) → t.kind ≡ rollback → Recovers t.new_snapshot (recover_rollback t d.pair d s)
  recover_rollback_ends s k = elim (Bool-cases (pair_matches d.pair t.new_snapshot)) [
    | inl m ↦ rw m (finish d s (pair_matches-eq d.pair t.new_snapshot m) (rollback-Settles t d j k))
    | inr n ↦ rw n (restore_rollback s k)
  ]

  kind_ends :
      (k : Kind) (s : List Fate)
      → t.kind ≡ k
      → WholePair d.pair t k
      → Recovers (settled_pair d.pair t k) (recover_kind k t false d.pair d s)
  kind_ends forward s e w = recover_forward_ends s e w
  kind_ends rollback s e w = recover_rollback_ends s e

  pub recover_transaction_ends :
      (s : List Fate) → IsWhole d → Recovers (settled d) (recover_transaction t false d s)
  unfolding recover_transaction
  recover_transaction_ends s w =
      let pair : WholePair d.pair t t.kind = rw (j, IsWhole) at w in
      let goal : settled_pair d.pair t t.kind ≡ settled d = rw (j, settled) in
      let same : Settles (settled d) d = record { whole = w; settles = refl } in
      Ends-bind _ (
        Ends-snapshot d s
          (λ s'.
            subst (λ p. Recovers p (recover_kind t.kind t false d.pair d s')) goal
              (kind_ends t.kind s' refl pair))
          same same)

-- A recovery brings about the pair that the journal determines, the old one or the new one and
-- never a mix; and one that fails, or that the process does not survive, leaves a disk from which
-- the next recovery is to bring about the same pair.
pub recover_ends : (d : Disk) (s : List Fate) → IsWhole d → Recovers (settled d) (recover d s)
unfolding recover
recover_ends d s w = elim (Option-cases d.journal) [
  | inl n ↦ rw (n, recover) (done (record { holds = refl; no_journal = n }))
  | inr (t, j) ↦
      let step : recover d s ≡ recover_transaction t false d s = ground arith in
      subst (Recovers (settled d)) (sym step) (recover_transaction_ends t d j s w)
]
