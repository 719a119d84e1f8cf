-- ===== src/Store/Compensation.antt =====
-- `restorePair` of internal/workflow/store.go, with which a failed submission or removal puts a pair
-- back.
use relay_flow.Prelude.{none, some, List, ◌≡◌, inl, inr, refl}
use relay_flow.Store.Disk.{
  Fate, rollback, FileSnapshot, Transaction, Disk, write_journal_failed, remove_journal_failed,
}
use relay_flow.Store.Files.{put_yaml, put_journal, restore_pair}
use relay_flow.Store.Recovery.{
  settled, Ends, Ends-access, Ends-unlink, Ends-bind, Ends-snapshot, Ends-restore,
}
use relay_flow.Store.Crashes.{IsWhole, IsFinal, rollback-Settles}
use relay_flow.Store.Replace.{Either}

-- From a disk at rest, under every schedule of failures and crashes: where `restorePair` returns
-- without an error the disk holds the desired pair and no journal; otherwise the next recovery brings
-- about the pair from before or the desired one, whole.
pub restore_pair-Ends :
    (desired : FileSnapshot) (d : Disk) (s : List Fate)
    → IsWhole d
    → settled d ≡ d.pair
    → Ends
        (λ u x. IsFinal desired x)
        (λ e x. Either d.pair desired x)
        (Either d.pair desired)
        (restore_pair desired d s)
unfolding restore_pair
restore_pair-Ends desired d s w quiet =
    let t : Transaction = record {
      kind = rollback;
      old_snapshot = d.pair;
      new_snapshot = desired;
    } in
    let here : Either d.pair desired d = inl (record { whole = w; settles = quiet }) in
    let begun = put_journal (some t) d in
    let on : (x : Disk) → x.journal ≡ some t → Either d.pair desired x =
      λ x j. inr (rollback-Settles t x j refl) in
    let late = on begun refl in
    let between = on (put_yaml desired.yaml begun) refl in
    let behind = on (record begun { pair = desired }) refl in
    Ends-bind _ (
      Ends-snapshot d s
        (λ s1. Ends-bind _ (
          Ends-access (put_journal (some t)) write_journal_failed d s1
            (λ s2. Ends-bind _ (
              Ends-restore desired begun s2
                (λ s3.
                  Ends-unlink (put_journal none) remove_journal_failed
                    (record begun { pair = desired }) s3
                    (record { holds = refl; no_journal = refl }) behind behind)
                (λ e. (late, between, behind)) late between))
            here late here))
        here here)
