-- ===== src/Store/Files.antt =====
-- The operations of internal/workflow/store.go on the files of one workflow.
use relay_flow.Prelude.{
  String, Bool, true, false, Option, none, some, ◌==◌, ◌&&◌, ◌||◌, not, if◌then◌else◌, ◌+++◌,
}
use relay_flow.Store.Disk.{
  Kind, forward, rollback, FileSnapshot, Transaction, Disk, StoreError, mkdir_failed, read_failed,
  write_journal_failed, write_yaml_failed, write_hash_failed, remove_yaml_failed,
  remove_hash_failed, remove_journal_failed, no_definition, rollback_failed, Exec, pure, fail,
  ◌>>=◌, ◌>>◌, on_error, access, unlink,
}

abbrev pub same_file : Option String → Option String → Bool
same_file none none = true
same_file (some a) (some b) = a == b
same_file _ _ = false

-- `pairMatches`
abbrev pub pair_matches : FileSnapshot → FileSnapshot → Bool
pair_matches got want = same_file got.yaml want.yaml && same_file got.hash want.hash

-- `config.WriteAtomic` of each file, and `removeIfExists`.
abbrev pub put_yaml : Option String → Disk → Disk
put_yaml y d = record d { pair = record d.pair { yaml = y } }

abbrev pub put_hash : Option String → Disk → Disk
put_hash h d = record d { pair = record d.pair { hash = h } }

abbrev pub put_journal : Option Transaction → Disk → Disk
put_journal t d = record d { journal = t }

-- `writeTransaction`
abbrev pub write_transaction : Transaction → Exec (Unit {0})
write_transaction t = access (put_journal (some t)) write_journal_failed

abbrev pub remove_journal : Exec (Unit {0})
remove_journal = unlink (put_journal none) remove_journal_failed

-- `snapshot`: two reads.
unfoldable pub snapshot : Exec FileSnapshot
unfolding access
snapshot = do access (λ d. d) read_failed; access (λ d. d) read_failed; λ d s. pure d.pair d s

abbrev pub restore_yaml : Option String → Exec (Unit {0})
restore_yaml none = unlink (put_yaml none) remove_yaml_failed
restore_yaml (some y) = access (put_yaml (some y)) write_yaml_failed

abbrev pub restore_hash : Option String → Exec (Unit {0})
restore_hash none = unlink (put_hash none) remove_hash_failed
restore_hash (some h) = access (put_hash (some h)) write_hash_failed

-- `restore`
unfoldable pub restore : FileSnapshot → Exec (Unit {0})
unfolding access unlink
restore p = do restore_yaml p.yaml; restore_hash p.hash

-- `recoverTransaction`
abbrev pub recover_forward : Transaction → Bool → FileSnapshot → Exec (Unit {0})
recover_forward t force_old current =
    if not force_old && (pair_matches current t.new_snapshot || pair_matches current t.old_snapshot)
    then remove_journal
    else restore t.old_snapshot >> remove_journal

abbrev pub recover_rollback : Transaction → FileSnapshot → Exec (Unit {0})
recover_rollback t current =
    if pair_matches current t.new_snapshot
    then remove_journal
    else restore t.new_snapshot >> remove_journal

abbrev pub recover_kind : Kind → Transaction → Bool → FileSnapshot → Exec (Unit {0})
recover_kind forward t force_old current = recover_forward t force_old current
recover_kind rollback t force_old current = recover_rollback t current

unfoldable pub recover_transaction : Transaction → Bool → Exec (Unit {0})
unfolding snapshot restore
recover_transaction t force_old = do current ← snapshot; recover_kind t.kind t force_old current

-- `rollbackTransaction`: the cause, or the cause with the failure of the rollback.
unfoldable pub rollback_transaction : Transaction → StoreError → Exec (Unit {0})
unfolding recover_transaction
rollback_transaction t cause =
    on_error (recover_transaction t true) (λ e. fail (rollback_failed cause e)) >> fail cause

abbrev pub new_transaction : FileSnapshot → Option String → Option String → Transaction
new_transaction old y h = record {
  kind = forward;
  old_snapshot = old;
  new_snapshot = record { yaml = y; hash = h };
}

abbrev pub or_rollback : Transaction → Exec (Unit {0}) → Exec (Unit {0})
or_rollback t m = on_error m (rollback_transaction t)

-- What the hash file holds: the digits of the sum and a line break.
abbrev pub hash_text : String → String
hash_text sum = sum +++ "\n"

-- `Put`; `sum` yields the hexadecimal digits of the sum of a definition.
unfoldable pub put_pair : Transaction → String → String → Exec (Unit {0})
put_pair t yaml hash =
    or_rollback t (access (put_yaml (some yaml)) write_yaml_failed)
    >> (or_rollback t (access (put_hash (some hash)) write_hash_failed)
        >> or_rollback t remove_journal)

unfoldable pub put : (String → String) → String → Exec (Unit {0})
put sum yaml = do
  access (λ d. d) mkdir_failed
  before ← snapshot
  let hash = hash_text (sum yaml)
  let t = new_transaction before (some yaml) (some hash)
  write_transaction t
  put_pair t yaml hash

abbrev pub exists : Option String → Bool
exists none = false
exists (some a) = true

unfoldable pub remove_pair : Transaction → Bool → Exec (Unit {0})
remove_pair t false = fail no_definition
remove_pair t true =
    write_transaction t
    >> (or_rollback t (unlink (put_yaml none) remove_yaml_failed)
        >> (or_rollback t (unlink (put_hash none) remove_hash_failed)
            >> or_rollback t remove_journal))

-- `Remove`
unfoldable pub remove : Exec (Unit {0})
remove = do
  before ← snapshot
  let t = new_transaction before none none
  remove_pair t (exists before.yaml)

-- `restorePair`
unfoldable pub restore_pair : FileSnapshot → Exec (Unit {0})
unfolding snapshot restore
restore_pair desired = do
  current ← snapshot
  write_transaction (record { kind = rollback; old_snapshot = current; new_snapshot = desired })
  restore desired
  remove_journal
