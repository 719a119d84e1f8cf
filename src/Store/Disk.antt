-- ===== src/Store/Disk.antt =====
-- The file system that internal/workflow/store.go and internal/config/writeatomic.go see, for the
-- files of one workflow. Every access can fail or be the last of the process: a schedule of fates
-- decides. A write goes through a rename, so it happens whole or not at all; the sync of the folder
-- comes after the rename, so a write can also happen and still be reported as failed.
use relay_flow.Prelude.{String, Option, List, [], ◌∷◌, Result, ok, err}

pub data Fate : Type 0 where
  works fails fails_late crashes : Fate

pub data Kind : Type 0 where
  forward rollback : Kind

-- `fileSnapshot`: a file that does not exist is `none`.
pub record FileSnapshot : Type 0 where
  pub yaml : Option String
  pub hash : Option String

-- `transactionRecord`; the name is that of the workflow whose files these are.
pub record Transaction : Type 0 where
  pub kind : Kind
  pub old_snapshot : FileSnapshot
  pub new_snapshot : FileSnapshot

pub record Disk : Type 0 where
  pub pair : FileSnapshot
  pub journal : Option Transaction

pub data StoreError : Type 0 where
  mkdir_failed read_failed write_journal_failed write_yaml_failed write_hash_failed : StoreError
  remove_yaml_failed remove_hash_failed remove_journal_failed no_definition : StoreError
  rollback_failed : StoreError → StoreError → StoreError

-- How a call ends: it returns, or the process stops in it.
pub data Ran (A : Type 0) : Type 0 where
  returned : Result StoreError A → Disk → List Fate → Ran A
  stopped : Disk → Ran A

abbrev pub Exec : Type 0 → Type 0
Exec A = Disk → List Fate → Ran A

abbrev pub pure : {A : Type 0} → A → Exec A
pure a d s = returned (ok a) d s

abbrev pub fail : {A : Type 0} → StoreError → Exec A
fail e d s = returned (err e) d s

abbrev pub after : {A B : Type 0} → Ran A → (A → Exec B) → Ran B
after (returned (ok a) d s) f = f a d s
after (returned (err e) d s) f = returned (err e) d s
after (stopped d) f = stopped d

infixl 5 ◌>>=◌ ◌>>◌
abbrev pub ◌>>=◌ : {A B : Type 0} → Exec A → (A → Exec B) → Exec B
◌>>=◌ m f d s = after (m d s) f

abbrev pub ◌>>◌ : {B : Type 0} → Exec (Unit {0}) → Exec B → Exec B
m >> k = m >>= λ _. k

-- `if err := m; err != nil { return handler(err) }`
abbrev pub recovered : {A : Type 0} → Ran A → (StoreError → Exec A) → Ran A
recovered (returned (ok a) d s) h = returned (ok a) d s
recovered (returned (err e) d s) h = h e d s
recovered (stopped d) h = stopped d

abbrev pub on_error : {A : Type 0} → Exec A → (StoreError → Exec A) → Exec A
on_error m h d s = recovered (m d s) h

-- One write (or read) that changes the disk by `f`.
unfoldable pub access : (Disk → Disk) → StoreError → Exec (Unit {0})
access f e d [] = returned (ok tt) (f d) []
access f e d (works ∷ s) = returned (ok tt) (f d) s
access f e d (fails ∷ s) = returned (err e) d s
access f e d (fails_late ∷ s) = returned (err e) (f d) s
access f e d (crashes ∷ s) = stopped d

-- One removal: where it is reported as failed, the file is still there.
unfoldable pub unlink : (Disk → Disk) → StoreError → Exec (Unit {0})
unlink f e d [] = returned (ok tt) (f d) []
unlink f e d (works ∷ s) = returned (ok tt) (f d) s
unlink f e d (fails ∷ s) = returned (err e) d s
unlink f e d (fails_late ∷ s) = returned (err e) d s
unlink f e d (crashes ∷ s) = stopped d
