-- ===== src/Store/Load.antt =====
-- `LoadAllRecords` and `loadRecord` of internal/workflow/store.go: the records of the stored workflows
-- at start-up. The hash file is a text of code points.
pub mod Hex
pub mod Trust
use Prim.Native.String.{compare}
use text.Mathlib.Text.{is_le}
use relay_flow.Prelude.{
  ℕ, ◌+◌, String, Bool, true, false, not, Option, none, some, List, [], ◌∷◌, ◌++◌, map, Result, ok,
  err, guard, ◌>>=◌, ◌>>◌, lookup, ◌==◌, ◌&&◌, ◌||◌, is_empty, ltb, leb, eqb, if◌then◌else◌, ◌+++◌,
}
use relay_flow.Workflow.{
  Workflow, zero_workflow, HealthStatus, healthy, blocked, unverified, outdated,
}
use relay_flow.Workflow.Health.{mark_healthy, mark_blocked, mark_unverified, mark_outdated}
use relay_flow.Workflow.Validate.{ValidateError, validate}
use relay_flow.Workflow.Name.{codes}

-- How a read of a file goes.
pub data Read : Type 0 where
  missing : Read
  unreadable : Read
  found : String → Read

-- `unicode.IsSpace` and `strings.TrimSpace`.
abbrev in_range : ℕ → ℕ → ℕ → Bool
in_range lo hi c = leb lo c && leb c hi

unfoldable pub is_space : ℕ → Bool
is_space c =
    in_range 9 13 c
    || eqb c 0x20
    || eqb c 0x85
    || eqb c 0xA0
    || eqb c 0x1680
    || in_range 0x2000 0x200A c
    || in_range 0x2028 0x2029 c
    || eqb c 0x202F
    || eqb c 0x205F
    || eqb c 0x3000

unfoldable pub trim_left : List ℕ → List ℕ
trim_left [] = []
trim_left (c ∷ s) = if is_space c then trim_left s else c ∷ s

unfoldable pub trim_right : List ℕ → List ℕ
trim_right [] = []
trim_right (c ∷ s) = let rest = trim_right s in if is_empty rest && is_space c then [] else c ∷ rest

unfoldable pub trim_space : List ℕ → List ℕ
unfolding trim_left trim_right
trim_space s = trim_right (trim_left s)

-- The bytes of a text in UTF-8.
abbrev width : ℕ → ℕ
width c = if ltb c 0x80 then 1 else if ltb c 0x800 then 2 else if ltb c 0x10000 then 3 else 4

unfoldable pub byte_length : List ℕ → ℕ
byte_length [] = 0
byte_length (c ∷ s) = width c + byte_length s

-- `hex.DecodeString` accepts a text of even length; the length has been checked then.
abbrev pub is_hex : ℕ → Bool
is_hex c = in_range b'0' b'9' c || in_range b'a' b'f' c || in_range b'A' b'F' c

unfoldable pub all_hex : List ℕ → Bool
all_hex [] = true
all_hex (c ∷ s) = is_hex c && all_hex s

-- `strings.EqualFold`, of texts in ASCII.
abbrev pub fold : ℕ → ℕ
fold c = if in_range b'A' b'Z' c then c + 32 else c

unfoldable pub equal_fold : List ℕ → List ℕ → Bool
equal_fold [] [] = true
equal_fold [] (d ∷ t) = false
equal_fold (c ∷ s) [] = false
equal_fold (c ∷ s) (d ∷ t) = eqb (fold c) (fold d) && equal_fold s t

-- `StatusReason`, with what its text quotes.
pub data Reason : Type 0 where
  definition_unreadable : Read → Reason
  parse_failed : String → Reason
  named_otherwise : String → String → Reason
  hash_missing hash_unreadable hash_length hash_invalid : Reason
  hash_mismatch : List ℕ → List ℕ → Reason
  validation_failed : ValidateError → Reason
  recovery_failed : String → Reason

-- What the loader is given: `Parse` over the YAML library (its name argument is for the texts of its
-- errors), the hexadecimal SHA-256 sum, the texts of the reasons, and `filepath.Join` with the folder.
pub record Loader : Type 0 where
  pub parse : String → Result String Workflow
  pub sum : String → String
  pub reason_text : Reason → String
  pub join : String → String

pub record StoredWorkflow : Type 0 where
  pub name : String
  pub raw : Option String
  pub accepted_hash : List ℕ
  pub workflow : Workflow
  pub status : HealthStatus
  pub reason : Option Reason
  pub repair_command : String

module _ (l : Loader) (name : String) where
  -- `repairCommand`
  abbrev pub repair_command : String
  repair_command = "relay-flow workflow submit --file " +++ l.join (name +++ ".yaml")

  -- A record that is not healthy, with the mark that its workflow gets.
  abbrev rejected :
      HealthStatus
      → (String → String → Workflow → Workflow)
      → Option String
      → List ℕ
      → Workflow
      → Reason
      → StoredWorkflow
  rejected status mark raw hash w reason = record {
    name = name;
    raw = raw;
    accepted_hash = hash;
    workflow = mark (l.reason_text reason) repair_command w;
    status = status;
    reason = some reason;
    repair_command = repair_command;
  }

  abbrev placeholder : Workflow
  placeholder = record zero_workflow { name = name }

  -- The validation, once the sum is right.
  abbrev pub load_validated :
      String → List ℕ → Workflow → Result ValidateError (Unit {0}) → StoredWorkflow
  load_validated raw hash w (err e) =
      rejected blocked mark_blocked (some raw) hash w (validation_failed e)
  load_validated raw hash w (ok _) = record {
    name = name;
    raw = some raw;
    accepted_hash = hash;
    workflow = mark_healthy w;
    status = healthy;
    reason = none;
    repair_command = repair_command;
  }

  -- The checks of the accepted hash.
  unfoldable pub load_hashed : String → Workflow → List ℕ → StoredWorkflow
  load_hashed raw w hash =
      let actual = codes (l.sum raw) in
      if not (eqb (byte_length hash) 64)
      then rejected blocked mark_blocked (some raw) hash w hash_length
      else if not (all_hex hash)
      then rejected blocked mark_blocked (some raw) hash w hash_invalid
      else if not (equal_fold hash actual)
      then rejected outdated mark_outdated (some raw) hash w (hash_mismatch hash actual)
      else load_validated raw hash w (validate w)

  abbrev pub load_named : String → Workflow → Read → StoredWorkflow
  load_named raw w missing = rejected unverified mark_unverified (some raw) [] w hash_missing
  load_named raw w unreadable = rejected blocked mark_blocked (some raw) [] w hash_unreadable
  load_named raw w (found text) = load_hashed raw w (trim_space (codes text))

  unfoldable pub load_parsed : String → Read → Result String Workflow → StoredWorkflow
  load_parsed raw hash (err e) =
      rejected blocked mark_blocked (some raw) [] placeholder (parse_failed e)
  load_parsed raw hash (ok w) =
      if not (w.name == name)
      then rejected blocked mark_blocked (some raw) [] w (named_otherwise name w.name)
      else load_named raw w hash

  -- `loadRecord`, with how the reads of the two files go.
  unfoldable pub load_record : Read → Read → StoredWorkflow
  unfolding load_parsed load_hashed
  load_record (found raw) hash = load_parsed raw hash (l.parse raw)
  load_record other hash =
      rejected blocked mark_blocked none [] placeholder (definition_unreadable other)

  -- The record of one name in `LoadAllRecords`, with the issue of its recovery.
  unfoldable pub load_recovered : Option String → Read → Read → StoredWorkflow
  unfolding load_record
  load_recovered none yaml hash = load_record yaml hash
  load_recovered (some issue) yaml hash =
      let r = load_record yaml hash in
      let reason = recovery_failed issue in
      record r {
        status = blocked;
        reason = some reason;
        workflow = mark_blocked (l.reason_text reason) repair_command r.workflow;
      }

-- The names: those of the definition files and those of the recovery issues, each once and sorted.
abbrev pub insert_name : String → List String → List String
insert_name n [] = n ∷ []
insert_name n (m ∷ ms) =
    let rest = insert_name n ms in
    if n == m then m ∷ ms else if is_le (compare n m) then n ∷ m ∷ ms else m ∷ rest

unfoldable pub names : List String → List String
names [] = []
names (n ∷ ns) = insert_name n (names ns)

-- The folder after the recovery: the definition files, the issues of the recovery by name, and how the
-- reads go.
pub record Folder : Type 0 where
  pub definitions : List String
  pub issues : List (String × String)
  pub yaml : String → Read
  pub hash : String → Read

-- `LoadAllRecords` and `LoadAll`, of a folder that can be listed.
unfoldable pub load_all_records : Loader → Folder → List StoredWorkflow
unfolding load_recovered names
load_all_records l f =
    map (λ n. load_recovered l n (lookup n f.issues) (f.yaml n) (f.hash n))
      (names (f.definitions ++ map (λ i. i.0) f.issues))

unfoldable pub load_all : Loader → Folder → List Workflow
unfolding load_all_records
load_all l f = map (λ r. r.workflow) (load_all_records l f)
