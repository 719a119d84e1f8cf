-- ===== src/Repo/Service.antt =====
-- `Register` and `Remove` of internal/repo/service.go, over the machine configuration of
-- internal/config/machine.go and the in-memory set of repos of internal/repo/repo.go. Of the
-- configuration only what these operations read or write is kept, and what is read back is what was
-- written.
pub mod Accepts
pub mod Distinct
use relay_flow.Prelude.{
  String, Bool, true, false, not, Option, none, some, List, [], ◌∷◌, Result, ok, err, guard, ◌>>=◌,
  ◌>>◌, each, lookup, ◌==◌, if◌then◌else◌,
}
use relay_flow.Config.{RawValues, Value}
use relay_flow.Repo.{TaskSystem, Repo}
use relay_flow.Store.Load.{is_space}
use Prim.Native.Char.{code}

-- `Repo` of the configuration.
pub record RepoConfig : Type 0 where
  pub path : String
  pub task_config : RawValues

pub record Machine : Type 0 where
  pub task_config : RawValues
  pub repos : List (String × RepoConfig)

pub record RegisterInput : Type 0 where
  pub name : String
  pub path : String
  pub task_config : RawValues

-- What the service calls: the task plugin, the runner, the harness, the queries of runs and
-- workflows, the paths of the operating system, and the reading and writing of the configuration.
-- A runner that does not implement `RepoRegistrar` has no `registrar`.
pub record Ports : Type 0 where
  pub required_repo_keys : Result String (List String)
  pub validate_registration : String → RawValues → RawValues → Result String (Unit {0})
  pub registration_key : String → RawValues → RawValues → Result String String
  pub registrar : Option (String → String → Result String (Unit {0}))
  pub validate_repo : String → String → Result String (Unit {0})
  pub new_system : String → String → RawValues → RawValues → Result String TaskSystem
  pub setup_repo : Option (String → Result String (Unit {0}))
  pub references_repo : String → Bool
  pub has_active_repo : String → Result String Bool
  pub abs : String → Option String
  pub clean : String → String
  pub eval_symlinks : String → Option String

-- How the accesses of one operation to the configuration go. A write can happen and be reported as
-- failed.
pub data Save : Type 0 where
  saves not_saved saves_late : Save

pub record Access : Type 0 where
  pub readable : Bool
  pub save : Save

pub record State : Type 0 where
  pub config : Machine
  pub registry : List (String × Repo)

pub data ServiceError : Type 0 where
  no_name load_failed save_failed : ServiceError
  no_path already_registered no_harness not_registered referenced has_active : String → ServiceError
  path_used identity_used missing_key : String → String → ServiceError
  port_failed : String → ServiceError

abbrev pub is_none : {A : Type 0} → Option A → Bool
is_none none = true
is_none (some a) = false

-- `m[name] = v` and `delete(m, name)`
unfoldable pub delete : {V : Type 0} → String → List (String × V) → List (String × V)
delete name [] = []
delete name ((k, v) ∷ m) = let rest = delete name m in if k == name then rest else (k, v) ∷ rest

abbrev pub put : {V : Type 0} → String → V → List (String × V) → List (String × V)
put name v m = (name, v) ∷ delete name m

abbrev pub ported : {A : Type 0} → Result String A → Result ServiceError A
ported (ok a) = ok a
ported (err e) = err (port_failed e)

-- `strings.TrimSpace`
unfoldable pub trim_left : String → String
trim_left String.[] = ""
trim_left (String.◌∷◌ c s) =
    let rest = trim_left s in if is_space (code c) then rest else String.◌∷◌ c s

unfoldable pub trim_right : String → String
trim_right String.[] = ""
trim_right (String.◌∷◌ c s) =
    let rest = trim_right s in
    if rest == "" then (if is_space (code c) then "" else String.◌∷◌ c rest) else String.◌∷◌ c rest

abbrev pub trim : String → String
trim s = trim_right (trim_left s)

abbrev pub resolved : Ports → String → String
resolved p a = elim (p.eval_symlinks a) [ none ↦ a | some r ↦ p.clean r ]

abbrev pub canonical_path : Ports → String → String
canonical_path p s = elim (p.abs s) [ none ↦ p.clean s | some a ↦ resolved p (p.clean a) ]

-- `v == nil || v == ""`, and a key that is not there.
unfoldable pub has_key : String → RawValues → Bool
has_key k RawValues.end = false
has_key k (RawValues.entry j Value.null m) =
    let rest = has_key k m in if j == k then false else rest
has_key k (RawValues.entry j (Value.scalar s) m) =
    let rest = has_key k m in if j == k then not (s == "") else rest
has_key k (RawValues.entry j v m) = let rest = has_key k m in if j == k then true else rest

module _ (p : Ports) where
  -- `EnsureRepo`
  abbrev pub provision : String → String → Result String (Unit {0})
  provision name path = elim p.registrar [ some f ↦ f name path | none ↦ p.validate_repo name path ]

  abbrev pub ensure_repo : String → String → Result ServiceError (Unit {0})
  ensure_repo name path =
      guard (not (trim name == "")) no_name
      >> guard (not (trim path == "")) (no_path (trim name))
      >> ported (provision (trim name) (trim path))

  abbrev pub check_path : RegisterInput → String × RepoConfig → Result ServiceError (Unit {0})
  check_path input (name, r) =
      guard (not (canonical_path p r.path == canonical_path p input.path))
        (path_used input.path name)

  abbrev pub check_scope : Machine → String → String × RepoConfig → Result ServiceError (Unit {0})
  check_scope cfg scope (name, r) =
      ported (p.registration_key name cfg.task_config r.task_config) >>= λ key.
      guard (not (key == scope)) (identity_used scope name)

  abbrev pub check_key : RegisterInput → String → Result ServiceError (Unit {0})
  check_key input k = guard (has_key k input.task_config) (missing_key input.name k)

  abbrev pub set_up : RegisterInput → Result ServiceError (Unit {0})
  set_up input = elim p.setup_repo [
    | none ↦ err (no_harness input.name)
    | some f ↦ ported (f input.path)
  ]

  -- The checks that come after the one of the paths, and the task system.
  unfoldable pub connect : RegisterInput → Machine → Result ServiceError TaskSystem
  connect input cfg =
      ensure_repo input.name input.path
      >> (ported (p.new_system input.name input.path cfg.task_config input.task_config) >>= λ sys.
          set_up input >> ok sys)

  unfoldable pub check_identity : RegisterInput → Machine → Result ServiceError TaskSystem
  check_identity input cfg =
      ported (p.registration_key input.name cfg.task_config input.task_config) >>= λ scope.
      each (check_scope cfg scope) cfg.repos >> connect input cfg

  unfoldable pub check_register : RegisterInput → Machine → Result ServiceError TaskSystem
  check_register input cfg =
      guard (is_none (lookup input.name cfg.repos)) (already_registered input.name)
      >> (each (check_path input) cfg.repos
          >> (ported p.required_repo_keys >>= λ keys.
              each (check_key input) keys
              >> (ported (p.validate_registration input.name cfg.task_config input.task_config)
                  >> check_identity input cfg)))

-- `Info`
pub record Info : Type 0 where
  pub name : String
  pub path : String
  pub task_config : RawValues

abbrev pub Reply : Type 0 → Type 0
Reply A = Result ServiceError A × State

-- `config.SaveMachine`, and what follows when it works.
abbrev pub saved : {A : Type 0} → Save → Machine → State → (State → Reply A) → Reply A
saved saves cfg st k = k (record st { config = cfg })
saved not_saved cfg st k = (err save_failed, st)
saved saves_late cfg st k = (err save_failed, record st { config = cfg })

abbrev pub new_repo : RegisterInput → TaskSystem → Repo
new_repo input sys = record {
  name = input.name;
  path = input.path;
  task_system = some sys;
  bindings = [];
}

abbrev pub entry_of : RegisterInput → RepoConfig
entry_of input = record { path = input.path; task_config = input.task_config }

abbrev pub with_repo : RegisterInput → Machine → Machine
with_repo input cfg = record cfg { repos = put input.name (entry_of input) cfg.repos }

abbrev pub without_repo : String → Machine → Machine
without_repo name cfg = record cfg { repos = delete name cfg.repos }

abbrev pub trimmed : RegisterInput → RegisterInput
trimmed input = record input { name = trim input.name; path = trim input.path }

abbrev pub persist : Save → RegisterInput → Result ServiceError TaskSystem → State → Reply Info
persist s input (err e) st = (err e, st)
persist s input (ok sys) st = saved s (with_repo input st.config) st λ st'. (
  ok (record { name = input.name; path = input.path; task_config = input.task_config }),
  record st' { registry = put input.name (new_repo input sys) st'.registry },
)

-- `config.LoadMachine`, before the checks that need it.
abbrev pub loaded : Bool → Machine → Result ServiceError Machine
loaded true cfg = ok cfg
loaded false cfg = err load_failed

module _ (p : Ports) where
  abbrev pub checked : Access → RegisterInput → Machine → Result ServiceError TaskSystem
  checked a input cfg =
      guard (not (input.name == "")) no_name
      >> (guard (not (input.path == "")) (no_path input.name)
          >> (loaded a.readable cfg >>= λ c. check_register p input c))

  -- `Register`
  unfoldable pub register : Access → RegisterInput → State → Reply Info
  register a input st = let i = trimmed input in persist a.save i (checked a i st.config) st

  unfoldable pub check_remove : Access → String → Machine → Result ServiceError (Unit {0})
  check_remove a name cfg =
      guard (not (p.references_repo name)) (referenced name)
      >> (ported (p.has_active_repo name) >>= λ active.
          guard (not active) (has_active name)
          >> (loaded a.readable cfg >>= λ c.
              guard (not (is_none (lookup name c.repos))) (not_registered name)))

  abbrev pub erase : Access → String → Result ServiceError (Unit {0}) → State → Reply (Unit {0})
  erase a name (err e) st = (err e, st)
  erase a name (ok u) st =
      saved a.save (without_repo name st.config) st
        λ st'. (ok tt, record st' { registry = delete name st'.registry })

  -- `Remove`
  unfoldable pub remove : Access → String → State → Reply (Unit {0})
  remove a name st = erase a name (check_remove a name st.config) st
