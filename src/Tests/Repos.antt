-- ===== src/Tests/Repos.antt =====
-- A configuration to which one repo is added, and from which another is removed.
use relay_flow.Prelude.{String, true, false, none, some, List, [], ◌∷◌, map, ok, ◌≡◌, refl}
use relay_flow.Config.{RawValues}
use relay_flow.Store.Load.{is_space}
use relay_flow.Repo.Service.{
  Ports, Access, State, saves, saves_late, RegisterInput, register, remove, check_register,
  check_identity, connect, delete, trim_left, trim_right, check_remove,
}
use relay_flow.Repo.Service.Accepts.{IsDistinct}
use relay_flow.Repo.Service.Distinct.{Op, registers, removes, run, run-IsDistinct}

abbrev ports : Ports
ports = record {
  required_repo_keys = ok [];
  validate_registration = λ name root values. ok tt;
  registration_key = λ name root values. ok name;
  registrar = none;
  validate_repo = λ name path. ok tt;
  new_system = λ name path root values. ok (record {
    capabilities = none;
    has_comment = λ t marker. ok false;
    compile_filter = λ values. ok none;
  });
  setup_repo = some (λ path. ok tt);
  references_repo = λ name. false;
  has_active_repo = λ name. ok false;
  abs = λ path. some path;
  clean = λ path. path;
  eval_symlinks = λ path. none;
}

abbrev works : Access
works = record { readable = true; save = saves }

abbrev app : State
app = record {
  config = record {
    task_config = RawValues.end;
    repos = ("app", record { path = "/app"; task_config = RawValues.end }) ∷ [];
  };
  registry = [];
}

abbrev input_at : String → String → RegisterInput
input_at name path = record { name = name; path = path; task_config = RawValues.end }

abbrev names : State → List String
names st = map (λ e. e.0) st.config.repos

-- The name is trimmed.
registers_web : names (register ports works (input_at " web" "/web") app).1 ≡ "web" ∷ "app" ∷ []
unfolding register trim_right trim_left is_space check_register check_identity connect delete
registers_web = refl

-- The path is taken.
refuses_path : names (register ports works (input_at "web" "/app") app).1 ≡ "app" ∷ []
unfolding register trim_right trim_left is_space check_register
refuses_path = refl

removes_app : names (remove ports works "app" app).1 ≡ []
unfolding remove check_remove delete
removes_app = refl

abbrev ops : List Op
ops =
    registers ports works (input_at "web" "/web")
    ∷ removes ports (record works { save = saves_late }) "app"
    ∷ []

run-IsDistinct_example : IsDistinct ports (run ports ops app).config
run-IsDistinct_example = run-IsDistinct ports ops app (tt, tt)
