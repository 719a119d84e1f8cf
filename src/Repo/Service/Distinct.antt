-- ===== src/Repo/Service/Distinct.antt =====
-- What `Register` and `Remove` of internal/repo/service.go keep of the repos of the configuration.
use relay_flow.Prelude.{
  String, Bool, true, false, not, List, [], ◌∷◌, Result, ok, err, first_guard, first_step, ◌==◌,
  ◌≡◌, refl, sym, subst,
}
use relay_flow.Repo.{TaskSystem}
use relay_flow.Repo.Service.{
  Ports, Machine, RegisterInput, Access, State, Save, saves, not_saved, saves_late, ServiceError,
  canonical_path, check_register, checked, loaded, persist, erase, register, check_remove, remove,
  trimmed, Reply, saved, with_repo, without_repo,
}
use relay_flow.Repo.Service.Accepts.{
  ok_equal, delete-AreDistinct, IsDistinct, IsNew, check_register-IsNew, with_repo-IsDistinct,
}

-- A save leaves the configuration as it was, or as it is to be.
saved-IsDistinct :
    {A : Type 0} (p : Ports) (s : Save) (cfg : Machine) (st : State) (k : State → Reply A)
    → ((st' : State) → (k st').1.config ≡ st'.config)
    → IsDistinct p st.config
    → IsDistinct p cfg
    → IsDistinct p (saved s cfg st k).1.config
saved-IsDistinct p saves cfg st k same old new =
    subst (IsDistinct p) (sym (same (record st { config = cfg }))) new
saved-IsDistinct p not_saved cfg st k same old new = old
saved-IsDistinct p saves_late cfg st k same old new = new

module _ (p : Ports) (a : Access) where
  checked-IsNew :
      (input : RegisterInput) (cfg : Machine) {sys : TaskSystem}
      → checked p a input cfg ≡ ok sys
      → IsNew p input cfg
  checked-IsNew input cfg {sys} h =
      let (b, _) = first_guard (not (input.name == "")) _ _ h in
      let (c, _) = first_guard (not (input.path == "")) _ _ b in
      let (cfg', d, same) = first_step (loaded a.readable cfg) _ c in
      check_register-IsNew p input cfg
        (subst (λ k. check_register p input k ≡ ok sys) (loaded-same a.readable cfg same) d)
    where
      loaded-same : (readable : Bool) (c : Machine) {d : Machine} → loaded readable c ≡ ok d → d ≡ c
      loaded-same true c h = ok_equal refl refl (sym h)
      loaded-same false c h = cc

  persist-IsDistinct :
      (input : RegisterInput) (st : State) (r : Result ServiceError TaskSystem)
      → checked p a input st.config ≡ r
      → IsDistinct p st.config
      → IsDistinct p (persist a.save input r st).1.config
  persist-IsDistinct input st (err e) h d = d
  persist-IsDistinct input st (ok sys) h d =
      saved-IsDistinct p a.save (with_repo input st.config) st _ (λ st'. refl) d
        (with_repo-IsDistinct p input st.config d (checked-IsNew input st.config h))

  register-IsDistinct :
      (input : RegisterInput) (st : State)
      → IsDistinct p st.config
      → IsDistinct p (register p a input st).1.config
  unfolding register
  register-IsDistinct input st d =
      persist-IsDistinct (trimmed input) st (checked p a (trimmed input) st.config) refl d

  erase-IsDistinct :
      (name : String) (st : State) (r : Result ServiceError (Unit {0}))
      → IsDistinct p st.config
      → IsDistinct p (erase p a name r st).1.config
  erase-IsDistinct name st (err e) d = d
  erase-IsDistinct name st (ok u) d =
      saved-IsDistinct p a.save (without_repo name st.config) st _ (λ st'. refl) d
        (delete-AreDistinct (canonical_path p) p.registration_key st.config.task_config name
          st.config.repos d)

  remove-IsDistinct :
      (name : String) (st : State)
      → IsDistinct p st.config
      → IsDistinct p (remove p a name st).1.config
  unfolding remove
  remove-IsDistinct name st d = erase-IsDistinct name st (check_remove p a name st.config) d

-- One call, with what the ports answer to it and how its accesses go.
pub data Op : Type 0 where
  registers : Ports → Access → RegisterInput → Op
  removes : Ports → Access → String → Op

-- The paths and the identities are those of `p` throughout.
abbrev pub named : Ports → Ports → Ports
named p q = record q {
  registration_key = p.registration_key;
  abs = p.abs;
  clean = p.clean;
  eval_symlinks = p.eval_symlinks;
}

pub run : Ports → List Op → State → State
run p [] st = st
run p (registers q a input ∷ ops) st = run p ops (register (named p q) a input st).1
run p (removes q a name ∷ ops) st = run p ops (remove (named p q) a name st).1

-- Whatever the plugin, the runner, the harness and the queries answer to each call, and where paths
-- and identities stay what they are. If no two repos of the configuration have the same name, the
-- same canonical path or the same identity for the task system, then none have after any sequence of
-- `Register` and `Remove` calls, each of which may fail anywhere, also in or after its save.
pub run-IsDistinct :
    (p : Ports) (ops : List Op) (st : State)
    → IsDistinct p st.config
    → IsDistinct p (run p ops st).config
unfolding run
run-IsDistinct p [] st d = d
run-IsDistinct p (registers q a input ∷ ops) st d =
    run-IsDistinct p ops _ (register-IsDistinct (named p q) a input st d)
run-IsDistinct p (removes q a name ∷ ops) st d =
    run-IsDistinct p ops _ (remove-IsDistinct (named p q) a name st d)
