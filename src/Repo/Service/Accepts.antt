-- ===== src/Repo/Service/Accepts.antt =====
-- What `Register` of internal/repo/service.go has checked of the other repos when it saves.
use relay_flow.Prelude.{
  String, true, Option, none, some, List, [], ◌∷◌, All, Memᴰ, Result, ok, err, first_guard,
  first_step, >>-eq-ok, each, each_iff, guard_iff, not_==_iff, lookup, ◌==◌, ==-ne, either_way,
  Bool-cases, ◌≡◌, ◌≢◌, inl, inr, refl, sym, ◌∙◌,
}
use relay_flow.Config.{RawValues}
use relay_flow.Repo.{TaskSystem}
use relay_flow.Repo.Service.{
  Ports, RepoConfig, Machine, RegisterInput, is_none, delete, ported, canonical_path, check_path,
  check_scope, check_identity, check_register, entry_of, with_repo,
}

All-of {κ} : {A : Type 0} (P : A → Type κ) (xs : List A) → ((a : A) → Memᴰ a xs → P a) → All P xs
All-of P [] h = tt
All-of P (x ∷ xs) h = (h x (Memᴰ.head refl), All-of P xs (λ a m. h a (Memᴰ.tail m)))

All-and {κ μ ν} :
    {A : Type 0} (P : A → Type κ) (Q : A → Type μ) (R : A → Type ν)
    → ((a : A) → P a → Q a → R a)
    → (xs : List A) → All P xs
    → All Q xs
    → All R xs
All-and P Q R f [] p q = tt
All-and P Q R f (x ∷ xs) p q = (f x p.0 q.0, All-and P Q R f xs p.1 q.1)

delete-All {κ} :
    {V : Type 0} (P : String × V → Type κ) (name : String) (m : List (String × V))
    → All P m
    → All P (delete name m)
unfolding delete
delete-All P name [] h = tt
delete-All P name ((k, v) ∷ m) h =
    either_way (All P) (k == name) (delete name m) ((k, v) ∷ delete name m)
      (λ _. delete-All P name m h.1) (λ _. (h.0, delete-All P name m h.1))

absent-All :
    {V : Type 0} (name : String) (m : List (String × V))
    → lookup name m ≡ none
    → All (λ e. name ≢ e.0) m
absent-All name [] h = tt
absent-All name ((k, v) ∷ m) h = elim (Bool-cases (k == name)) [
  | inl e ↦ cc (rw e at h)
  | inr e ↦ (λ same. ==-ne e (sym same), absent-All name m (rw e at h))
]

ported-ok : {A : Type 0} (r : Result String A) {a : A} → ported r ≡ ok a → r ≡ ok a
ported-ok (ok b) h = cc
ported-ok (err e) h = cc

pub ok_equal {ℓ κ} :
    {E : Type ℓ} {A : Type κ} {r s : Result E A} {a b : A} → r ≡ ok a → s ≡ ok b → r ≡ s → a ≡ b
ok_equal h k e = cc

module _ (canonical : String → String)
    (identify : String → RawValues → RawValues → Result String String) (root : RawValues) where
  -- Another name, another path, and another identity for the task system.
  pub record Differ (e f : String × RepoConfig) : Type 0 where
    pub name : e.0 ≢ f.0
    pub path : canonical e.1.path ≢ canonical f.1.path
    pub identity :
        (key : String)
        → identify e.0 root e.1.task_config ≡ ok key
        → identify f.0 root f.1.task_config ≢ ok key

  abbrev pub AreDistinct : List (String × RepoConfig) → Type 0
  AreDistinct [] = Unit
  AreDistinct (e ∷ es) = All (Differ e) es × AreDistinct es

  pub delete-AreDistinct :
      (name : String) (es : List (String × RepoConfig))
      → AreDistinct es
      → AreDistinct (delete name es)
  unfolding delete
  delete-AreDistinct name [] h = tt
  delete-AreDistinct name ((k, v) ∷ es) h =
      either_way AreDistinct (k == name) (delete name es) ((k, v) ∷ delete name es)
        (λ _. delete-AreDistinct name es h.1)
        (λ _. (delete-All (Differ (k, v)) name es h.0, delete-AreDistinct name es h.1))

abbrev pub IsDistinct : Ports → Machine → Type 0
IsDistinct p cfg = AreDistinct (canonical_path p) p.registration_key cfg.task_config cfg.repos

module _ (p : Ports) (input : RegisterInput) (cfg : Machine) where
  path_ok :
      (e : String × RepoConfig)
      → check_path p input e ≡ ok tt
      → canonical_path p input.path ≢ canonical_path p e.1.path
  path_ok (name, r) h =
      let ne =
        (not_==_iff (canonical_path p r.path) (canonical_path p input.path)).0
          ((guard_iff _ _).0 h) in
      λ same. ne (sym same)

  scope_ok :
      (scope : String) (e : String × RepoConfig)
      → check_scope p cfg scope e ≡ ok tt
      → (key : String) × (p.registration_key e.0 cfg.task_config e.1.task_config ≡ ok key)
        × (key ≢ scope)
  scope_ok scope (name, r) h =
      let (key, rest, found) =
        first_step (ported (p.registration_key name cfg.task_config r.task_config)) _ h in
      (key, ported-ok _ found, (not_==_iff key scope).0 ((guard_iff _ _).0 rest))

  -- What `Register` has found out of the other repos.
  pub record IsNew : Type 0 where
    pub names : All (λ e. input.name ≢ e.0) cfg.repos
    pub paths : All (λ e. canonical_path p input.path ≢ canonical_path p e.1.path) cfg.repos
    pub scope : String
    pub identity : p.registration_key input.name cfg.task_config input.task_config ≡ ok scope
    pub others :
        All
          (λ e.
            (key : String) × (p.registration_key e.0 cfg.task_config e.1.task_config ≡ ok key)
            × (key ≢ scope))
          cfg.repos

  is_none-eq : {A : Type 0} (o : Option A) → is_none o ≡ true → o ≡ none
  is_none-eq none h = refl
  is_none-eq (some a) h = cc

  pub check_register-IsNew : {sys : TaskSystem} → check_register p input cfg ≡ ok sys → IsNew
  unfolding check_register check_identity
  check_register-IsNew h =
      let (a, absent) = first_guard (is_none (lookup input.name cfg.repos)) _ _ h in
      let (paths, b) = >>-eq-ok (each (check_path p input) cfg.repos) _ a in
      let (keys, c, _) = first_step (ported p.required_repo_keys) _ b in
      let (_, d) = >>-eq-ok (each _ keys) _ c in
      let (_, e) = >>-eq-ok (ported _) _ d in
      let (scope, f, own) = first_step (ported _) _ e in
      let (scopes, _) = >>-eq-ok (each (check_scope p cfg scope) cfg.repos) _ f in
      record {
        names = absent-All input.name cfg.repos (is_none-eq _ absent);
        paths =
            All-of _ cfg.repos
              (λ e m. path_ok e ((each_iff (check_path p input) cfg.repos).0 paths e m));
        scope = scope;
        identity = ported-ok _ own;
        others =
            All-of _ cfg.repos (λ e m.
              scope_ok scope e ((each_iff (check_scope p cfg scope) cfg.repos).0 scopes e m));
      }

  new-Differ :
      IsNew
      → All
          (Differ
            (canonical_path p)
            p.registration_key
            cfg.task_config
            (input.name, entry_of input))
          cfg.repos
  new-Differ h =
      All-and _ _ _
        (λ e ns k. record {
          name = ns.0;
          path = ns.1;
          identity = λ key own other. k.2 (ok_equal k.1 other refl ∙ ok_equal own h.identity refl);
        })
        cfg.repos
        (All-and _ _
          (λ e. (input.name ≢ e.0) × (canonical_path p input.path ≢ canonical_path p e.1.path))
          (λ e a b. (a, b)) cfg.repos h.names h.paths)
        h.others

  pub with_repo-IsDistinct : IsDistinct p cfg → IsNew → IsDistinct p (with_repo input cfg)
  with_repo-IsDistinct d h = (
    delete-All _ input.name cfg.repos (new-Differ h),
    delete-AreDistinct (canonical_path p) p.registration_key cfg.task_config input.name cfg.repos d,
  )
