-- ===== src/Manager/Ensure/Calls.antt =====
-- The calls that steps of `EnsureRun` in internal/run/manager.go make one after the other.
use relay_flow.Prelude.{
  Bool, true, false, List, [], ◌∷◌, Memᴰ, mem-append_cases, Result, ok, err, Option-cases, ◌≡◌, ◌⊎◌,
  inl, inr, refl, ap,
}
use relay_flow.Run.{Start}
use relay_flow.Repo.{PortError}
use relay_flow.Manager.{RunManager}
use relay_flow.Manager.Ensure.{
  EnsureError, Call, ensures, Traced, settle, continued, relabel, and_then, ask, ensure,
}

module _ {A B : Type 0} (x : Call) where
  pub continued-calls :
      (cs : List Call) (r : Result EnsureError A) (f : A → Traced B)
      → Memᴰ x (continued cs r f).calls
      → Memᴰ x cs ⊎ ((a : A) × (r ≡ ok a) × Memᴰ x (f a).calls)
  continued-calls cs (ok a) f m = elim (mem-append_cases cs (f a).calls m) [
    | inl p ↦ inl p
    | inr q ↦ inr (a, refl, q)
  ]
  continued-calls cs (err e) f m = inl m

  pub after_settle :
      (r : Result EnsureError A) (f : A → Traced B)
      → Memᴰ x (and_then (settle r) f).calls
      → (a : A) × (r ≡ ok a) × Memᴰ x (f a).calls
  after_settle r f m = elim (continued-calls [] r f m) [ inl p ↦ elim p [ ] | inr q ↦ q ]

pub continued-result :
    {A B : Type 0} (cs : List Call) (r : Result EnsureError A) (f : A → Traced B) {b : B}
    → (continued cs r f).result ≡ ok b
    → (a : A) × (r ≡ ok a) × ((f a).result ≡ ok b)
continued-result cs (ok a) f h = (a, refl, h)
continued-result cs (err e) f h = cc

-- Calls of the adapters are no starts.
abbrev is_start : Call → Bool
is_start (ensures s) = true
is_start _ = false

module _ {A : Type 0} where
  pub relabel-ok :
      (f : PortError → EnsureError) (r : Result PortError A) {a : A} → relabel f r ≡ ok a → r ≡ ok a
  relabel-ok f (ok b) h = cc
  relabel-ok f (err e) h = cc

module _ {A B : Type 0} (s : Start) where
  pub after_ask :
      (c : Call) (g : PortError → EnsureError) (r : Result PortError A) (f : A → Traced B)
      → is_start c ≡ false
      → Memᴰ (ensures s) (and_then (ask c g r) f).calls
      → (a : A) × (r ≡ ok a) × Memᴰ (ensures s) (f a).calls
  after_ask c g r f n m = elim (continued-calls (ensures s) (c ∷ []) (relabel g r) f m) [
    | inl (Memᴰ.head e) ↦ absurd (cc (n, ap is_start e))
    | inl (Memᴰ.tail p) ↦ elim p [ ]
    | inr (a, e, q) ↦ (a, relabel-ok g r e, q)
  ]

pub ensure-calls : (m : RunManager) (s t : Start) → Memᴰ (ensures s) (ensure m t).calls → s ≡ t
unfolding ensure
ensure-calls m s t h = elim (Option-cases m.ensure_port) [
  | inl e ↦ elim (rw (e, ensure) at h) [ ]
  | inr (p, e) ↦ elim (rw (e, ensure) at h) [ Memᴰ.head q ↦ started q | Memᴰ.tail r ↦ elim r [ ] ]
]
  where
    started : ensures s ≡ ensures t → s ≡ t
    started q = cc
