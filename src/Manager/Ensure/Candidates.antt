-- ===== src/Manager/Ensure/Candidates.antt =====
-- What the loop over the candidates of `EnsureRun` in internal/run/manager.go finds.
use relay_flow.Prelude.{
  String, true, false, Option, none, some, List, [], ◌∷◌, Memᴰ, All, Bool-cases, ◌≡◌, ◌≢◌, ◌⊎◌, inl,
  inr, refl, subst, arith,
}
use relay_flow.Run.{Run}
use relay_flow.Manager.Ensure.{
  normalized, newer_run, keep_newer, is_current, keep_active, scan_candidates,
}

keep_newer-some :
    (a : Option Run) (c : Run) {x : Run} → keep_newer a c ≡ some x → (a ≡ some x) ⊎ (c ≡ x)
keep_newer-some none c h = inr (cc)
keep_newer-some (some r) c h = elim (Bool-cases (newer_run c r)) [
  | inl e ↦ inr (ground arith)
  | inr e ↦ inl (ground arith)
]

keep_active-some :
    (a : Option Run) (c : Run) {x : Run}
    → keep_active a c ≡ some x
    → (a ≡ some x) ⊎ ((c ≡ x) × (is_current x ≡ true))
keep_active-some a c {x} h = elim (Bool-cases (is_current c)) [
  | inl e ↦ elim (keep_newer-some a c (rw e at h)) [
    | inl p ↦ inl p
    | inr p ↦ inr (p, subst (λ r. is_current r ≡ true) p e)
  ]
  | inr e ↦ inl (rw e at h)
]

keep_newer-none : (a : Option Run) (c : Run) → keep_newer a c ≢ none
keep_newer-none none c h = cc
keep_newer-none (some r) c h = cc

keep_active-none :
    (a : Option Run) (c : Run) → keep_active a c ≡ none → (a ≡ none) × (is_current c ≡ false)
keep_active-none a c h = elim (Bool-cases (is_current c)) [
  | inl e ↦ absurd (keep_newer-none a c (rw e at h))
  | inr e ↦ (rw e at h, e)
]

-- The active attempt that the loop finds is one of the candidates.
abbrev pub Among : String → List Run → Run → Type 0
Among id cs x = (c : Run) × Memᴰ c cs × (normalized id c ≡ x)

pub scan-active :
    (id : String) (cs : List Run) (l a : Option Run) {x : Run}
    → (scan_candidates id cs l a).1 ≡ some x
    → (a ≡ some x) ⊎ (Among id cs x × (is_current x ≡ true))
unfolding scan_candidates
scan-active id [] l a h = inl h
scan-active id (c ∷ cs) l a {x} h =
    elim (scan-active id cs (keep_newer l (normalized id c)) (keep_active a (normalized id c)) h) [
      | inr ((d, m, e), k) ↦ inr ((d, Memᴰ.tail m, e), k)
      | inl e ↦ elim (keep_active-some a (normalized id c) e) [
        | inl p ↦ inl p
        | inr (p, k) ↦ inr ((c, Memᴰ.head refl, p), k)
      ]
    ]

pub scan-no_active :
    (id : String) (cs : List Run) (l a : Option Run)
    → (scan_candidates id cs l a).1 ≡ none
    → (a ≡ none) × All (λ c. is_current (normalized id c) ≡ false) cs
unfolding scan_candidates
scan-no_active id [] l a h = (h, tt)
scan-no_active id (c ∷ cs) l a h =
    let (e, f) =
      scan-no_active id cs (keep_newer l (normalized id c)) (keep_active a (normalized id c)) h in
    let (p, q) = keep_active-none a (normalized id c) e in (p, (q, f))

pub scan-latest :
    (id : String) (cs : List Run) (l a : Option Run) {x : Run}
    → (scan_candidates id cs l a).0 ≡ some x
    → (l ≡ some x) ⊎ Among id cs x
unfolding scan_candidates
scan-latest id [] l a h = inl h
scan-latest id (c ∷ cs) l a {x} h =
    elim (scan-latest id cs (keep_newer l (normalized id c)) (keep_active a (normalized id c)) h) [
      | inr (d, m, e) ↦ inr (d, Memᴰ.tail m, e)
      | inl e ↦ elim (keep_newer-some l (normalized id c) e) [
        | inl p ↦ inl p
        | inr p ↦ inr (c, Memᴰ.head refl, p)
      ]
    ]

pub scan-no_latest :
    (id : String) (cs : List Run) (l a : Option Run)
    → (scan_candidates id cs l a).0 ≡ none
    → (l ≡ none) × (cs ≡ [])
unfolding scan_candidates
scan-no_latest id [] l a h = (h, refl)
scan-no_latest id (c ∷ cs) l a h =
    let (e, f) =
      scan-no_latest id cs (keep_newer l (normalized id c)) (keep_active a (normalized id c)) h in
    absurd (keep_newer-none l (normalized id c) e)
