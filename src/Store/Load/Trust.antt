-- ===== src/Store/Load/Trust.antt =====
-- Which stored workflows `loadRecord` of internal/workflow/store.go makes routable.
use relay_flow.Prelude.{
  ℕ, String, true, Option, none, some, List, map, Result, ok, err, Bool-cases, ◌==◌, ==-eq, eq_iff,
  eqb, ◌≡◌, ◌↔◌, inl, inr, refl, ap, arith,
}
use relay_flow.Workflow.{Workflow, healthy}
use relay_flow.Workflow.Health.{
  is_routable, mark_healthy, mark_blocked, mark_unverified, mark_outdated,
}
use relay_flow.Workflow.Validate.{ValidateError, validate}
use relay_flow.Workflow.Name.{codes}
use relay_flow.Store.Load.{
  Read, missing, unreadable, found, byte_length, all_hex, trim_space, fold, equal_fold, Loader,
  StoredWorkflow, load_validated, load_hashed, load_named, load_parsed, load_record, load_recovered,
}
use relay_flow.Store.Load.Hex.{IsDigest, equal_fold_iff, same_digits}

-- A definition that may run under the name: it parses, has the name, is valid, and its sum stands in
-- the hash file, in either case of the letters and with blanks around it.
pub record IsTrusted (l : Loader) (name : String) (yaml hash : Read) (w : Workflow) : Type 0 where
  pub raw : String
  pub text : String
  pub reads : yaml ≡ found raw
  pub parses : l.parse raw ≡ ok w
  pub named : w.name ≡ name
  pub hash_reads : hash ≡ found text
  pub accepted : map fold (trim_space (codes text)) ≡ map fold (codes (l.sum raw))
  pub valid : validate w ≡ ok tt

-- The record is healthy and its workflow is the definition, marked so.
pub record IsHealthy (r : StoredWorkflow) (w : Workflow) : Type 0 where
  pub status : r.status ≡ healthy
  pub workflow : r.workflow ≡ mark_healthy w

module _ (l : Loader) (name : String) where
  abbrev Routes : StoredWorkflow → Type 0
  Routes r = is_routable (some r.workflow) ≡ true

  Routes-validated :
      (raw : String) (hash : List ℕ) (w : Workflow) (r : Result ValidateError (Unit {0}))
      → Routes (load_validated l name raw hash w r)
      → r ≡ ok tt
  unfolding is_routable mark_blocked
  Routes-validated raw hash w (ok u) h = refl
  Routes-validated raw hash w (err e) h = cc

  Routes-hashed :
      (raw : String) (w : Workflow) (hash : List ℕ)
      → Routes (load_hashed l name raw w hash)
      → (equal_fold hash (codes (l.sum raw)) ≡ true) × (validate w ≡ ok tt)
  unfolding load_hashed is_routable mark_blocked mark_outdated
  Routes-hashed raw w hash h = elim (Bool-cases (eqb (byte_length hash) 64)) [
    | inr a ↦ cc (rw a at h)
    | inl a ↦ elim (Bool-cases (all_hex hash)) [
      | inr b ↦ cc (rw (a, b) at h)
      | inl b ↦ elim (Bool-cases (equal_fold hash (codes (l.sum raw)))) [
        | inr c ↦ cc (rw (a, b, c) at h)
        | inl c ↦ (c, Routes-validated raw hash w (validate w) (rw (a, b, c) at h))
      ]
    ]
  ]

  Routes-named :
      (raw : String) (w : Workflow) (hash : Read)
      → l.parse raw ≡ ok w
      → w.name ≡ name
      → Routes (load_named l name raw w hash)
      → IsTrusted l name (found raw) hash w
  unfolding is_routable mark_blocked mark_unverified
  Routes-named raw w missing p n h = cc
  Routes-named raw w unreadable p n h = cc
  Routes-named raw w (found text) p n h =
      let (a, b) = Routes-hashed raw w (trim_space (codes text)) h in
      record {
        raw = raw;
        text = text;
        reads = refl;
        parses = p;
        named = n;
        hash_reads = refl;
        accepted = (equal_fold_iff _ _).0 a;
        valid = b;
      }

  Routes-parsed :
      (raw : String) (hash : Read) (r : Result String Workflow)
      → l.parse raw ≡ r
      → Routes (load_parsed l name raw hash r)
      → (w : Workflow) × IsTrusted l name (found raw) hash w
  unfolding load_parsed is_routable mark_blocked
  Routes-parsed raw hash (err e) p h = cc
  Routes-parsed raw hash (ok w) p h = elim (Bool-cases (w.name == name)) [
    | inl e ↦ (w, Routes-named raw w hash p (==-eq e) (rw e at h))
    | inr e ↦ cc (rw e at h)
  ]

  Routes-record :
      (yaml hash : Read)
      → Routes (load_record l name yaml hash)
      → (w : Workflow) × IsTrusted l name yaml hash w
  unfolding load_record is_routable mark_blocked
  Routes-record missing hash h = cc
  Routes-record unreadable hash h = cc
  Routes-record (found raw) hash h = Routes-parsed raw hash (l.parse raw) refl h

  -- And what is trusted is loaded as healthy.
  pub trusted-IsHealthy :
      (yaml hash : Read) (w : Workflow)
      → ((raw : String) → IsDigest (codes (l.sum raw)))
      → IsTrusted l name yaml hash w
      → IsHealthy (load_record l name yaml hash) w
  unfolding load_record load_parsed load_hashed
  trusted-IsHealthy yaml hash w digest t =
      let given = (digest t.raw) in
      let (hex, width) = same_digits _ _ t.accepted given.digits in
      let long : eqb (byte_length (trim_space (codes t.text))) 64 ≡ true =
        ground (arith, width, given.long) in
      let same = (equal_fold_iff (trim_space (codes t.text)) (codes (l.sum t.raw))).1 t.accepted in
      let name_ok : (w.name == name) ≡ true = (eq_iff w.name name).1 t.named in
      let loaded : load_record l name yaml hash
          ≡ load_validated l name t.raw (trim_space (codes t.text)) w (ok tt) =
        rw (t.reads, t.hash_reads)
          (rw (t.parses) (rw name_ok (rw (long, hex, same) (rw t.valid refl)))) in
      record { status = ap (λ r. r.status) loaded; workflow = ap (λ r. r.workflow) loaded }

  -- Where sums are digests: the workflow of a record that start-up loads is routable exactly when no
  -- recovery of its files failed and a definition is trusted; and then the record is healthy and its
  -- workflow is that definition, marked as healthy.
  pub load_recovered_iff :
      ((raw : String) → IsDigest (codes (l.sum raw)))
      → (issue : Option String) (yaml hash : Read)
      → (is_routable (some (load_recovered l name issue yaml hash).workflow) ≡ true) ↔ (
          (issue ≡ none)
          × ((w : Workflow) × IsTrusted l name yaml hash w
              × IsHealthy (load_recovered l name issue yaml hash) w))
  unfolding load_recovered is_routable mark_blocked mark_healthy
  load_recovered_iff digest (some issue) yaml hash = (λ h. cc, λ h. cc (h.0))
  load_recovered_iff digest none yaml hash = (
    λ h.
        let (w, t) = Routes-record yaml hash h in
        (refl, (w, t, trusted-IsHealthy yaml hash w digest t)),
    λ h. let e = h.1.2.workflow in ap (λ v. is_routable (some v)) e,
  )
