-- ===== src/Projection/Table.antt =====
-- SQL statements of internal/execution/projection/projection.go over the list of a table's rows.
pub mod Keys
use relay_flow.Prelude.{
  ℕ, suc, ◌+◌, ◌≡◌, refl, Bool, true, false, Option, none, some, List, [], ◌∷◌, if◌then◌else◌,
  arith, Bool-cases, Option-cases, ◌∙◌, inl, inr,
}

module _ {ℓ} {R : Type ℓ} where
  -- `UPDATE … SET f WHERE test`
  unfoldable pub update_where : (R → Bool) → (R → R) → List R → List R
  update_where test f [] = []
  update_where test f (r ∷ rs) = (if test r then f r else r) ∷ update_where test f rs

  -- `RowsAffected`
  unfoldable pub affected : (R → Bool) → List R → ℕ
  affected test [] = 0
  affected test (r ∷ rs) = let rest = affected test rs in if test r then suc rest else rest

  -- `SELECT … WHERE test`, the first row
  unfoldable pub find : (R → Bool) → List R → Option R
  find test [] = none
  find test (r ∷ rs) = if test r then some r else find test rs

  -- `DELETE … WHERE test`
  unfoldable pub delete_where : (R → Bool) → List R → List R
  delete_where test [] = []
  delete_where test (r ∷ rs) = let rest = delete_where test rs in if test r then rest else r ∷ rest

  -- `SELECT … WHERE test`, all rows
  unfoldable pub select : (R → Bool) → List R → List R
  select test [] = []
  select test (r ∷ rs) = let rest = select test rs in if test r then r ∷ rest else rest

  -- `INSERT … ON CONFLICT … DO UPDATE`: a row that the test finds is changed, else the new one is
  -- added.
  unfoldable pub upsert : (R → Bool) → (R → R) → R → List R → List R
  unfolding update_where find
  upsert test f new rs = elim (find test rs) [ none ↦ new ∷ rs | some r ↦ update_where test f rs ]

  -- `INSERT … ON CONFLICT … DO NOTHING`
  unfoldable pub insert_new : (R → Bool) → R → List R → List R
  unfolding find
  insert_new test new rs = elim (find test rs) [ none ↦ new ∷ rs | some r ↦ rs ]

  -- An update that keeps the key that `key` tests: the row of the key is updated where the
  -- condition holds, and is as it was otherwise.
  pub find-update_where_key :
      (key cond : R → Bool) (f : R → R)
      → ((r : R) → key (f r) ≡ key r)
      → (rs : List R) {r : R} → find key rs ≡ some r
      → find key (update_where cond f rs) ≡ some (if cond r then f r else r)
  unfolding find update_where
  find-update_where_key key cond f keeps [] h = cc
  find-update_where_key key cond f keeps (x ∷ rs) {r} h = elim (Bool-cases (cond x)) [
    | inl c ↦ rw c (ground (arith, keeps x, find-update_where_key key cond f keeps rs {r = r}))
    | inr c ↦ rw c (ground (arith, find-update_where_key key cond f keeps rs {r = r}))
  ]

  pub find-update_where-none :
      (key cond : R → Bool) (f : R → R)
      → ((r : R) → key (f r) ≡ key r)
      → (rs : List R) → find key rs ≡ none
      → find key (update_where cond f rs) ≡ none
  unfolding find update_where
  find-update_where-none key cond f keeps [] h = refl
  find-update_where-none key cond f keeps (x ∷ rs) h = elim (Bool-cases (cond x)) [
    | inl c ↦ rw c (ground (arith, keeps x, find-update_where-none key cond f keeps rs))
    | inr c ↦ rw c (ground (arith, find-update_where-none key cond f keeps rs))
  ]

  pub find_test : (test : R → Bool) (rs : List R) {r : R} → find test rs ≡ some r → test r ≡ true
  unfolding find
  find_test test [] h = cc
  find_test test (x ∷ rs) {r} h = elim (Bool-cases (test x)) [
    | inl c ↦ ground arith
    | inr c ↦ find_test test rs (ground arith)
  ]

  -- An insert that does nothing on a conflict keeps the row of every key.
  pub find-insert_new :
      (key test : R → Bool) (new : R) (rs : List R) {r : R}
      → (key new ≡ true → find test rs ≡ find key rs)
      → find key rs ≡ some r
      → find key (insert_new test new rs) ≡ some r
  unfolding insert_new
  find-insert_new key test new rs {r} same h = elim (Bool-cases (key new)) [
    | inl k ↦ let t : find test rs ≡ some r = same k ∙ h in rw (t, insert_new) h
    | inr k ↦ elim (Option-cases (find test rs)) [
      | inl n ↦ rw (n, insert_new) (unfold find in rw k h)
      | inr (q, e) ↦ rw (e, insert_new) h
    ]
  ]
