-- ===== src/Projection/Table/Keys.antt =====
-- Keys of a table: at most one row for each, through every kind of statement.
use relay_flow.Prelude.{
  ◌≤◌, ◌≡◌, refl, Bool, true, false, none, some, List, [], ◌∷◌, if◌then◌else◌, arith, Bool-cases,
  Option-cases, ◌∙◌, inl, inr, sym,
}
use relay_flow.Projection.Table.{
  update_where, affected, find, delete_where, upsert, insert_new, find-update_where_key,
}

module _ {ℓ} {R : Type ℓ} where
  pub affected-none : (test : R → Bool) (rs : List R) → find test rs ≡ none → affected test rs ≡ 0
  unfolding find affected
  affected-none test [] h = refl
  affected-none test (x ∷ rs) h = elim (Bool-cases (test x)) [
    | inl c ↦ absurd (ground arith)
    | inr c ↦ rw c (affected-none test rs (ground arith))
  ]

  pub affected-update_where :
      (key cond : R → Bool) (f : R → R)
      → ((r : R) → key (f r) ≡ key r)
      → (rs : List R) → affected key (update_where cond f rs) ≡ affected key rs
  unfolding affected update_where
  affected-update_where key cond f keeps [] = refl
  affected-update_where key cond f keeps (x ∷ rs) = elim (Bool-cases (cond x)) [
    | inl c ↦ rw c (rw (keeps x) (rw (affected-update_where key cond f keeps rs)))
    | inr c ↦ rw c (rw (affected-update_where key cond f keeps rs))
  ]

  pub affected-delete_where :
      (key test : R → Bool) (rs : List R) → affected key (delete_where test rs) ≤ affected key rs
  unfolding affected delete_where
  affected-delete_where key test [] = omega arith
  affected-delete_where key test (x ∷ rs) = elim (Bool-cases (test x)) [
    | inl c ↦ rw c (ground (arith, affected-delete_where key test rs))
    | inr c ↦ rw c (ground (arith, affected-delete_where key test rs))
  ]

  -- A new row has a key that the table does not hold.
  pub affected-insert_new :
      (key test : R → Bool) (new : R) (rs : List R)
      → (key new ≡ true → find test rs ≡ find key rs)
      → affected key rs ≤ 1
      → affected key (insert_new test new rs) ≤ 1
  unfolding insert_new
  affected-insert_new key test new rs same h = elim (Option-cases (find test rs)) [
    | inr (q, e) ↦ rw (e, insert_new) h
    | inl n ↦
        rw (n, insert_new)
          (elim (Bool-cases (key new)) [
            | inl k ↦
                unfold affected in rw k (omega (arith, affected-none key rs (sym (same k) ∙ n)))
            | inr k ↦ unfold affected in rw k h
          ])
  ]

  pub find_other :
      (key test : R → Bool) (rs : List R) {r : R}
      → find test rs ≡ none
      → find key rs ≡ some r
      → test r ≡ false
  unfolding find
  find_other key test [] n h = cc
  find_other key test (x ∷ rs) n h = elim (Bool-cases (key x)) [
    | inl c ↦ ground arith
    | inr c ↦ find_other key test rs (ground arith) (ground arith)
  ]

  -- An upsert changes the row that it tests for and no other.
  pub find-upsert :
      (key test : R → Bool) (f : R → R) (new : R) (rs : List R) {r : R}
      → ((x : R) → key (f x) ≡ key x)
      → (key new ≡ true → find test rs ≡ find key rs)
      → find key rs ≡ some r
      → find key (upsert test f new rs) ≡ some (if test r then f r else r)
  unfolding upsert
  find-upsert key test f new rs {r} keeps same h = elim (Option-cases (find test rs)) [
    | inr (q, e) ↦ rw (e, upsert) (find-update_where_key key test f keeps rs h)
    | inl n ↦ elim (Bool-cases (key new)) [
      | inl k ↦ absurd (clash (same k) n)
      | inr k ↦ rw (n, upsert) (rw (find_other key test rs n h) (unfold find in rw k h))
    ]
  ]
    where
      clash : find test rs ≡ find key rs → find test rs ≡ none → ⊥
      clash e m = cc

  pub find-delete_where :
      (key test : R → Bool) (rs : List R) {r : R}
      → find key rs ≡ some r
      → ((x : R) → key x ≡ true → test x ≡ false)
      → find key (delete_where test rs) ≡ some r
  unfolding find delete_where
  find-delete_where key test [] h k = cc
  find-delete_where key test (x ∷ rs) {r} h k = elim (Bool-cases (key x)) [
    | inl c ↦ ground (arith, k x)
    | inr c ↦ elim (Bool-cases (test x)) [
      | inl t ↦ rw t (find-delete_where key test rs (ground arith) k)
      | inr t ↦ rw t (unfold find in rw c (find-delete_where key test rs (ground arith) k))
    ]
  ]

  pub find-delete_where_all :
      (key test : R → Bool) (rs : List R)
      → ((x : R) → key x ≡ true → test x ≡ true)
      → find key (delete_where test rs) ≡ none
  unfolding find delete_where
  find-delete_where_all key test [] k = refl
  find-delete_where_all key test (x ∷ rs) k = elim (Bool-cases (test x)) [
    | inl t ↦ rw t (find-delete_where_all key test rs k)
    | inr t ↦ rw t (ground (arith, k x, find-delete_where_all key test rs k))
  ]
