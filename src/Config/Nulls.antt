-- ===== src/Config/Nulls.antt =====
-- What the null check of internal/workflow/workflow.go accepts and reports.
use mathlib.Core.List.{append_assoc, append-nil}
use relay_flow.Prelude.{
  ℕ, ◌+◌, ◌≡◌, refl, ◌↔◌, ◌⊎◌, inl, inr, ◌∙◌, String, [], ◌∷◌, ◌++◌, Result, ok, err, ◌>>◌,
  >>-eq-ok,
}
use relay_flow.Config.{
  Value, null, scalar, mapping, sequence, RawValues, end, entry, Elements, nil, cons, field, index,
  Key, reject_null_value, reject_null_values, reject_null_elements,
}

-- A null stands in the value, at the end of the steps of the key.
mutual
  pub data NullIn : Value → Key → Type 0 where
    here : NullIn null []
    in_mapping : {m : RawValues} {k : Key} → NullAmong m k → NullIn (mapping m) k
    in_sequence : {xs : Elements} {k : Key} → NullFrom 0 xs k → NullIn (sequence xs) k

  pub data NullAmong : RawValues → Key → Type 0 where
    first :
        {n : String} {v : Value} {m : RawValues} {k : Key}
        → NullIn v k
        → NullAmong (entry n v m) (field n ∷ k)
    later :
        {n : String} {v : Value} {m : RawValues} {k : Key}
        → NullAmong m k
        → NullAmong (entry n v m) k

  pub data NullFrom : ℕ → Elements → Key → Type 0 where
    head :
        {i : ℕ} {v : Value} {xs : Elements} {k : Key}
        → NullIn v k
        → NullFrom i (cons v xs) (index i ∷ k)
    tail :
        {i : ℕ} {v : Value} {xs : Elements} {k : Key}
        → NullFrom (i + 1) xs k
        → NullFrom i (cons v xs) k

mutual
  unfolding reject_null_value reject_null_values reject_null_elements

  value_ok : (v : Value) (key k : Key) → reject_null_value v key ≡ ok tt → ¬ NullIn v k
  value_ok null key k h n = cc
  value_ok (scalar s) key k h n = elim n [ ]
  value_ok (mapping m) key k h (in_mapping n) = values_ok m key k h n
  value_ok (sequence xs) key k h (in_sequence n) = elements_ok xs key k 0 h n

  values_ok : (m : RawValues) (path k : Key) → reject_null_values m path ≡ ok tt → ¬ NullAmong m k
  values_ok end path k h n = elim n [ ]
  values_ok (entry s v m) path k h (first {k = j} n) =
      value_ok v (path ++ field s ∷ []) j
        (>>-eq-ok (reject_null_value v (path ++ field s ∷ [])) (reject_null_values m path) h).0 n
  values_ok (entry s v m) path k h (later n) =
      values_ok m path k
        (>>-eq-ok (reject_null_value v (path ++ field s ∷ [])) (reject_null_values m path) h).1 n

  elements_ok :
      (xs : Elements) (key k : Key) (i : ℕ)
      → reject_null_elements xs key i ≡ ok tt
      → ¬ NullFrom i xs k
  elements_ok nil key k i h n = elim n [ ]
  elements_ok (cons v xs) key k i h (head {k = j} n) =
      value_ok v (key ++ index i ∷ []) j
        (>>-eq-ok (reject_null_value v (key ++ index i ∷ [])) (reject_null_elements xs key (i + 1))
          h).0
        n
  elements_ok (cons v xs) key k i h (tail n) =
      elements_ok xs key k (i + 1)
        (>>-eq-ok (reject_null_value v (key ++ index i ∷ [])) (reject_null_elements xs key (i + 1))
          h).1
        n

-- The error of a check and the rest: it comes from the one or the other.
>>-eq-err :
    {E : Type 0} (m k : Result E (Unit {0})) {e : E} → (m >> k) ≡ err e → (m ≡ err e) ⊎ (k ≡ err e)
>>-eq-err (ok tt) k h = inr h
>>-eq-err (err e) k h = inl h

mutual
  unfolding reject_null_value reject_null_values reject_null_elements

  value_err :
      (v : Value) (key e : Key)
      → reject_null_value v key ≡ err e
      → (k : Key) × (e ≡ key ++ k) × NullIn v k
  value_err null key e h = ([], rw append-nil (cc), here)
  value_err (scalar s) key e h = cc
  value_err (mapping m) key e h = let (k, p, n) = values_err m key e h in (k, p, in_mapping n)
  value_err (sequence xs) key e h =
      let (k, p, n) = elements_err xs key e 0 h in (k, p, in_sequence n)

  values_err :
      (m : RawValues) (path e : Key)
      → reject_null_values m path ≡ err e
      → (k : Key) × (e ≡ path ++ k) × NullAmong m k
  values_err end path e h = cc
  values_err (entry s v m) path e h =
      elim (>>-eq-err (reject_null_value v (path ++ field s ∷ [])) (reject_null_values m path) h) [
        | inl l ↦
            let (k, p, n) = value_err v (path ++ field s ∷ []) e l in
            (field s ∷ k, p ∙ append_assoc path (field s ∷ []) k, first n)
        | inr r ↦ let (k, p, n) = values_err m path e r in (k, p, later n)
      ]

  elements_err :
      (xs : Elements) (key e : Key) (i : ℕ)
      → reject_null_elements xs key i ≡ err e
      → (k : Key) × (e ≡ key ++ k) × NullFrom i xs k
  elements_err nil key e i h = cc
  elements_err (cons v xs) key e i h =
      elim (>>-eq-err (reject_null_value v (key ++ index i ∷ []))
        (reject_null_elements xs key (i + 1)) h) [
          | inl l ↦
              let (k, p, n) = value_err v (key ++ index i ∷ []) e l in
              (index i ∷ k, p ∙ append_assoc key (index i ∷ []) k, head n)
          | inr r ↦ let (k, p, n) = elements_err xs key e (i + 1) r in (k, p, tail n)
        ]

Result-cases : {E : Type 0} (r : Result E (Unit {0})) → (r ≡ ok tt) ⊎ ((e : E) × (r ≡ err e))
Result-cases (ok tt) = inl refl
Result-cases (err e) = inr (e, refl)

accepts_of_none :
    (m : RawValues) (path : Key) → ((k : Key) → ¬ NullAmong m k) → reject_null_values m path ≡ ok tt
accepts_of_none m path h = elim (Result-cases (reject_null_values m path)) [
  | inl e ↦ e
  | inr (e, p) ↦ let (k, q, n) = values_err m path e p in absurd (h k n)
]

-- `rejectNullValues` accepts raw configuration exactly when no null stands in it at any depth, and
-- its error names the given path followed by the steps to a null that does stand in it.
pub reject_null_values_exact :
    (m : RawValues) (path : Key)
    → (reject_null_values m path ≡ ok tt ↔ ((k : Key) → ¬ NullAmong m k))
      × ((e : Key)
          → reject_null_values m path ≡ err e
          → (k : Key) × (e ≡ path ++ k) × NullAmong m k)
reject_null_values_exact m path =
    ((λ h k n. values_ok m path k h n, accepts_of_none m path), λ e h. values_err m path e h)
