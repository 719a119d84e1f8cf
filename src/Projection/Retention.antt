-- ===== src/Projection/Retention.antt =====
-- `sweepRetention` of internal/execution/projection/projection.go.
use relay_flow.Prelude.{
  ℕ, ◌≤◌, String, Bool, true, false, Option, none, some, List, [], ◌∷◌, ◌==◌, ==-eq, eq_iff, elem,
  ◌≡◌, ◌⊎◌, inl, inr, refl, sym, ap, subst, arith, Bool-cases, Option-cases, &&-eq-true, ltb, ◌<◌,
}
use relay_flow.Run.{State, starting, running, waiting, blocked, completed, canceling, canceled}
use relay_flow.Run.States.{terminal_state}
use relay_flow.Projection.Table.{find, affected, select, delete_where}
use relay_flow.Projection.Table.Keys.{affected-none}
use relay_flow.Projection.Runs.{RunRow, has_id, finished_before, expired, expired_ids}
use relay_flow.Projection.Steps.{StepRow}
use relay_flow.Projection.Runtimes.{NodeRuntime, SessionRow, ReportRow}
use relay_flow.Projection.Db.{Db, sweep_retention}
use relay_flow.Projection.Fences.{run_row}
use relay_flow.Projection.Unique.{IsKeyed}

absent_not_expired :
    (cutoff : ℕ) (id : String) (rows : List RunRow)
    → affected (has_id id) rows ≡ 0
    → elem id (expired_ids cutoff rows) ≡ false
unfolding affected expired_ids select
absent_not_expired cutoff id [] h = refl
absent_not_expired cutoff id (x ∷ rows) h = elim (Bool-cases (x.id == id)) [
  | inl c ↦ absurd (ground arith)
  | inr c ↦ elim (Bool-cases (expired cutoff x)) [
    | inl e ↦
        rw e (ground (arith, eq_iff x.id id, eq_iff id x.id, absent_not_expired cutoff id rows))
    | inr e ↦ rw e (absent_not_expired cutoff id rows (ground arith))
  ]
]

live_not_expired :
    (cutoff : ℕ) (id : String) (rows : List RunRow) {r : RunRow}
    → affected (has_id id) rows ≤ 1
    → find (has_id id) rows ≡ some r
    → expired cutoff r ≡ false
    → elem id (expired_ids cutoff rows) ≡ false
unfolding affected expired_ids select find
live_not_expired cutoff id [] h f e = cc
live_not_expired cutoff id (x ∷ rows) {r} h f e = elim (Bool-cases (x.id == id)) [
  | inl c ↦
      let same : x ≡ r = ground arith in
      rw (subst (λ k. expired cutoff k ≡ false) (sym same) e)
        (absent_not_expired cutoff id rows (ground arith))
  | inr c ↦ elim (Bool-cases (expired cutoff x)) [
    | inl d ↦
        rw d
          (ground (arith, eq_iff x.id id, eq_iff id x.id, live_not_expired cutoff id rows {r = r}))
    | inr d ↦ rw d (live_not_expired cutoff id rows {r = r} (ground arith) (ground arith) e)
  ]
]

expired-elem :
    (cutoff : ℕ) (id : String) (rows : List RunRow) {r : RunRow}
    → find (has_id id) rows ≡ some r
    → expired cutoff r ≡ true
    → elem id (expired_ids cutoff rows) ≡ true
unfolding expired_ids select find
expired-elem cutoff id [] f e = cc
expired-elem cutoff id (x ∷ rows) {r} f e = elim (Bool-cases (x.id == id)) [
  | inl c ↦
      let same : x ≡ r = ground arith in
      rw (subst (λ k. expired cutoff k ≡ true) (sym same) e)
        (ground (arith, eq_iff x.id id, eq_iff id x.id))
  | inr c ↦ elim (Bool-cases (expired cutoff x)) [
    | inl d ↦ rw d (ground (arith, expired-elem cutoff id rows {r = r}))
    | inr d ↦ rw d (expired-elem cutoff id rows {r = r} (ground arith) e)
  ]
]

-- A completed or canceled run that finished before the cutoff.
pub record IsOld (cutoff : ℕ) (r : RunRow) : Type 0 where
  pub ended : (r.state ≡ completed) ⊎ (r.state ≡ canceled)
  pub time : ℕ
  pub at : r.finished_at ≡ some time
  pub before : time < cutoff

expired-IsOld : (cutoff : ℕ) (r : RunRow) → expired cutoff r ≡ true → IsOld cutoff r
expired-IsOld cutoff r h =
    let (a, b) = &&-eq-true {a = terminal_state r.state} h in
    let (t, e, l) = finished r.finished_at b in
    record { ended = ends r.state a; time = t; at = e; before = l }
  where
    ends : (s : State) → terminal_state s ≡ true → (s ≡ completed) ⊎ (s ≡ canceled)
    ends completed k = inl refl
    ends canceled k = inr refl
    ends starting k = cc
    ends running k = cc
    ends waiting k = cc
    ends blocked k = cc
    ends canceling k = cc

    finished :
        (f : Option ℕ) → finished_before cutoff f ≡ true → (t : ℕ) × (f ≡ some t) × (t < cutoff)
    finished none k = cc
    finished (some t) k = (t, refl, ground arith)

IsOld-expired : (cutoff : ℕ) (r : RunRow) → IsOld cutoff r → expired cutoff r ≡ true
IsOld-expired cutoff r h = elim h.ended [
  | inl e ↦ rw (e, h.at) (early h.time h.before)
  | inr e ↦ rw (e, h.at) (early h.time h.before)
]
  where
    early : (t : ℕ) → t < cutoff → ltb t cutoff ≡ true
    early t l = ground arith

module _ {R : Type 0} (run_of : R → String) (id : String) (ids : List String) where
  of_run : R → Bool
  of_run x = run_of x == id

  remainder : (rs : List R) → List R
  remainder = delete_where (λ x. elem (run_of x) ids)

  kept : elem id ids ≡ false → (rs : List R) → select of_run (remainder rs) ≡ select of_run rs
  unfolding select delete_where of_run remainder
  kept h [] = refl
  kept h (x ∷ rs) = elim (Bool-cases (run_of x == id)) [
    | inl c ↦
        let here : elem (run_of x) ids ≡ false =
          subst (λ j. elem j ids ≡ false) (sym (==-eq c)) h in
        rw here (rw c (ap (◌∷◌ x) (kept h rs)))
    | inr c ↦ elim (Bool-cases (elem (run_of x) ids)) [
      | inl d ↦ rw d (rw c (kept h rs))
      | inr d ↦ rw d (rw c (kept h rs))
    ]
  ]

  gone : elem id ids ≡ true → (rs : List R) → select of_run (remainder rs) ≡ []
  unfolding select delete_where of_run remainder
  gone h [] = refl
  gone h (x ∷ rs) = elim (Bool-cases (run_of x == id)) [
    | inl c ↦
        let here : elem (run_of x) ids ≡ true = subst (λ j. elem j ids ≡ true) (sym (==-eq c)) h in
        rw here (gone h rs)
    | inr c ↦ elim (Bool-cases (elem (run_of x) ids)) [
      | inl d ↦ rw d (gone h rs)
      | inr d ↦ rw d (rw c (gone h rs))
    ]
  ]

-- The rows of one run in every table.
abbrev pub rows_of :
    String → Db → List RunRow × List StepRow × List NodeRuntime × List SessionRow × List ReportRow
rows_of id db = (
  select (λ x. x.id == id) db.runs,
  select (λ x. x.run_id == id) db.steps,
  select (λ x. x.run_id == id) db.runtimes,
  select (λ x. x.run_id == id) db.sessions,
  select (λ x. x.run_id == id) db.reports,
)

five :
    {A B C D E : Type 0} {a a' : A} {b b' : B} {c c' : C} {d d' : D} {e e' : E}
    → a ≡ a'
    → b ≡ b'
    → c ≡ c'
    → d ≡ d'
    → e ≡ e'
    → ◌≡◌ {A = A × B × C × D × E} (a, b, c, d, e) (a', b', c', d', e')
five p q r s t i = (p i, q i, r i, s i, t i)

module _ (cutoff : ℕ) (db : Db) (id : String) where
  ids : List String
  ids = expired_ids cutoff db.runs

  sweep-kept : elem id ids ≡ false → rows_of id (sweep_retention cutoff db).0 ≡ rows_of id db
  unfolding sweep_retention of_run remainder ids
  sweep-kept h =
      five (kept (λ (x : RunRow). x.id) id ids h db.runs)
        (kept (λ (x : StepRow). x.run_id) id ids h db.steps)
        (kept (λ (x : NodeRuntime). x.run_id) id ids h db.runtimes)
        (kept (λ (x : SessionRow). x.run_id) id ids h db.sessions)
        (kept (λ (x : ReportRow). x.run_id) id ids h db.reports)

  sweep-gone : elem id ids ≡ true → rows_of id (sweep_retention cutoff db).0 ≡ ([], [], [], [], [])
  unfolding sweep_retention of_run remainder ids
  sweep-gone h =
      five (gone (λ (x : RunRow). x.id) id ids h db.runs)
        (gone (λ (x : StepRow). x.run_id) id ids h db.steps)
        (gone (λ (x : NodeRuntime). x.run_id) id ids h db.runtimes)
        (gone (λ (x : SessionRow). x.run_id) id ids h db.sessions)
        (gone (λ (x : ReportRow). x.run_id) id ids h db.reports)

-- Where runs are unique. Of a completed or canceled run that finished before the cutoff a sweep leaves
-- nothing in any of the five tables. Of every other run, also of one without a row, it leaves every
-- row, step, node runtime, session and receipt as it was. The identities that it returns are those of
-- the former.
pub sweep_retention_exact :
    (cutoff : ℕ) (db : Db) (id : String)
    → IsKeyed db
    → ((r : RunRow)
        → run_row id db ≡ some r
        → IsOld cutoff r
        → (rows_of id (sweep_retention cutoff db).0 ≡ ([], [], [], [], []))
          × (elem id (sweep_retention cutoff db).1 ≡ true))
      × (((r : RunRow) → run_row id db ≡ some r → ¬ IsOld cutoff r)
          → (rows_of id (sweep_retention cutoff db).0 ≡ rows_of id db)
            × (elem id (sweep_retention cutoff db).1 ≡ false))
unfolding sweep_retention ids
sweep_retention_exact cutoff db id keyed = (
  λ r h old.
      let e = expired-elem cutoff id db.runs h (IsOld-expired cutoff r old) in
      (sweep-gone cutoff db id e, e),
  λ young. let e = not_old young in (sweep-kept cutoff db id e, e),
)
  where
    not_old :
        ((r : RunRow) → run_row id db ≡ some r → ¬ IsOld cutoff r)
        → elem id (expired_ids cutoff db.runs) ≡ false
    not_old young = elim (Option-cases (find (has_id id) db.runs)) [
      | inl n ↦ absent_not_expired cutoff id db.runs (affected-none (has_id id) db.runs n)
      | inr (r, e) ↦ elim (Bool-cases (expired cutoff r)) [
        | inl x ↦ absurd (young r e (expired-IsOld cutoff r x))
        | inr x ↦ live_not_expired cutoff id db.runs (keyed.single id) e x
      ]
    ]
