-- ===== src/Engine/Cancel/Rows.antt =====
-- The row of a run under the cancellation of internal/execution/goworkflows/engine.go.
use relay_flow.Prelude.{
  ℕ, Option, String, Bool, true, false, not, none, some, List, ok, Bool-cases, Option-cases, ==-eq,
  ◌||◌, if◌then◌else◌, ◌≡◌, ◌⊎◌, inl, inr, refl, sym, ap, subst, ◌∙◌, arith,
}
use relay_flow.Run.{State, canceling, canceled, completed, Run}
use relay_flow.Run.States.{terminal_state, same_state, IsTerminal}
use relay_flow.Projection.Table.{find, find-update_where_key, find-update_where-none, find_test}
use relay_flow.Projection.Runs.{
  RunRow, has_id, cancel_where, state_where, set_state, get, scan_run, begin_cancellation,
  update_state_rows,
}
use relay_flow.Projection.Db.{Db, update_state_cas}
use relay_flow.Projection.Fences.{runs-update_state_cas}
use relay_flow.Engine.{World}
use relay_flow.Engine.Cancel.{Done, raced, conclude}

get-some :
    (id : String) (rs : List RunRow) (q : RunRow)
    → find (has_id id) rs ≡ some q
    → get id rs ≡ some (scan_run q)
unfolding get
get-some id rs q h = rw (h, get) refl

left_alone :
    (s : State)
    → not (terminal_state s || same_state s canceling) ≡ false
    → (terminal_state s ≡ true) ⊎ (s ≡ canceling)
left_alone completed h = inl refl
left_alone canceled h = inl refl
left_alone canceling h = inr refl
left_alone _ h = cc

get_row :
    (id : String) (rs : List RunRow) {r : Run}
    → get id rs ≡ some r
    → (q : RunRow) × (find (has_id id) rs ≡ some q) × (scan_run q ≡ r)
unfolding get
get_row id rs h = elim (Option-cases (find (has_id id) rs)) [
  | inl n ↦ cc (rw (n, get) at h)
  | inr (q, e) ↦ (q, e, cc (rw (e, get) at h))
]

-- A row is found under its own identity.
pub get_id : (id : String) (rs : List RunRow) {r : Run} → get id rs ≡ some r → r.id ≡ id
unfolding scan_run
get_id id rs h =
    let (q, e, s) = get_row id rs h in
    let t = find_test (has_id id) rs e in sym (ap (λ x. x.id) s) ∙ ==-eq t

-- The first write of a cancellation, at a run that is not finished: the reason of an earlier
-- cancellation stays.
pub record Begun (reason : String) (r q : Run) : Type 0 where
  pub unfinished : terminal_state r.state ≡ false
  pub canceling_now : q.state ≡ canceling
  pub id : q.id ≡ r.id
  pub logical_id : q.logical_id ≡ r.logical_id
  pub repo : q.repo ≡ r.repo
  pub ticket : q.ticket ≡ r.ticket
  pub first_reason : q.last_error ≡ (if same_state r.state canceling then r.last_error else reason)

abbrev pub Begins : String → Run → Run → Type 0
Begins reason r q = ((terminal_state r.state ≡ true) × (q.state ≡ r.state)) ⊎ Begun reason r q

module _ (reason : String) (now : ℕ) where
  abbrev begun_row : RunRow → RunRow
  begun_row x = record x { state = canceling; last_error = reason; updated_at = now }

  begun :
      (q : RunRow)
      → not (terminal_state q.state || same_state q.state canceling) ≡ true
      → Begun reason (scan_run q) (scan_run (begun_row q))
  unfolding scan_run
  begun q c = record {
    unfinished = ground arith;
    canceling_now = refl;
    id = refl;
    logical_id = refl;
    repo = refl;
    ticket = refl;
    first_reason = ground arith;
  }

  spared :
      (q : RunRow)
      → not (terminal_state q.state || same_state q.state canceling) ≡ false
      → Begins reason (scan_run q) (scan_run q)
  unfolding scan_run
  spared q h = elim (left_alone q.state h) [
    | inl final ↦ inl (final, refl)
    | inr still ↦ inr (record {
      unfinished = simp still;
      canceling_now = still;
      id = refl;
      logical_id = refl;
      repo = refl;
      ticket = refl;
      first_reason = ground arith;
    })
  ]

  pub begin_row :
      (id : String) (rs : List RunRow) {r : Run}
      → get id rs ≡ some r
      → (q : Run) × (get id (begin_cancellation id reason now rs) ≡ some q) × Begins reason r q
  unfolding begin_cancellation
  begin_row id rs {r} h =
      let (q, e, s) = get_row id rs h in
      let found = find-update_where_key (has_id id) (cancel_where id) begun_row (λ x. refl) rs e in
      let mine = find_test (has_id id) rs e in
      elim (Bool-cases (cancel_where id q)) [
        | inl c ↦ (
          scan_run (begun_row q),
          get-some id _ (begun_row q) (found ∙ rw c refl),
          subst (λ x. Begins reason x (scan_run (begun_row q))) s (inr (begun q (rw mine at c))),
        )
        | inr c ↦ (
          scan_run q,
          get-some id _ q (found ∙ rw c refl),
          subst (λ x. Begins reason x (scan_run q)) s (spared q (rw mine at c)),
        )
      ]

pub begin-none :
    (id reason : String) (now : ℕ) (rs : List RunRow)
    → get id rs ≡ none
    → get id (begin_cancellation id reason now rs) ≡ none
unfolding begin_cancellation get
begin-none id reason now rs h = elim (Option-cases (find (has_id id) rs)) [
  | inl n ↦
      let f : RunRow → RunRow =
        λ x. record x { state = canceling; last_error = reason; updated_at = now } in
      rw (find-update_where-none (has_id id) (cancel_where id) f (λ x. refl) rs n, get) refl
  | inr (q, e) ↦ cc (rw (e, get) at h)
]

runtimes-update_state_cas :
    (id : String) (x : Option State) (t : State) (e : String) (f : Option ℕ) (now : ℕ) (db : Db)
    → (update_state_cas id x t e f now db).0.runtimes ≡ db.runtimes
unfolding update_state_cas
runtimes-update_state_cas id x t e f now db = ground arith

-- What the conditional update to a final state leaves.
pub record Concluded {S : Type 0} (id : String) (state : State) (t : ℕ) (w : World S) (d : Done S)
    : Type 0 where
  pub succeeds : d.0 ≡ ok tt
  pub row : Run
  pub found : get id d.1.db.runs ≡ some row
  pub state_is : row.state ≡ state
  pub finished : row.finished_at ≡ some t
  pub outside : d.1.outside ≡ w.outside
  pub runtimes : d.1.db.runtimes ≡ w.db.runtimes

module _ {S : Type 0} (id : String) (state : State) (final : IsTerminal state) (t : ℕ)
    (w : World S) where
  updated :
      (rs : List RunRow) {r : Run}
      → get id rs ≡ some r
      → r.state ≡ canceling
      → (row : Run) × (get id (update_state_rows id (some canceling) state "" (some t) w.now rs)
          ≡ some row)
        × (row.state ≡ state)
        × (row.finished_at ≡ some t)
  unfolding update_state_rows scan_run
  updated rs {r} h c =
      let (q, e, s) = get_row id rs h in
      let f = set_state state "" (some t) w.now in
      let mine = find_test (has_id id) rs e in
      let before : q.state ≡ canceling = ap (λ x. x.state) s ∙ c in
      let holds : state_where id (some canceling) state q ≡ true = rw (mine, before) refl in
      let found =
        find-update_where_key (has_id id) (state_where id (some canceling) state) f (λ x. refl) rs
          e in
      (scan_run (f q), get-some id _ (f q) (found ∙ rw holds refl), refl, refl)

  raced_lem :
      (y : World S) (row : Run) (b : Bool)
      → get id y.db.runs ≡ some row
      → row.state ≡ state
      → raced id y b ≡ (ok tt, y)
  raced_lem y row true found is = refl
  raced_lem y row false found is = rw found (rw is (rw final refl))

  pub conclude_lem :
      {r : Run}
      → get id w.db.runs ≡ some r
      → r.state ≡ canceling
      → Concluded id state t w (conclude id state t w)
  unfolding conclude
  conclude_lem h c =
      let (row, found, is, at) = updated w.db.runs h c in
      let r = update_state_cas id (some canceling) state "" (some t) w.now w.db in
      let runs = runs-update_state_cas id (some canceling) state "" (some t) w.now w.db in
      let y : World S = record w { db = r.0 } in
      let here : get id y.db.runs ≡ some row = rw runs found in
      subst (Concluded id state t w) (sym (raced_lem y row r.1 here is)) (record {
        succeeds = refl;
        row = row;
        found = here;
        state_is = is;
        finished = at;
        outside = refl;
        runtimes = runtimes-update_state_cas id (some canceling) state "" (some t) w.now w.db;
      })
