-- ===== src/Projection/Fences.antt =====
-- The fences of the lifecycle in internal/execution/projection/projection.go: what no later write
-- undoes.
use relay_flow.Prelude.{
  ℕ, String, Bool, true, false, Option, none, some, List, [], ◌∷◌, ◌==◌, ==-eq, ◌≡◌, ap, ◌∙◌, ◌⊎◌,
  inl, inr, refl, arith, All, Bool-cases,
}
use relay_flow.Run.{State, canceling, canceled, Start, RetryStatus}
use relay_flow.Run.States.{terminal_state, same_state, IsTerminal}
use relay_flow.Projection.Table.{update_where, find, find-update_where_key, find-insert_new}
use relay_flow.Projection.Runs.{
  RunRow, has_id, started_row, state_where, set_state, cancel_where, set_retry, insert_start,
  update_state_rows, begin_cancellation, update_retry, update_node_rows,
}
use relay_flow.Projection.Db.{
  Db, Op, inserts, updates_state, updates_state_if, begins_cancellation, updates_retry,
  updates_node, upserts_step, updates_runtime, updates_visit, replaces_runtime, clears_runtime,
  registers_session, records_report, sweeps, update_state_cas, update_node, apply, apply_all,
}

-- The row of a run.
abbrev pub run_row : String → Db → Option RunRow
run_row id db = find (has_id id) db.runs

abbrev pub IsSweep : Op → Type 0
IsSweep (sweeps cutoff) = Unit
IsSweep _ = ⊥

-- A compare-and-set that names the state it expects may take a canceling run to any state.
abbrev pub is_ordinary : Op → Bool
is_ordinary (updates_state_if id expected state e f now) = false
is_ordinary _ = true

-- What may become of a run's state in one write.
abbrev Follows : Bool → State → State → Type 0
Follows ordinary s t =
    (s ≡ t) ⊎ ((terminal_state s ≡ false) × (ordinary ≡ true → s ≡ canceling → t ≡ canceled))

insert_start-keeps :
    (s : Start) (now : ℕ) (id : String) (rs : List RunRow) {r : RunRow}
    → find (has_id id) rs ≡ some r
    → find (has_id id) (insert_start s now rs) ≡ some r
unfolding insert_start
insert_start-keeps s now id rs h =
    find-insert_new (has_id id) (has_id s.id) (started_row s now) rs
      (λ k. ap (λ j. find (has_id j) rs) (==-eq k)) h

-- One write: the row of the run is there afterwards, in a state that may follow.
abbrev Moved : Bool → String → State → Db → Type 0
Moved b id s db = (r : RunRow) × (run_row id db ≡ some r) × Follows b s r.state

module _ (id : String) (db : Db) {r : RunRow} (h : run_row id db ≡ some r) where
  stays : (b : Bool) → Moved b id r.state db
  stays b = (r, h, inl refl)

  -- An update of the rows where `cond` holds, which may follow wherever it holds of the run.
  moves :
      (b : Bool) (cond : RunRow → Bool) (f : RunRow → RunRow)
      → ((x : RunRow) → (f x).id ≡ x.id)
      → (cond r ≡ true → Follows b r.state (f r).state)
      → (t : RunRow) × (find (has_id id) (update_where cond f db.runs) ≡ some t)
        × Follows b r.state t.state
  moves b cond f keeps follows = elim (Bool-cases (cond r)) [
    | inl c ↦ (
      f r,
      find-update_where_key (has_id id) cond f (λ x. ap (λ k. k == id) (keeps x)) db.runs h ∙ rw c,
      follows c,
    )
    | inr c ↦ (
      r,
      find-update_where_key (has_id id) cond f (λ x. ap (λ k. k == id) (keeps x)) db.runs h ∙ rw c,
      inl refl,
    )
  ]

same_state-eq : (s t : State) → same_state s t ≡ true → s ≡ t
same_state-eq s t h = ground arith

cancel_fence :
    (id : String) (r : RunRow) (t : State) → cancel_where id r ≡ true → Follows true r.state t
cancel_fence id r t h = inr (ground arith, λ o e. absurd (ground arith))

ordinary :
    (id : String) (r : RunRow) (t : State) → state_where id none t r ≡ true → Follows true r.state t
ordinary id r t h = ground (arith, same_state-eq r.state t)

expected :
    (id : String) (e : State) (r : RunRow) (t : State)
    → state_where id (some e) t r ≡ true
    → Follows false r.state t
expected id e r t h = ground (arith, same_state-eq r.state t)

pub runs-update_state_cas :
    (id : String) (x : Option State) (t : State) (e : String) (f : Option ℕ) (now : ℕ) (db : Db)
    → (update_state_cas id x t e f now db).0.runs ≡ update_state_rows id x t e f now db.runs
unfolding update_state_cas
runs-update_state_cas id x t e f now db = ground arith

pub runs-update_node :
    (id : String) (t : State) (node visit : String) (now : ℕ) (db : Db)
    → (update_node id t node visit now db).runs ≡ update_node_rows id t node visit now db.runs
unfolding update_node
runs-update_node id t node visit now db = ground arith

pub apply-moves :
    (op : Op) (id : String) (db : Db) {r : RunRow}
    → ¬ IsSweep op
    → run_row id db ≡ some r
    → Moved (is_ordinary op) id r.state (apply op db)
unfolding apply update_state_rows begin_cancellation update_retry update_node_rows
apply-moves (inserts s now) id db {r} n h = (r, insert_start-keeps s now id db.runs h, inl refl)
apply-moves (updates_state i t e f now) id db {r} n h =
    rw (runs-update_state_cas i none t e f now db)
      (moves id db h true (state_where i none t) (set_state t e f now) (λ x. refl) (ordinary i r t))
apply-moves (updates_state_if i x t e f now) id db {r} n h =
    rw (runs-update_state_cas i (some x) t e f now db) (
      moves id db h false (state_where i (some x) t) (set_state t e f now) (λ x. refl)
        (expected i x r t))
apply-moves (begins_cancellation i reason now) id db {r} n h =
    moves id db h true (cancel_where i)
      (λ x. record x { state = canceling; last_error = reason; updated_at = now }) (λ x. refl)
      (cancel_fence i r canceling)
apply-moves (updates_retry i status now) id db {r} n h =
    moves id db h true (has_id i) (set_retry status now) (retry_id status now)
      (λ c. inl (retry_state status now r))
  where
    retry_id : (st : Option RetryStatus) (k : ℕ) (x : RunRow) → (set_retry st k x).id ≡ x.id
    retry_id none k x = refl
    retry_id (some q) k x = refl

    retry_state :
        (st : Option RetryStatus) (k : ℕ) (x : RunRow) → x.state ≡ (set_retry st k x).state
    retry_state none k x = refl
    retry_state (some q) k x = refl
apply-moves (updates_node i t node visit now) id db {r} n h =
    rw (runs-update_node i t node visit now db) (
      moves id db h true (cancel_where i)
        (λ x. record x {
          state = t;
          current_node = node;
          current_node_visit_id = visit;
          updated_at = now;
        })
        (λ x. refl) (cancel_fence i r t))
apply-moves (sweeps cutoff) id db n h = absurd (n tt)
apply-moves (upserts_step elapsed s) id db n h = stays id db h true
apply-moves (updates_runtime rt now) id db n h = stays id db h true
apply-moves (updates_visit i node visit now) id db n h = stays id db h true
apply-moves (replaces_runtime i node visit terminal previous session now) id db n h =
    stays id db h true
apply-moves (clears_runtime i node t s now) id db n h = stays id db h true
apply-moves (registers_session g now) id db n h = stays id db h true
apply-moves (records_report i visit report now) id db n h = stays id db h true

-- Over any sequence of writes without a retention sweep, a run that is completed or canceled stays
-- there, in that state.
pub terminal_absorbs :
    (ops : List Op) (id : String) (db : Db) {r : RunRow}
    → All (λ op. ¬ IsSweep op) ops
    → run_row id db ≡ some r
    → IsTerminal r.state
    → (t : RunRow) × (run_row id (apply_all ops db) ≡ some t) × (t.state ≡ r.state)
unfolding apply_all
terminal_absorbs [] id db {r} n h f = (r, h, refl)
terminal_absorbs (op ∷ ops) id db n h f =
    let (q, e, m) = apply-moves op id db n.0 h in
    let same = terminal_same m f in
    let (t, p, s) = terminal_absorbs ops id (apply op db) n.1 e (ap terminal_state same ∙ f) in
    (t, p, s ∙ same)
  where
    terminal_same : {b : Bool} {s t : State} → Follows b s t → IsTerminal s → t ≡ s
    terminal_same {b} {s} {t} m k = ground arith

-- Over any sequence of writes without a retention sweep and without a compare-and-set, a run that
-- is canceling stays canceling or is canceled: no progress of its nodes revives it.
pub canceling_only_cancels :
    (ops : List Op) (id : String) (db : Db) {r : RunRow}
    → All (λ op. (¬ IsSweep op) × (is_ordinary op ≡ true)) ops
    → run_row id db ≡ some r
    → (r.state ≡ canceling) ⊎ (r.state ≡ canceled)
    → (t : RunRow) × (run_row id (apply_all ops db) ≡ some t)
      × ((t.state ≡ canceling) ⊎ (t.state ≡ canceled))
unfolding apply_all
canceling_only_cancels [] id db {r} n h f = (r, h, f)
canceling_only_cancels (op ∷ ops) id db {r} n h f =
    let (q, e, m) = apply-moves op id db n.0.0 h in
    canceling_only_cancels ops id (apply op db) n.1 e (on r.state q.state n.0.1 m f)
  where
    on :
        {b : Bool} (s t : State)
        → b ≡ true
        → Follows b s t
        → (s ≡ canceling) ⊎ (s ≡ canceled)
        → (t ≡ canceling) ⊎ (t ≡ canceled)
    on {b} s t o m k = ground arith
