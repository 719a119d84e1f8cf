-- ===== src/Engine/Ensure/Starts.antt =====
-- What `EnsureRun` of internal/execution/goworkflows/engine.go starts.
use relay_flow.Prelude.{
  Memᴰ, &&-eq-true, ==-eq, either_way, ℕ, String, true, false, Option, none, some, List, ◌∷◌,
  Result, ok, err, Option-cases, ◌==◌, ==_refl, ◌||◌, ◌≡◌, ◌⊎◌, inl, inr, refl, arith,
}
use relay_flow.Run.{starting, Run, Start}
use relay_flow.Run.States.{active_state}
use relay_flow.Projection.Table.{find, insert_new}
use relay_flow.Projection.Runs.{RunRow, has_id, get, scan_run, insert_start, started_row}
use relay_flow.Engine.{
  Fault, not_found, already_exists, other, Instance, reconciles, Outside, World, create_failed,
  signal_failed, outside_result,
}
use relay_flow.Engine.Instances.{active_instance, is_active, last_where-some, last_where-none}
use relay_flow.Engine.Ensure.{
  Ensured, filled, created_new, ensure_new, recreated, signaled, is_live, reconcile_terminal,
  ensure_active, ensure_row, ensure_run,
}

insert_start-none :
    (s : Start) (now : ℕ) (rs : List RunRow)
    → find (has_id s.id) rs ≡ none
    → insert_start s now rs ≡ started_row s now ∷ rs
unfolding insert_start insert_new
insert_start-none s now rs h = rw (h, insert_new) refl

find-none : (id : String) (rs : List RunRow) → get id rs ≡ none → find (has_id id) rs ≡ none
unfolding get
find-none id rs h = elim (Option-cases (find (has_id id) rs)) [
  | inl n ↦ n
  | inr (q, e) ↦ cc (rw (e, get) at h)
]

find_first :
    (id : String) (r : RunRow) (rs : List RunRow)
    → (r.id == id) ≡ true
    → find (has_id id) (r ∷ rs) ≡ some r
unfolding find
find_first id r rs h = ground arith

first_row :
    (id : String) (r : RunRow) (rs : List RunRow)
    → (r.id == id) ≡ true
    → get id (r ∷ rs) ≡ some (scan_run r)
unfolding get
first_row id r rs h = rw (find_first id r rs h, get) refl

insert_row :
    (s : Start) (now : ℕ) (rs : List RunRow)
    → get s.id rs ≡ none
    → (r : Run) × (get s.id (insert_start s now rs) ≡ some r) × (r.state ≡ starting)
unfolding scan_run
insert_row s now rs h = (
  scan_run (started_row s now),
  rw (insert_start-none s now rs (find-none s.id rs h))
      (first_row s.id (started_row s now) rs (==_refl s.id)),
  refl,
)

module _ {S : Type 0} (o : Outside S) (s : Start) (w : World S) where
  -- The start as the library gets it: with the policy of the machine.
  abbrev pub durable : Start
  durable = record s { runtime = w.runtime }

  -- There was no row, and there is one of a run that is starting.
  abbrev pub IsInserted : World S → Type 0
  IsInserted w' =
      (get s.id w.db.runs ≡ none)
      × ((r : Run) × (get s.id w'.db.runs ≡ some r) × (r.state ≡ starting))

  -- The library has a running execution of the run.
  abbrev pub HasExecution : Type 0
  HasExecution = (i : Instance) × Memᴰ i (o.instances w.outside) × (i.id ≡ s.id) × (i.active ≡ true)

  -- The run is active and has no running execution; the rows are as before.
  abbrev pub IsOrphaned : World S → Type 0
  IsOrphaned w' =
      ((r : Run) × (get s.id w.db.runs ≡ some r) × (active_state r.state ≡ true))
      × ¬ HasExecution
      × (w'.db ≡ w.db)

  -- The run is active and has a running execution; the rows are as before.
  abbrev pub IsRunning : Run → World S → Type 0
  IsRunning r w' =
      (get s.id w.db.runs ≡ some r) × (active_state r.state ≡ true) × HasExecution × (w'.db ≡ w.db)

  abbrev pub Ensures : Ensured S → Type 0
  Ensures (ok true, w') =
      (IsInserted w' × (o.create_instance durable w.outside ≡ (ok tt, w'.outside)))
      ⊎ (IsOrphaned w'
          × ((o.create_instance durable w.outside ≡ (ok tt, w'.outside))
              ⊎ (o.create_instance durable w.outside ≡ (err already_exists, w'.outside))))
  Ensures (ok false, w') =
      (IsInserted w' × (o.create_instance durable w.outside ≡ (err already_exists, w'.outside)))
      ⊎ ((r : Run) × (get s.id w.db.runs ≡ some r) × (active_state r.state ≡ false) × (w' ≡ w))
      ⊎ ((r : Run) × IsRunning r w'
          × (((r.current_node == "" || r.current_node_visit_id == "") ≡ true)
                × (w'.outside ≡ w.outside)
              ⊎ ((is_live o r w ≡ true) × (w'.outside ≡ w.outside))
              ⊎ ((is_live o r w ≡ false)
                  × (o.signal r.id reconciles w.outside ≡ (ok tt, w'.outside)))))
  Ensures (err (create_failed e), w') =
      (IsInserted w' ⊎ IsOrphaned w') × (o.create_instance durable w.outside ≡ (err e, w'.outside))
  Ensures (err (signal_failed e), w') =
      (r : Run) × IsRunning r w' × (o.signal r.id reconciles w.outside ≡ (err e, w'.outside))
  Ensures (err _, w') = ⊥

  created_new-Ensures :
      (m : Result Fault (Unit {0}) × S)
      → get s.id w.db.runs ≡ none
      → o.create_instance durable w.outside ≡ m
      → Ensures (
          created_new o durable (
            outside_result
              (record w { db = record w.db { runs = insert_start durable w.now w.db.runs } })
              m))
  created_new-Ensures (ok u, x) n e = inl ((n, insert_row durable w.now w.db.runs n), e)
  created_new-Ensures (err already_exists, x) n e =
      inl ((n, insert_row durable w.now w.db.runs n), e)
  created_new-Ensures (err not_found, x) n e = (inl (n, insert_row durable w.now w.db.runs n), e)
  created_new-Ensures (err (other t), x) n e = (inl (n, insert_row durable w.now w.db.runs n), e)

  recreated-Ensures :
      (m : Result Fault (Unit {0}) × S)
      → IsOrphaned w
      → o.create_instance durable w.outside ≡ m
      → Ensures (recreated o (outside_result w m))
  recreated-Ensures (ok u, x) n e = inr (n, inl e)
  recreated-Ensures (err already_exists, x) n e = inr (n, inr e)
  recreated-Ensures (err not_found, x) n e = (inr n, e)
  recreated-Ensures (err (other t), x) n e = (inr n, e)

  signaled-Ensures :
      (r : Run) (m : Result Fault (Unit {0}) × S)
      → IsRunning r w
      → is_live o r w ≡ false
      → o.signal r.id reconciles w.outside ≡ m
      → Ensures (signaled o (outside_result w m))
  signaled-Ensures r (ok u, x) n l e = inr (inr (r, n, inr (inr (l, e))))
  signaled-Ensures r (err f, x) n l e = (r, n, e)

  reconcile_terminal-Ensures : (r : Run) → IsRunning r w → Ensures (reconcile_terminal o r w)
  unfolding reconcile_terminal
  reconcile_terminal-Ensures r n =
      either_way Ensures (r.current_node == "" || r.current_node_visit_id == "") _ _
        (λ e. inr (inr (r, n, inl (e, refl))))
        (λ _.
          either_way Ensures (is_live o r w) _ _ (λ e. inr (inr (r, n, inr (inl (e, refl)))))
            (λ e. signaled-Ensures r (o.signal r.id reconciles w.outside) n e refl))

  running-HasExecution :
      {i : Instance} → active_instance s.id (o.instances w.outside) ≡ some i → HasExecution
  running-HasExecution {i} e =
      let (m, t) = last_where-some (is_active s.id) (o.instances w.outside) e in
      let (a, b) = &&-eq-true {a = i.id == s.id} t in (i, m, ==-eq a, b)

  none-HasExecution : active_instance s.id (o.instances w.outside) ≡ none → ¬ HasExecution
  none-HasExecution e (i, m, a, b) =
      let t = last_where-none (is_active s.id) (o.instances w.outside) {i = i} e m in
      cc (rw (a, ==_refl s.id, b) at t)

  ensure_active-Ensures :
      (r : Run) (i : Option Instance)
      → get s.id w.db.runs ≡ some r
      → active_state r.state ≡ true
      → active_instance s.id (o.instances w.outside) ≡ i
      → Ensures (ensure_active o s r i w)
  ensure_active-Ensures r none h a e =
      recreated-Ensures (o.create_instance durable w.outside) ((r, h, a), none-HasExecution e, refl)
        refl
  ensure_active-Ensures r (some i) h a e =
      reconcile_terminal-Ensures r (h, a, running-HasExecution e, refl)

  ensure_row-Ensures : (l : Option Run) → get s.id w.db.runs ≡ l → Ensures (ensure_row o s l w)
  unfolding ensure_row ensure_new
  ensure_row-Ensures none h = created_new-Ensures (o.create_instance durable w.outside) h refl
  ensure_row-Ensures (some r) h =
      either_way Ensures (active_state r.state) _ _ (λ e. ensure_active-Ensures r _ h e refl)
        (λ e. inr (inl (r, h, e, refl)))

-- Whatever the workflow library and the terminals answer. `EnsureRun` says that it created a run only
-- where the library accepted its start and there was no row, and now there is one of a starting run,
-- or where an active run had no running execution, and then the library accepted a start or had one
-- already. It reports success without a creation only for a run that is finished or canceling, and
-- then nothing has changed; for an active run with a running execution that is at no work node, has a
-- live terminal, or was sent the reconcile signal; or where it inserted the row and the library
-- already had the start. Its errors are failures of the start and of the signal, and each leaves the
-- row in place. A row is written only where there was none.
pub ensure_run-Ensures :
    {S : Type 0} (o : Outside S) (start : Start) (w : World S)
    → Ensures o (filled o start) w (ensure_run o start w)
unfolding ensure_run
ensure_run-Ensures o start w = ensure_row-Ensures o (filled o start) w (get start.id w.db.runs) refl
