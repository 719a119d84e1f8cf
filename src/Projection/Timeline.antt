-- ===== src/Projection/Timeline.antt =====
-- The timeline of internal/execution/projection/projection.go: an upsert never takes a step back.
use relay_flow.Prelude.{
  ℕ, ◌≤◌, String, true, Option, none, some, List, ◌==◌, ==-eq, if◌then◌else◌, Result, ok, >>-eq-ok,
  ◌≡◌, ◌≢◌, inl, inr, refl, ap₂, arith, Bool-cases, Option-cases, &&-eq-true, ◌∙◌,
}
use relay_flow.Projection.Table.{find, upsert}
use relay_flow.Projection.Table.Keys.{find-upsert}
use relay_flow.Projection.Steps.{
  StepStatus, no_status, pending, running, waiting, succeeded, failed, blocked, canceled, StepEntry,
  StepRow, StepError, is_final, merge_status, merge_step, new_step, is_step, check_step,
  upsert_step,
}

-- How far a step has come.
abbrev pub rank : StepStatus → ℕ
rank no_status = 0
rank pending = 0
rank running = 1
rank waiting = 2
rank blocked = 3
rank succeeded = 4
rank failed = 4
rank canceled = 4

abbrev pub step_row : String → ℕ → List StepRow → Option StepRow
step_row id sequence rows = find (is_step id sequence) rows

-- What later upserts leave of a row.
pub record Keeps (r t : StepRow) : Type 0 where
  pub no_step_back : rank r.status ≤ rank t.status
  pub started : r.started_at ≢ none → t.started_at ≡ r.started_at
  pub final_status : is_final r.status ≡ true → t.status ≡ r.status
  pub final_times :
      is_final r.status ≡ true → (t.finished_at ≡ r.finished_at) × (t.duration_ns ≡ r.duration_ns)
  pub final_result :
      is_final r.status ≡ true → (t.message ≡ r.message) × (t.selected_route ≡ r.selected_route)

merge_rank : (old new : StepStatus) → new ≢ no_status → rank old ≤ rank (merge_status old new)
merge_rank old new h = ground arith

merge_final : (old new : StepStatus) → is_final old ≡ true → merge_status old new ≡ old
merge_final old new h = ground arith

merge_step-Keeps :
    (elapsed : ℕ → ℕ → ℕ) (new old : StepRow)
    → new.status ≢ no_status
    → Keeps old (merge_step elapsed new old)
merge_step-Keeps elapsed new old h = record {
  no_step_back = merge_rank old.status new.status h;
  started = λ s. elim (Option-cases old.started_at) [ inl n ↦ absurd (s n) | inr (t, e) ↦ rw e ];
  final_status = merge_final old.status new.status;
  final_times = λ f. (rw f, rw f);
  final_result = λ f. (rw f, rw f);
}

Keeps-refl : (r : StepRow) → Keeps r r
Keeps-refl r = record {
  no_step_back = omega arith;
  started = λ s. refl;
  final_status = λ f. refl;
  final_times = λ f. (refl, refl);
  final_result = λ f. (refl, refl);
}

same_key :
    (s : StepEntry) (id : String) (sequence : ℕ) (rows : List StepRow)
    → is_step id sequence (new_step s) ≡ true
    → find (is_step s.run_id s.sequence) rows ≡ find (is_step id sequence) rows
same_key s id sequence rows h =
    let (a, b) = &&-eq-true {a = s.run_id == id} h in
    let n : s.sequence ≡ sequence = ground arith in ap₂ (λ i k. find (is_step i k) rows) (==-eq a) n

check_step_status :
    (s : StepEntry) (rows : List StepRow) → check_step s rows ≡ ok tt → s.status ≢ no_status
unfolding check_step
check_step_status s rows h e = absurd (ground arith)

ok_eq : {a b : List StepRow} → ◌≡◌ {A = Result StepError (List StepRow)} (ok a) (ok b) → b ≡ a
ok_eq {a} {b} h = cc

-- After an upsert that succeeds every recorded step is still recorded, no step has gone back in its
-- lifecycle or changed when it started, and a step that was final keeps its status, times, duration,
-- message and route.
pub upsert_step-Keeps :
    (elapsed : ℕ → ℕ → ℕ) (s : StepEntry) (rows : List StepRow) (id : String) (sequence : ℕ)
    {out : List StepRow} {r : StepRow}
    → upsert_step elapsed s rows ≡ ok out
    → step_row id sequence rows ≡ some r
    → (t : StepRow) × (step_row id sequence out ≡ some t) × Keeps r t
unfolding upsert_step
upsert_step-Keeps elapsed s rows id sequence {out} {r} h e =
    elim (Bool-cases (is_step s.run_id s.sequence r)) [
      | inl c ↦ (
        merge_step elapsed (new_step s) r,
        rw done (found ∙ rw c),
        merge_step-Keeps elapsed (new_step s) r stated,
      )
      | inr c ↦ (r, rw done (found ∙ rw c), Keeps-refl r)
    ]
  where
    chain :
        upsert_step elapsed s rows ≡ ok out
        → (check_step s rows ≡ ok tt)
          × (◌≡◌ {A = Result StepError (List StepRow)}
              (ok (
                upsert
                  (is_step s.run_id s.sequence)
                  (merge_step elapsed (new_step s))
                  (new_step s)
                  rows))
              (ok out))
    chain k =
        >>-eq-ok (check_step s rows)
          (ok (
            upsert (is_step s.run_id s.sequence) (merge_step elapsed (new_step s)) (new_step s)
              rows))
          k

    done :
        out
        ≡ upsert (is_step s.run_id s.sequence) (merge_step elapsed (new_step s)) (new_step s) rows
    done = ok_eq (chain h).1

    stated : s.status ≢ no_status
    stated = check_step_status s rows (chain h).0

    found :
        step_row id sequence
          (upsert (is_step s.run_id s.sequence) (merge_step elapsed (new_step s)) (new_step s) rows)
        ≡ some (if is_step s.run_id s.sequence r then merge_step elapsed (new_step s) r else r)
    found =
        find-upsert (is_step id sequence) (is_step s.run_id s.sequence)
          (merge_step elapsed (new_step s)) (new_step s) rows (λ x. refl)
          (same_key s id sequence rows) e
