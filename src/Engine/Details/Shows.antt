-- ===== src/Engine/Details/Shows.antt =====
-- What the details say that `GetRunDetail` of internal/execution/goworkflows/engine.go returns.
use relay_flow.Prelude.{
  ℕ, String, none, some, List, [], ◌∷◌, ◌++◌, All, Memᴰ, ◌==◌, true, map, length, Result, ok, err,
  ◌≡◌, refl, sym, ap, ◌∙◌,
}
use mathlib.Core.List.{reverse, append-nil}
use relay_flow.Workflow.{Workflow}
use relay_flow.Run.{Run}
use relay_flow.Projection.Runs.{get}
use relay_flow.Projection.Steps.{StepEntry, StepRow}
use relay_flow.Detail.{RunDetail, reached}
use relay_flow.Detail.Rows.{AreRows}
use relay_flow.Detail.Extends.{Extends, add_pending_nodes-Extends}
use relay_flow.Detail.Derive.{derive_inspection_fields, scan_step, list_steps, get_detail}
use relay_flow.Detail.Order.{AreOrdered, list_steps-AreOrdered, list_steps-mem, list_steps-only}
use relay_flow.Detail.Progress.{
  unflagged, IsPending, marked-unflagged, marked-reached, reached-more, Counts, derive-Counts,
}
use relay_flow.Engine.{Outside, World, EngineError, run_not_found}
use relay_flow.Engine.Instances.{workflow_of}
use relay_flow.Engine.Reports.Answers.{Untouched, Looks, workflow_of-Looks}
use relay_flow.Engine.Details.{Detailed, with_definition, get_run_detail}

map-append :
    (ss ts : List StepEntry) → map unflagged (ss ++ ts) ≡ map unflagged ss ++ map unflagged ts
map-append [] ts = refl
map-append (s ∷ ss) ts = ap (λ x. unflagged s ∷ x) (map-append ss ts)

rows-All :
    (run_id : String) (wf : Workflow) (visited targets : List String) (first : ℕ)
    (ss : List StepEntry)
    → AreRows run_id wf visited targets first ss
    → All IsPending ss
rows-All run_id wf visited targets first [] h = tt
rows-All run_id wf visited targets first (s ∷ ss) h =
    (h.0.waits, rows-All run_id wf visited targets first ss h.1)

-- `added` are steps after the recorded ones, the last one first.
pub record Shows (r : Run) (recorded : List StepEntry) (d : RunDetail) : Type 0 where
  pub run : d.run ≡ r
  pub added : List StepEntry
  pub waiting : All IsPending added
  pub steps : map unflagged d.steps ≡ map unflagged (recorded ++ reverse added)
  pub counts : Counts d
  pub completed : d.progress.completed ≡ length (reached recorded)

module _ (r : Run) (recorded : List StepEntry) where
  -- One derivation, of steps that are the recorded ones and the added ones but for their flags.
  derive-Shows :
      (now : ℕ) (d : RunDetail) (added : List StepEntry)
      → d.run ≡ r
      → All IsPending added
      → map unflagged d.steps ≡ map unflagged (recorded ++ reverse added)
      → length (reached d.steps) ≡ length (reached recorded)
      → Shows r recorded (derive_inspection_fields now d)
  unfolding derive_inspection_fields
  derive-Shows now d added same waiting steps reaches = record {
    run = same;
    added = added;
    waiting = waiting;
    steps = marked-unflagged d.steps ∙ steps;
    counts = derive-Counts now d;
    completed = (derive-Counts now d).completed ∙ marked-reached d.steps ∙ reaches;
  }

  again-Shows :
      (now : ℕ) (d : RunDetail) (wf : Workflow) (e : RunDetail)
      → d.run ≡ r
      → map unflagged d.steps ≡ map unflagged recorded
      → length (reached d.steps) ≡ length (reached recorded)
      → Extends wf d e
      → Shows r recorded (derive_inspection_fields now e)
  again-Shows now d wf e same steps reaches x =
      let waiting = rows-All d.run.id wf _ _ _ x.rows x.are_rows in
      derive-Shows now e x.rows (ap (λ k. k.run) x.extended ∙ same) waiting
        (ap (λ k. map unflagged k.steps) x.extended
          ∙ map-append d.steps (reverse x.rows)
          ∙ ap (λ k. k ++ map unflagged (reverse x.rows)) steps
          ∙ sym (map-append recorded (reverse x.rows)))
        (ap (λ k. length (reached k.steps)) x.extended
          ∙ reached-more d.steps x.rows waiting
          ∙ reaches)

-- The details, as the engine gives them.
pub record Answers {S : Type 0} (id : String) (r : Run) (w : World S) (m : Detailed S)
    : Type 0 where
  pub detail : RunDetail
  pub after : World S
  pub answer : m ≡ some (ok detail, after)
  pub untouched : Untouched w after
  pub shows : Shows r (list_steps id w.db.steps) detail
  pub ordered : AreOrdered (list_steps id w.db.steps)
  pub whole :
      (row : StepRow)
      → Memᴰ row w.db.steps
      → (row.run_id == id) ≡ true
      → Memᴰ (scan_step row) (list_steps id w.db.steps)
  pub only :
      (s : StepEntry)
      → Memᴰ s (list_steps id w.db.steps)
      → (row : StepRow) × (Memᴰ row w.db.steps × ((row.run_id == id) ≡ true)) × (s ≡ scan_step row)

module _ {S : Type 0} (id : String) (w : World S) (r : Run) (base : RunDetail) (same : base.run ≡ r)
    (recorded : base.steps ≡ list_steps id w.db.steps) where
  base-Shows : (now : ℕ) → Shows r (list_steps id w.db.steps) (derive_inspection_fields now base)
  base-Shows now =
      derive-Shows r (list_steps id w.db.steps) now base [] same tt
        (ap (map unflagged) (recorded ∙ sym (append-nil (list_steps id w.db.steps))))
        (ap (λ k. length (reached k)) recorded)

  with_definition-Answers :
      (now : ℕ) (l : Result EngineError Workflow × World S)
      → Looks w l
      → Answers id r w (with_definition (derive_inspection_fields now base) l)
  unfolding derive_inspection_fields
  with_definition-Answers now (err e, w') k = record {
    detail = derive_inspection_fields now base;
    after = w';
    answer = refl;
    untouched = k.1;
    shows = base-Shows now;
    ordered = list_steps-AreOrdered id w.db.steps;
    whole = λ row. list_steps-mem id row w.db.steps;
    only = λ s. list_steps-only id s w.db.steps;
  }
  with_definition-Answers now (ok v, w') k =
      let d = derive_inspection_fields now base in
      let (e, done, x) = add_pending_nodes-Extends d v in
      record {
        detail = derive_inspection_fields w'.now e;
        after = w';
        answer = rw done refl;
        untouched = k;
        shows =
            again-Shows r (list_steps id w.db.steps) w'.now d v e same
              (marked-unflagged base.steps ∙ ap (map unflagged) recorded)
              (marked-reached base.steps ∙ ap (λ k. length (reached k)) recorded) x;
        ordered = list_steps-AreOrdered id w.db.steps;
        whole = λ row. list_steps-mem id row w.db.steps;
        only = λ s. list_steps-only id s w.db.steps;
      }

-- Whatever the workflow library holds. `GetRunDetail` never fails for a run that has a row, and no
-- row and nothing outside changes. It shows the run as the row has it; the recorded steps of the run
-- and no other, in the order of their sequences and unchanged but for the flag of a known duration;
-- and after them only pending steps. Its progress counts the recorded steps that were reached as
-- completed, all shown steps as the total, and the others as pending. A run without a row is reported
-- as not found.
pub get_run_detail-Answers :
    {S : Type 0} (o : Outside S) (id : String) (w : World S)
    → ((r : Run) → get id w.db.runs ≡ some r → Answers id r w (get_run_detail o id w))
      × (get id w.db.runs ≡ none → get_run_detail o id w ≡ some (err (run_not_found id), w))
unfolding get_run_detail get_detail
get_run_detail-Answers o id w = (
  λ r h. rw h (
      with_definition-Answers id w r _ refl refl w.now (workflow_of o id w)
        (workflow_of-Looks o w id)),
  λ h. rw h refl,
)
