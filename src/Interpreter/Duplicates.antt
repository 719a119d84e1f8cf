-- ===== src/Interpreter/Duplicates.antt =====
-- Report signals of internal/execution/goworkflows/interpreter.go that arrive again.
use relay_flow.Prelude.{
  ℕ, String, true, false, List, [], ◌∷◌, ◌++◌, Result, ok, err, elem, ◌==◌, ==_refl, Bool-cases,
  ◌≡◌, inl, inr, refl, sym, ap, subst, arith,
}
use relay_flow.Run.{Start}
use relay_flow.Workflow.{end_node}
use relay_flow.Workflow.Report.{ReportError, validate_report}
use relay_flow.Interpreter.{
  ReportSignal, Signal, reports, reconciles, cancels, Waiting, Progress, waits, completes, stops,
  fails, enter, deliver, is_for, sees, receive, advance, run_signals,
}

-- The interpreter will not look at the report again.
abbrev Knows : String → Progress → Type 0
Knows id (waits w) = elem id w.seen ≡ true
Knows id _ = Unit

module _ (ids : ℕ → String) (s : Start) (id : String) where
  enter-Knows :
      (node : String) (n : ℕ) (seen : List String) (lasts : List (String × (ℕ × ℕ))) (log : List _)
      → elem id seen ≡ true
      → Knows id (enter ids s node n seen lasts log)
  unfolding enter
  enter-Knows node n seen lasts log k = elim (Bool-cases (node == end_node)) [
    | inl e ↦ rw (e, enter) tt
    | inr e ↦ rw (e, enter) k
  ]

  deliver-Knows :
      (w : Waiting) (g : ReportSignal) → elem id w.seen ≡ true → Knows id (deliver ids s w g)
  unfolding deliver
  deliver-Knows w g k = on (validate_report s.workflow w.visit.node g.report) refl
    where
      on :
          (r : Result ReportError (Unit {0}))
          → validate_report s.workflow w.visit.node g.report ≡ r
          → Knows id (deliver ids s w g)
      on (err e) h = rw (h, deliver) tt
      on (ok u) h =
          rw (h, deliver) (enter-Knows g.report.next_step w.visit.sequence w.seen w.last_steps _ k)

  seen_more : (x : String) (seen : List String) → elem id seen ≡ true → elem id (x ∷ seen) ≡ true
  seen_more x seen k = ground arith

  -- A report whose identity was not seen before.
  new-Knows :
      (w : Waiting) (g : ReportSignal)
      → elem g.report_id w.seen ≡ false
      → elem id (g.report_id ∷ w.seen) ≡ true
      → Knows id (receive ids s w (reports g))
  unfolding receive
  new-Knows w g n k = elim (Bool-cases (is_for g w.visit)) [
    | inl e ↦ rw (n, receive) (rw e (deliver-Knows (sees w g.report_id) g k))
    | inr e ↦ rw (n, receive) (rw e k)
  ]

  old_report :
      (w : Waiting) (g : ReportSignal)
      → elem g.report_id w.seen ≡ true
      → receive ids s w (reports g) ≡ waits w
  unfolding receive
  old_report w g n = rw (n, receive) refl

  receive-Knows : (w : Waiting) (g : Signal) → elem id w.seen ≡ true → Knows id (receive ids s w g)
  unfolding receive
  receive-Knows w cancels k = tt
  receive-Knows w reconciles k = k
  receive-Knows w (reports g) k = elim (Bool-cases (elem g.report_id w.seen)) [
    | inl o ↦ subst (Knows id) (sym (old_report w g o)) k
    | inr n ↦ new-Knows w g n (seen_more g.report_id w.seen k)
  ]

  just_seen : (x : String) (seen : List String) → elem x (x ∷ seen) ≡ true
  just_seen x seen = rw (==_refl x)

  first-Knows :
      (p : Progress) (g : ReportSignal) → g.report_id ≡ id → Knows id (advance ids s p (reports g))
  unfolding receive
  first-Knows (waits w) g e = elim (Bool-cases (elem g.report_id w.seen)) [
    | inl o ↦ subst (Knows id) (sym (old_report w g o)) (subst (λ x. elem x w.seen ≡ true) e o)
    | inr n ↦
        new-Knows w g n
          (subst (λ x. elem x (g.report_id ∷ w.seen) ≡ true) e (just_seen g.report_id w.seen))
  ]
  first-Knows (completes l) g e = tt
  first-Knows (stops l) g e = tt
  first-Knows (fails l) g e = tt

  again :
      (p : Progress) (g : ReportSignal)
      → g.report_id ≡ id
      → Knows id p
      → advance ids s p (reports g) ≡ p
  unfolding receive
  again (waits w) g e k = old_report w g (subst (λ x. elem x w.seen ≡ true) (sym e) k)
  again (completes l) g e k = refl
  again (stops l) g e k = refl
  again (fails l) g e k = refl

  advance-Knows : (p : Progress) (g : Signal) → Knows id p → Knows id (advance ids s p g)
  advance-Knows (waits w) g k = receive-Knows w g k
  advance-Knows (completes l) g k = tt
  advance-Knows (stops l) g k = tt
  advance-Knows (fails l) g k = tt

  later_ignored :
      (p : Progress) (gs hs : List Signal) (g : ReportSignal)
      → g.report_id ≡ id
      → Knows id p
      → run_signals ids s p (gs ++ (reports g ∷ hs)) ≡ run_signals ids s p (gs ++ hs)
  unfolding run_signals
  later_ignored p [] hs g e k = ap (λ q. run_signals ids s q hs) (again p g e k)
  later_ignored p (x ∷ gs) hs g e k =
      later_ignored (advance ids s p x) gs hs g e (advance-Knows p x k)

-- Once a report signal has arrived, at whatever point of a run and whether it was taken or not, a
-- later signal with the same report identity changes nothing of how the run goes on.
pub run_signals-duplicate :
    (ids : ℕ → String) (s : Start) (p : Progress) (first second : ReportSignal)
    (gs hs : List Signal)
    → second.report_id ≡ first.report_id
    → run_signals ids s p (reports first ∷ (gs ++ (reports second ∷ hs)))
      ≡ run_signals ids s p (reports first ∷ (gs ++ hs))
unfolding run_signals
run_signals-duplicate ids s p first second gs hs e =
    later_ignored ids s first.report_id (advance ids s p (reports first)) gs hs second e
      (first-Knows ids s first.report_id p first refl)
