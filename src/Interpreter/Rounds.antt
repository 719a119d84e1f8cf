-- ===== src/Interpreter/Rounds.antt =====
-- Invariants of `runGraph` in internal/execution/goworkflows/interpreter.go, on any signals.
use mathlib.Core.List.{append_assoc, append-nil}
use relay_flow.Prelude.{
  ℕ, ◌+◌, String, true, false, List, [], ◌∷◌, ◌++◌, Memᴰ, mem-append_cases, Result, ok, err, elem,
  lookup, ltb, ◌==◌, ==_refl, ==-ne, Bool-cases, Option-cases, ◌≡◌, ◌≢◌, ◌∙◌, inl, inr, refl, sym,
  ap, subst, arith,
}
use relay_flow.Run.{Start}
use relay_flow.Workflow.{Workflow, end_node}
use relay_flow.Workflow.Report.{Report, ReportError, validate_report}
use relay_flow.Workflow.Validate.{validate}
use relay_flow.Workflow.Validate.Spec.{IsDistinct}
use relay_flow.Workflow.Accepted.{LeadsInto, accepted_report-LeadsInto, start_target-LeadsInto}
use relay_flow.Interpreter.{
  Activity, record_report, start_activities, entry_activities, end_activities,
  transition_activities, ReportSignal, Signal, reports, reconciles, cancels, Visit, visit_of,
  Waiting, Progress, waits, completes, stops, fails, enter, deliver, is_for, sees, receive,
  run_signals, run_graph,
}

-- The identities of the reports that a log has recorded as processed.
abbrev receipt_of : Activity → List String
receipt_of (record_report visit id) = id ∷ []
receipt_of _ = []

abbrev pub receipts : List Activity → List String
receipts [] = []
receipts (a ∷ log) = receipt_of a ++ receipts log

receipts-append : (a b : List Activity) → receipts (a ++ b) ≡ receipts a ++ receipts b
receipts-append [] b = refl
receipts-append (x ∷ a) b =
    ap (λ l. receipt_of x ++ l) (receipts-append a b)
    ∙ sym (append_assoc (receipt_of x) (receipts a) (receipts b))

-- The receipts are different, and the interpreter knows their reports.
pub record Logged (log : List Activity) (seen : List String) : Type 0 where
  pub distinct : IsDistinct (receipts log)
  pub all_seen : (id : String) → Memᴰ id (receipts log) → elem id seen ≡ true

quiet-Logged :
    (log more : List Activity) (seen : List String)
    → receipts more ≡ []
    → Logged log seen
    → Logged (log ++ more) seen
quiet-Logged log more seen e k =
    let same : receipts log ≡ receipts (log ++ more) =
      sym (receipts-append log more ∙ ap (λ l. receipts log ++ l) e ∙ append-nil (receipts log)) in
    record {
      distinct = subst IsDistinct same k.distinct;
      all_seen = λ id m. k.all_seen id (subst (λ l. Memᴰ id l) (sym same) m);
    }

IsDistinct-snoc :
    (xs : List String) (x : String) → IsDistinct xs → ¬ Memᴰ x xs → IsDistinct (xs ++ (x ∷ []))
IsDistinct-snoc [] x d n = ((λ m. elim m [ ]), tt)
IsDistinct-snoc (y ∷ xs) x d n = (
  λ m. elim (mem-append_cases xs (x ∷ []) m) [
    | inl p ↦ d.0 p
    | inr (Memᴰ.head e) ↦ n (Memᴰ.head (sym e))
    | inr (Memᴰ.tail q) ↦ elim q [ ]
  ],
  IsDistinct-snoc xs x d.1 (λ m. n (Memᴰ.tail m)),
)

elem_cons : (id x : String) (seen : List String) → elem id seen ≡ true → elem id (x ∷ seen) ≡ true
elem_cons id x seen h = ground arith

new-Logged :
    (log more : List Activity) (seen : List String) (x : String)
    → receipts more ≡ x ∷ []
    → elem x seen ≡ false
    → Logged log seen
    → Logged (log ++ more) (x ∷ seen)
new-Logged log more seen x e n k =
    let same : receipts log ++ (x ∷ []) ≡ receipts (log ++ more) =
      sym (receipts-append log more ∙ ap (λ l. receipts log ++ l) e) in
    record {
      distinct =
          subst IsDistinct same
            (IsDistinct-snoc (receipts log) x k.distinct (λ m. cc (k.all_seen x m, n)));
      all_seen = λ id m.
          elim (mem-append_cases (receipts log) (x ∷ []) (subst (λ l. Memᴰ id l) (sym same) m)) [
            | inl p ↦ elem_cons id x seen (k.all_seen id p)
            | inr (Memᴰ.head p) ↦ subst (λ j. elem j (x ∷ seen) ≡ true) (sym p) (rw (==_refl x))
            | inr (Memᴰ.tail q) ↦ elim q [ ]
          ];
    }

-- The node that a waiting interpreter is at, and the log that it has made.
pub record IsAt (w : Workflow) (x : Waiting) : Type 0 where
  pub inside : LeadsInto w x.visit.node
  pub no_end : x.visit.node ≢ end_node
  pub logged : Logged x.log x.seen

abbrev pub IsSound : Workflow → Progress → Type 0
IsSound w (waits x) = IsAt w x
IsSound w (completes log) = IsDistinct (receipts log)
IsSound w (stops log) = IsDistinct (receipts log)
IsSound w (fails log) = IsDistinct (receipts log)

receipts-end : (s : Start) (n : ℕ) → receipts (end_activities s n) ≡ []
receipts-end s n = elim (Bool-cases s.workflow.cleanup_runner_on_end) [
  | inl e ↦ rw e refl
  | inr e ↦ rw e refl
]

receipts-start : (s : Start) (target : String) → receipts (start_activities s target) ≡ []
receipts-start s target = elim (Bool-cases (ltb 1 s.attempt_id)) [
  | inl e ↦ rw e refl
  | inr e ↦ rw e refl
]

receipts-transition :
    (v : Visit) (id : String) (r : Report) → receipts (transition_activities v id r) ≡ id ∷ []
receipts-transition v id r = elim (Bool-cases (r.next_step == end_node)) [
  | inl e ↦ rw e refl
  | inr e ↦ rw e refl
]

module _ (ids : ℕ → String) (s : Start) (valid : validate s.workflow ≡ ok tt) where
  node-visit_of :
      (lasts : List (String × (ℕ × ℕ))) (node : String) (n : ℕ)
      → (visit_of ids lasts node n).node ≡ node
  node-visit_of lasts node n = elim (Option-cases (lookup node lasts)) [
    | inl e ↦ rw (e, visit_of) refl
    | inr (p, e) ↦ rw (e, visit_of) refl
  ]

  enter-IsSound :
      (node : String) (n : ℕ) (seen : List String) (lasts : List (String × (ℕ × ℕ)))
      (log : List Activity)
      → LeadsInto s.workflow node
      → Logged log seen
      → IsSound s.workflow (enter ids s node n seen lasts log)
  unfolding enter
  enter-IsSound node n seen lasts log l k = elim (Bool-cases (node == end_node)) [
    | inl e ↦
        rw (e, enter)
          ((quiet-Logged log (end_activities s (n + 1)) seen (receipts-end s (n + 1)) k).distinct)
    | inr e ↦
        let same = sym (node-visit_of lasts node (n + 1)) in
        rw (e, enter)
          (record {
            inside = subst (LeadsInto s.workflow) same l;
            no_end = subst (λ x. x ≢ end_node) same (==-ne e);
            logged =
                quiet-Logged log (entry_activities (visit_of ids lasts node (n + 1))) seen refl k;
          })
  ]

  deliver-IsSound :
      (w : Waiting) (g : ReportSignal)
      → IsAt s.workflow w
      → elem g.report_id w.seen ≡ false
      → IsSound s.workflow (deliver ids s (sees w g.report_id) g)
  unfolding deliver
  deliver-IsSound w g k n = on (validate_report s.workflow w.visit.node g.report) refl
    where
      on :
          (r : Result ReportError (Unit {0}))
          → validate_report s.workflow w.visit.node g.report ≡ r
          → IsSound s.workflow (deliver ids s (sees w g.report_id) g)
      on (err e) h = rw (h, deliver) (k.logged.distinct)
      on (ok u) h =
          rw (h, deliver)
            (enter-IsSound g.report.next_step w.visit.sequence (g.report_id ∷ w.seen) w.last_steps _
              (accepted_report-LeadsInto s.workflow w.visit.node g.report valid h)
              (new-Logged w.log (transition_activities w.visit g.report_id g.report) w.seen
                g.report_id (receipts-transition w.visit g.report_id g.report) n k.logged))

  sees-IsAt : (w : Waiting) (id : String) → IsAt s.workflow w → IsAt s.workflow (sees w id)
  sees-IsAt w id k = record {
    inside = k.inside;
    no_end = k.no_end;
    logged = record {
      distinct = k.logged.distinct;
      all_seen = λ x m. elem_cons x id w.seen (k.logged.all_seen x m);
    };
  }

  receive-IsSound :
      (w : Waiting) (g : Signal) → IsAt s.workflow w → IsSound s.workflow (receive ids s w g)
  unfolding receive
  receive-IsSound w cancels k = k.logged.distinct
  receive-IsSound w reconciles k = record {
    inside = k.inside;
    no_end = k.no_end;
    logged = quiet-Logged w.log _ w.seen refl k.logged;
  }
  receive-IsSound w (reports g) k = elim (Bool-cases (elem g.report_id w.seen)) [
    | inl o ↦ rw (o, receive) k
    | inr n ↦ elim (Bool-cases (is_for g w.visit)) [
      | inl f ↦ rw (n, receive) (rw f (deliver-IsSound w g k n))
      | inr f ↦ rw (n, receive) (rw f (sees-IsAt w g.report_id k))
    ]
  ]

  run_signals-IsSound :
      (p : Progress) (gs : List Signal)
      → IsSound s.workflow p
      → IsSound s.workflow (run_signals ids s p gs)
  unfolding run_signals
  run_signals-IsSound p [] k = k
  run_signals-IsSound (waits w) (g ∷ gs) k =
      run_signals-IsSound (receive ids s w g) gs (receive-IsSound w g k)
  run_signals-IsSound (completes l) (g ∷ gs) k = run_signals-IsSound (completes l) gs k
  run_signals-IsSound (stops l) (g ∷ gs) k = run_signals-IsSound (stops l) gs k
  run_signals-IsSound (fails l) (g ∷ gs) k = run_signals-IsSound (fails l) gs k

-- On any signals, the interpreter of an accepted workflow waits only at nodes of the workflow other
-- than `start` and `end`, has recorded no report twice, and while it waits knows every report that it
-- has recorded.
pub run_graph-IsSound :
    (ids : ℕ → String) (s : Start) (gs : List Signal)
    → validate s.workflow ≡ ok tt
    → IsSound s.workflow (run_graph ids s gs)
unfolding run_graph
run_graph-IsSound ids s gs valid =
    let (target, e, l) = start_target-LeadsInto s.workflow valid in
    let quiet = receipts-start s target in
    let begun : Logged (start_activities s target) [] = record {
      distinct = subst IsDistinct (sym quiet) tt;
      all_seen = λ id m. elim (subst (λ r. Memᴰ id r) quiet m) [ ];
    } in
    rw (e, run_graph)
      (run_signals-IsSound ids s valid _ gs
        (enter-IsSound ids s valid target 0 [] [] (start_activities s target) l begun))
