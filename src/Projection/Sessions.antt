-- ===== src/Projection/Sessions.antt =====
-- Sessions and report receipts of internal/execution/projection/projection.go: a session counts
-- only for the visit that it first registered in, and a receipt is recorded once.
use relay_flow.Prelude.{
  ℕ, ◌≤◌, String, Bool, true, false, Option, none, some, List, [], ◌∷◌, ◌==◌, ==-eq, ==_refl,
  eq_iff, eqb, ◌≡◌, ◌≢◌, ◌⊎◌, inl, inr, refl, sym, ap₂, arith, Bool-cases, Option-cases, &&-eq-true,
  ◌∙◌,
}
use relay_flow.Projection.Table.{
  find, affected, update_where, insert_new, find_test, find-update_where_key,
}
use relay_flow.Projection.Table.Keys.{affected-none, affected-insert_new}
use relay_flow.Projection.Runtimes.{
  NodeRuntime, SessionRow, ReportRow, Registration, at_node, at_visit, is_session, session_row,
  bind_session, register_node_session, is_report, has_processed_report, record_processed_report,
}

-- Whether a session may register for the current visit: it is new, or it registered in this visit.
abbrev pub may_register : Option SessionRow → String → Bool
may_register none visit = true
may_register (some s) visit = s.node_visit_id == visit

module _ (g : Registration) (now : ℕ) (runtimes : List NodeRuntime) (sessions : List SessionRow)
    {r : NodeRuntime} (current : find (at_node g.run_id g.node) runtimes ≡ some r) where
  unfold_register :
      register_node_session g now runtimes sessions
      ≡ bind_session g r.node_visit_id now runtimes sessions
          (insert_new (is_session g) (session_row g r.node_visit_id now) sessions)
  unfolding register_node_session
  unfold_register = rw (current, register_node_session)

  found_new :
      find (is_session g) (session_row g r.node_visit_id now ∷ sessions)
      ≡ some (session_row g r.node_visit_id now)
  unfolding find
  found_new = rw (==_refl g.run_id, ==_refl g.node, ==_refl g.session_id)

  -- The session row after the insert.
  bound_row :
      (t : SessionRow) × (find
          (is_session g)
          (insert_new (is_session g) (session_row g r.node_visit_id now) sessions)
        ≡ some t)
      × ((t.node_visit_id == r.node_visit_id)
          ≡ may_register (find (is_session g) sessions) r.node_visit_id)
  unfolding insert_new
  bound_row = elim (Option-cases (find (is_session g) sessions)) [
    | inl n ↦ (
      session_row g r.node_visit_id now,
      rw (n, insert_new) found_new,
      rw n (==_refl r.node_visit_id),
    )
    | inr (s, e) ↦ (s, rw (e, insert_new) e, rw e)
  ]

  after : List SessionRow
  after = insert_new (is_session g) (session_row g r.node_visit_id now) sessions

  accept :
      {t : SessionRow}
      → find (is_session g) after ≡ some t
      → (t.node_visit_id == r.node_visit_id) ≡ true
      → affected (at_visit g.run_id g.node r.node_visit_id) runtimes ≡ 1
      → bind_session g r.node_visit_id now runtimes sessions after ≡ record {
        runtimes =
            update_where
              (at_visit g.run_id g.node r.node_visit_id)
              (λ x. record x { session_id = g.session_id; updated_at = now })
              runtimes;
        sessions = after;
        accepted = true;
      }
  accept {t} e y one = rw (e, bind_session) (rw y (rw (==-eq y) (rw one)))

  refuse :
      {t : SessionRow}
      → find (is_session g) after ≡ some t
      → (t.node_visit_id == r.node_visit_id) ≡ false
      → bind_session g r.node_visit_id now runtimes sessions after
        ≡ record { runtimes = runtimes; sessions = after; accepted = false }
  refuse {t} e n = rw (e, bind_session) (rw n)

  at_current : at_visit g.run_id g.node r.node_visit_id r ≡ true
  at_current = rw (find_test (at_node g.run_id g.node) runtimes current, ==_refl r.node_visit_id)

  held :
      find (at_node g.run_id g.node) (
        update_where
          (at_visit g.run_id g.node r.node_visit_id)
          (λ x. record x { session_id = g.session_id; updated_at = now })
          runtimes)
      ≡ some (record r { session_id = g.session_id; updated_at = now })
  held =
      find-update_where_key (at_node g.run_id g.node) (at_visit g.run_id g.node r.node_visit_id)
        (λ x. record x { session_id = g.session_id; updated_at = now }) (λ x. refl) runtimes current
      ∙ rw at_current

  -- With one row for the current visit, a session is accepted exactly when it is new to the node or
  -- first registered in that visit; then the node's row holds the session, and otherwise the
  -- runtimes are as they were.
  pub register_exact :
      affected (at_visit g.run_id g.node r.node_visit_id) runtimes ≡ 1
      → ((register_node_session g now runtimes sessions).accepted
          ≡ may_register (find (is_session g) sessions) r.node_visit_id)
        × ((register_node_session g now runtimes sessions).accepted ≡ true
            → find
                (at_node g.run_id g.node)
                (register_node_session g now runtimes sessions).runtimes
              ≡ some (record r { session_id = g.session_id; updated_at = now }))
        × ((register_node_session g now runtimes sessions).accepted ≡ false
            → (register_node_session g now runtimes sessions).runtimes ≡ runtimes)
  unfolding after
  register_exact one =
      let (t, e, b) = bound_row in
      elim (Bool-cases (t.node_visit_id == r.node_visit_id)) [
        | inl y ↦ rw (unfold_register ∙ accept e y one) (sym y ∙ b, λ k. held, λ k. absurd (cc))
        | inr n ↦ rw (unfold_register ∙ refuse e n) (sym n ∙ b, λ k. absurd (cc), λ k. refl)
      ]

-- The receipts of a run: at most one for each report.
pub record IsKeyed (rows : List ReportRow) : Type 0 where
  pub single : (id report_id : String) → affected (is_report id report_id) rows ≤ 1

same_report :
    (id report_id i k visit : String) (now : ℕ) (rows : List ReportRow)
    → is_report i k
        (record { run_id = id; report_id = report_id; node_visit_id = visit; created_at = now })
      ≡ true
    → find (is_report id report_id) rows ≡ find (is_report i k) rows
same_report id report_id i k visit now rows h =
    let (a, b) = &&-eq-true {a = id == i} h in
    ap₂ (λ x y. find (is_report x y) rows) (==-eq a) (==-eq b)

affected-some :
    (test : ReportRow → Bool) (rows : List ReportRow) {r : ReportRow}
    → find test rows ≡ some r
    → 1 ≤ affected test rows
unfolding find affected
affected-some test [] h = cc
affected-some test (x ∷ rows) {r} h = elim (Bool-cases (test x)) [
  | inl c ↦ rw c (omega arith)
  | inr c ↦ rw c (affected-some test rows {r = r} (ground arith))
]

-- Recording a receipt keeps one row for each report, makes that report a processed one whatever
-- was recorded before, and changes nothing for any other report.
pub record_processed_report_exact :
    (id visit report_id : String) (now : ℕ) (rows : List ReportRow)
    → IsKeyed rows
    → IsKeyed (record_processed_report id visit report_id now rows)
      × (has_processed_report id report_id (record_processed_report id visit report_id now rows)
          ≡ true)
      × ((i k : String)
          → (id ≢ i) ⊎ (report_id ≢ k)
          → has_processed_report i k (record_processed_report id visit report_id now rows)
            ≡ has_processed_report i k rows)
unfolding record_processed_report has_processed_report
record_processed_report_exact id visit report_id now rows keyed = (
  record {
    single = λ i k.
        affected-insert_new (is_report i k) (is_report id report_id) new rows
          (same_report id report_id i k visit now rows) (keyed.single i k);
  },
  has,
  λ i k o. others i k o,
)
  where
    new : ReportRow
    new = record { run_id = id; report_id = report_id; node_visit_id = visit; created_at = now }

    has :
        eqb (affected (is_report id report_id) (insert_new (is_report id report_id) new rows)) 1
        ≡ true
    has = elim (Option-cases (find (is_report id report_id) rows)) [
      | inl n ↦
          rw (n, insert_new)
            (unfold affected in
              rw (==_refl id, ==_refl report_id)
                (ground (arith, affected-none (is_report id report_id) rows n)))
      | inr (r, e) ↦
          rw (e, insert_new)
            (ground
              (arith, affected-some (is_report id report_id) rows e, keyed.single id report_id))
    ]

    differs : (i k : String) → (id ≢ i) ⊎ (report_id ≢ k) → is_report i k new ≡ false
    differs i k o = ground (arith, eq_iff id i, eq_iff report_id k)

    others :
        (i k : String)
        → (id ≢ i) ⊎ (report_id ≢ k)
        → eqb (affected (is_report i k) (insert_new (is_report id report_id) new rows)) 1
          ≡ eqb (affected (is_report i k) rows) 1
    others i k o = elim (Option-cases (find (is_report id report_id) rows)) [
      | inl n ↦ rw (n, insert_new) (unfold affected in rw (differs i k o))
      | inr (r, e) ↦ rw (e, insert_new)
    ]
