-- ===== src/Workflow/Report/Filled.antt =====
-- The fields that `ValidateReport` of internal/workflow/report.go wants filled.
use relay_flow.Prelude.{
  All, sym, [], ◌∷◌, String, List, Memᴰ, ok, each, each_iff, not_==_iff, ◌≡◌, ◌≢◌, ◌↔◌, refl, subst,
  arith,
}
use relay_flow.Workflow.Report.{Report, sections, check_section}

-- No field of the report is empty.
pub record IsFilled (r : Report) : Type 0 where
  pub completed : r.summary.completed ≢ ""
  pub commits : r.summary.commits ≢ ""
  pub not_completed : r.summary.not_completed ≢ ""
  pub issues_discovered : r.summary.issues_discovered ≢ ""
  pub verification : r.summary.verification ≢ ""
  pub notes : r.summary.notes ≢ ""
  pub reason_for_next_step : r.feedback.reason_for_next_step ≢ ""
  pub required_actions : r.feedback.required_actions ≢ ""
  pub relevant_context : r.feedback.relevant_context ≢ ""
  pub expected_result : r.feedback.expected_result ≢ ""
  pub next_step : r.next_step ≢ ""

section_iff : (name value : String) → (check_section (name, value) ≡ ok tt) ↔ (value ≢ "")
section_iff name value =
    (λ h. (not_==_iff value "").0 (ground arith), λ h. rw ((not_==_iff value "").1 h))

-- What holds of all sections, from the one or the other list of them.
abbrev HasText : String × String → Type 0
HasText p = p.1 ≢ ""

All-mem :
    (ps : List (String × String)) {p : String × String} → All HasText ps → Memᴰ p ps → HasText p
All-mem [] h m = elim m [ ]
All-mem (q ∷ ps) h (Memᴰ.head e) = subst HasText (sym e) h.0
All-mem (q ∷ ps) h (Memᴰ.tail m) = All-mem ps h.1 m

mem_all :
    (ps : List (String × String)) → ((p : String × String) → Memᴰ p ps → HasText p) → All HasText ps
mem_all [] f = tt
mem_all (p ∷ ps) f = (f p (Memᴰ.head refl), mem_all ps (λ q m. f q (Memᴰ.tail m)))

pub sections_iff : (r : Report) → (each check_section (sections r) ≡ ok tt) ↔ IsFilled r
sections_iff r = (
  λ h.
      let (a, (b, (c, (d, (e, (f, (g, (i, (j, (k, (l, _))))))))))) =
        mem_all (sections r)
          (λ p m. (section_iff p.0 p.1).0 ((each_iff check_section (sections r)).0 h p m)) in
      record {
        completed = a;
        commits = b;
        not_completed = c;
        issues_discovered = d;
        verification = e;
        notes = f;
        reason_for_next_step = g;
        required_actions = i;
        relevant_context = j;
        expected_result = k;
        next_step = l;
      },
  λ h.
      let all : All HasText (sections r) = (
        h.completed,
        (
          h.commits,
          (
            h.not_completed,
            (
              h.issues_discovered,
              (
                h.verification,
                (
                  h.notes,
                  (
                    h.reason_for_next_step,
                    (
                      h.required_actions,
                      (h.relevant_context, (h.expected_result, (h.next_step, tt))),
                    ),
                  ),
                ),
              ),
            ),
          ),
        ),
      ) in
      (each_iff check_section (sections r)).1
        (λ p m. (section_iff p.0 p.1).1 (All-mem (sections r) all m)),
)
