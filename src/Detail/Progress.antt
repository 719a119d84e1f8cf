-- ===== src/Detail/Progress.antt =====
-- What `DeriveInspectionFields` of internal/run/detail.go counts, and what it leaves of the steps.
use relay_flow.Prelude.{
  ℕ, suc, ◌+◌, false, List, [], ◌∷◌, ◌++◌, All, map, length, eqb, ◌&&◌, either_way, Bool-cases, ◌≡◌,
  inl, inr, refl, sym, ap, ap₂, ◌∙◌, arith,
}
use mathlib.Core.List.{reverse, reverse_aux}
use relay_flow.Projection.Steps.{StepStatus, StepEntry}
use relay_flow.Detail.{RunProgress, RunDetail, is_pending, reached}
use relay_flow.Detail.Derive.{is_closed, mark_known, count, progress_of, derive_inspection_fields}

-- A step without the flag that the derivation sets.
abbrev pub unflagged : StepEntry → StepEntry
unflagged s = record s { duration_known = false }

abbrev pub IsPending : StepEntry → Type 0
IsPending s = s.status ≡ StepStatus.pending

mark_known-status : (s : StepEntry) → (mark_known s).status ≡ s.status
mark_known-status s =
    either_way (λ (t : StepEntry). t.status ≡ s.status) (eqb s.duration 0 && is_closed s) _ _
      (λ _. refl) (λ _. refl)

mark_known-unflagged : (s : StepEntry) → unflagged (mark_known s) ≡ unflagged s
mark_known-unflagged s =
    either_way (λ t. unflagged t ≡ unflagged s) (eqb s.duration 0 && is_closed s) _ _ (λ _. refl)
      (λ _. refl)

pub marked-unflagged : (ss : List StepEntry) → map unflagged (map mark_known ss) ≡ map unflagged ss
marked-unflagged [] = refl
marked-unflagged (s ∷ ss) = ap₂ (λ x y. x ∷ y) (mark_known-unflagged s) (marked-unflagged ss)

marked-length : (ss : List StepEntry) → length (map mark_known ss) ≡ length ss
marked-length [] = refl
marked-length (s ∷ ss) = ap suc (marked-length ss)

pub marked-reached :
    (ss : List StepEntry) → length (reached (map mark_known ss)) ≡ length (reached ss)
unfolding reached
marked-reached [] = refl
marked-reached (s ∷ ss) = elim (Bool-cases (is_pending s.status)) [
  | inl e ↦ rw (mark_known-status s, e) (marked-reached ss)
  | inr e ↦ rw (mark_known-status s, e) (ap suc (marked-reached ss))
]

reached-append :
    (ss ts : List StepEntry)
    → length (reached (ss ++ ts)) ≡ length (reached ss) + length (reached ts)
unfolding reached
reached-append [] ts = omega arith
reached-append (s ∷ ss) ts = elim (Bool-cases (is_pending s.status)) [
  | inl e ↦ rw e (reached-append ss ts)
  | inr e ↦ rw e (omega (arith, reached-append ss ts))
]

reached-pending :
    (ss acc : List StepEntry)
    → All IsPending ss
    → length (reached (reverse_aux ss acc)) ≡ length (reached acc)
unfolding reached
reached-pending [] acc h = refl
reached-pending (s ∷ ss) acc h = reached-pending ss (s ∷ acc) h.1 ∙ rw (h.0) refl

-- Pending steps after the others are none that was reached.
pub reached-more :
    (ss added : List StepEntry)
    → All IsPending added
    → length (reached (ss ++ reverse added)) ≡ length (reached ss)
unfolding reached
reached-more ss added h =
    omega (arith, reached-append ss (reverse added), reached-pending added [] h)

count-total : (s : StepEntry) (p : RunProgress) → (count s p).total ≡ p.total
count-total s p = elim (Bool-cases (is_pending s.status)) [ inl e ↦ rw e refl | inr e ↦ rw e refl ]

count-sum :
    (s : StepEntry) (p : RunProgress)
    → (count s p).completed + (count s p).pending ≡ suc (p.completed + p.pending)
count-sum s p = elim (Bool-cases (is_pending s.status)) [
  | inl e ↦ rw e (omega arith)
  | inr e ↦ rw e (omega arith)
]

count-completed :
    (s : StepEntry) (ss : List StepEntry) (p : RunProgress)
    → (count s p).completed + length (reached ss) ≡ p.completed + length (reached (s ∷ ss))
unfolding reached
count-completed s ss p = elim (Bool-cases (is_pending s.status)) [
  | inl e ↦ rw e refl
  | inr e ↦ rw e (omega arith)
]

progress-total : (ss : List StepEntry) (p : RunProgress) → (progress_of ss p).total ≡ p.total
unfolding progress_of
progress-total [] p = refl
progress-total (s ∷ ss) p = progress-total ss (count s p) ∙ count-total s p

progress-completed :
    (ss : List StepEntry) (p : RunProgress)
    → (progress_of ss p).completed ≡ p.completed + length (reached ss)
unfolding progress_of
progress-completed [] p = unfold reached in omega arith
progress-completed (s ∷ ss) p = progress-completed ss (count s p) ∙ count-completed s ss p

progress-sum :
    (ss : List StepEntry) (p : RunProgress)
    → (progress_of ss p).completed + (progress_of ss p).pending
      ≡ p.completed + p.pending + length ss
unfolding progress_of
progress-sum [] p = omega arith
progress-sum (s ∷ ss) p = omega (arith, progress-sum ss (count s p), count-sum s p)

-- The progress counts the steps: those that were reached, and all of them.
pub record Counts (d : RunDetail) : Type 0 where
  pub total : d.progress.total ≡ length d.steps
  pub completed : d.progress.completed ≡ length (reached d.steps)
  pub sum : d.progress.completed + d.progress.pending ≡ d.progress.total

pub derive-Counts : (now : ℕ) (d : RunDetail) → Counts (derive_inspection_fields now d)
unfolding derive_inspection_fields
derive-Counts now d =
    let start : RunProgress = record { completed = 0; total = length d.steps; pending = 0 } in
    record {
      total = progress-total d.steps start ∙ sym (marked-length d.steps);
      completed = omega (arith, progress-completed d.steps start, marked-reached d.steps);
      sum = omega (arith, progress-sum d.steps start, progress-total d.steps start);
    }
