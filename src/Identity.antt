-- ===== src/Identity.antt =====
-- internal/identity/identity.go: run identities, as code points. `url.PathEscape` is a parameter.
pub mod RoundTrip
use relay_flow.Prelude.{
  ℕ, zero, suc, ◌+◌, ◌/◌, ◌%◌, String, Bool, true, false, Option, none, some, List, [], ◌∷◌, ◌++◌,
  ◌&&◌, eqb, ltb, leb, if◌then◌else◌,
}
use relay_flow.Workflow.Name.{codes}

-- `NewRunID`
unfoldable pub new_run_id : (List ℕ → List ℕ) → List ℕ → List ℕ → List ℕ → List ℕ
new_run_id escape repo workflow ticket =
    escape repo ++ (b'/' ∷ (escape workflow ++ (b'/' ∷ escape ticket)))

-- `strconv.FormatUint(n, 10)`: a number has no more digits than the fuel, one above the number.
unfoldable pub digits : ℕ → ℕ → List ℕ
digits zero n = []
digits (suc fuel) n =
    let rest = digits fuel (n / 10) in
    if ltb n 10 then (b'0' + n) ∷ [] else rest ++ ((b'0' + n % 10) ∷ [])

unfoldable pub decimal : ℕ → List ℕ
decimal n = digits (suc n) n

abbrev pub marker : List ℕ
marker = codes "~attempt~"

-- `NewAttemptRunID`
unfoldable pub new_attempt_run_id : List ℕ → ℕ → List ℕ
new_attempt_run_id logical attempt =
    if leb attempt 1 then logical else logical ++ (marker ++ decimal attempt)

abbrev pub has_prefix : List ℕ → List ℕ → Bool
has_prefix [] s = true
has_prefix (c ∷ p) [] = false
has_prefix (c ∷ p) (d ∷ s) = eqb c d && has_prefix p s

-- The text before the last place where the marker stands (`strings.LastIndex`).
unfoldable pub before_last : List ℕ → Option (List ℕ)
before_last [] = none
before_last (c ∷ s) = elim (before_last s) [
  | some p ↦ some (c ∷ p)
  | none ↦ if has_prefix marker (c ∷ s) then some [] else none
]

-- `LogicalRunID`
unfoldable pub logical_run_id : List ℕ → List ℕ
logical_run_id execution = elim (before_last execution) [ none ↦ execution | some p ↦ p ]
