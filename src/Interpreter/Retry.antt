-- ===== src/Interpreter/Retry.antt =====
-- `retryLoop` of internal/execution/goworkflows/interpreter.go: one activity, scheduled until it
-- succeeds, and what it writes to the projection meanwhile. How each attempt goes is a list. The
-- delay, the log and the texts of the messages are left out.
pub mod Shows
use relay_flow.Prelude.{
  ℕ, zero, suc, ◌+◌, String, Bool, true, false, List, [], ◌∷◌, ◌++◌, ◌&&◌, ◌||◌, if◌then◌else◌,
}

-- An attempt that fails: as a conflict or not; whether the context has ended by then; whether the
-- state `blocked` could be written, whose error is ignored, and the retry status; whether the timer
-- ran off.
pub record Failure : Type 0 where
  pub is_conflict : Bool
  pub context_over : Bool
  pub state_written : Bool
  pub recorded : Bool
  pub waited : Bool

-- A round of the loop. A success says whether the retry status could be cleared, and whether the
-- state `waiting` could be written, whose error is ignored.
pub data Attempt : Type 0 where
  succeeds : Bool → Bool → Attempt
  fails : Failure → Attempt
  context_ends : Attempt

-- The writes that the loop makes: `ProjectionUpdateRetry`, and the states `blocked` and `waiting`.
pub data Write : Type 0 where
  sets_retry : ℕ → Write
  clears_retry blocks unblocks : Write

pub data LoopEnd : Type 0 where
  returns canceled write_failed retries : LoopEnd

pub record Looped : Type 0 where
  pub writes : List Write
  pub ends : LoopEnd

abbrev pub before : List Write → Looped → Looped
before ws l = record { writes = ws ++ l.writes; ends = l.ends }

abbrev pub unblock : Bool → Bool → List Write
unblock blocked written = if blocked && written then unblocks ∷ [] else []

abbrev pub success : ℕ → Bool → Bool → Bool → Looped
success zero blocked cleared written = record { writes = unblock blocked written; ends = returns }
success (suc n) blocked true written = record {
  writes = clears_retry ∷ unblock blocked written;
  ends = returns;
}
success (suc n) blocked false written = record { writes = []; ends = write_failed }

abbrev pub block : Bool → Bool → List Write
block conflict written = if conflict && written then blocks ∷ [] else []

-- A failed attempt, before the loop goes on as `rest`.
abbrev pub failure : ℕ → Failure → Looped → Looped
failure n f rest =
    if f.context_over
    then record { writes = []; ends = canceled }
    else if f.recorded
    then before (block f.is_conflict f.state_written) (
        before (sets_retry (suc n) ∷ [])
          (if f.waited then rest else record { writes = []; ends = canceled }))
    else record { writes = block f.is_conflict f.state_written; ends = write_failed }

unfoldable pub retry_loop : ℕ → Bool → List Attempt → Looped
retry_loop n blocked [] = record { writes = []; ends = retries }
retry_loop n blocked (context_ends ∷ more) = record { writes = []; ends = canceled }
retry_loop n blocked (succeeds cleared written ∷ more) = success n blocked cleared written
retry_loop n blocked (fails f ∷ more) =
    failure n f (retry_loop (suc n) (blocked || f.is_conflict) more)
