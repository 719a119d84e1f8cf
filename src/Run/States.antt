-- ===== src/Run/States.antt =====
-- `terminalState` and `activeState` of internal/run/manager.go, and the state tests of the SQL in
-- internal/execution/projection/projection.go.
use relay_flow.Prelude.{Bool, true, false, not, ◌&&◌, ◌≡◌}
use relay_flow.Run.{State, starting, running, waiting, blocked, completed, canceling, canceled}

-- Equality of the texts that stand for the states.
abbrev pub same_state : State → State → Bool
same_state starting starting = true
same_state running running = true
same_state waiting waiting = true
same_state blocked blocked = true
same_state completed completed = true
same_state canceling canceling = true
same_state canceled canceled = true
same_state _ _ = false

abbrev pub terminal_state : State → Bool
terminal_state completed = true
terminal_state canceled = true
terminal_state _ = false

abbrev pub active_state : State → Bool
active_state state = not (terminal_state state) && not (same_state state canceling)

abbrev pub IsTerminal : State → Type 0
IsTerminal s = terminal_state s ≡ true
