-- ===== src/Core/Status.antt =====
-- The lifecycle of an agent: the table of crates/anti-core/src/statemachine.rs, and the second
-- table, `can_transition_to` of crates/anti-core/src/agent.rs.
pub mod Traces
use anti_subagent.Prelude.{Bool, true, false, Result, ok, err, if◌then◌else◌}
use anti_subagent.Core.Model.{
  AgentStatus, created, starting, running, blocked, completed, failed, crashed, stopped, recovering,
  replaced, status_eq,
}

pub data TransitionError : Type 0 where
  invalid_transition : AgentStatus → AgentStatus → TransitionError

table : AgentStatus → AgentStatus → Bool
table created starting = true
table starting running = true
table starting failed = true
table running blocked = true
table blocked running = true
table running completed = true
table running crashed = true
table crashed recovering = true
table recovering running = true
table recovering replaced = true
table running stopped = true
table blocked stopped = true
table running failed = true
table _ _ = false

unfoldable pub can_transition : AgentStatus → AgentStatus → Bool
unfolding table
can_transition from to = if status_eq from to then true else table from to

unfoldable pub check_transition : AgentStatus → AgentStatus → Result TransitionError (Unit {0})
check_transition from to =
    if can_transition from to then ok tt else err (invalid_transition from to)

-- `AgentStatus::can_transition_to`, the table that `AgentRecord::transition` consults.
unfoldable pub can_transition_to : AgentStatus → AgentStatus → Bool
can_transition_to created starting = true
can_transition_to starting running = true
can_transition_to running failed = true
can_transition_to failed starting = true
can_transition_to running completed = true
can_transition_to running crashed = true
can_transition_to crashed recovering = true
can_transition_to recovering running = true
can_transition_to running stopped = true
can_transition_to running replaced = true
can_transition_to _ _ = false
