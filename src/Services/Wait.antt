-- ===== src/Services/Wait.antt =====
-- Waiting for the status of an agent (crates/anti-daemon/src/wait.rs). The number of rounds is the
-- fuel. What the rounds read of the database, which another connection may write, and of the clock is an
-- argument; the count of the log is the store's own, which does not change while it is borrowed.
pub mod Laws
use anti_subagent.Prelude.{
  ℕ, zero, suc, String, Bool, true, false, ◌&&◌, not, Option, none, some, nat_eq, map_option,
  if◌then◌else◌,
}
use anti_subagent.Core.Model.{AgentStatus, AgentRecord, status_eq, is_terminal}
use anti_subagent.Core.Events.{
  EventType, agent_started, agent_blocked, agent_completed, agent_failed, agent_crashed,
  agent_restarted, agent_stopped, agent_replaced,
}
use anti_subagent.Store.Db.{Store}
use anti_subagent.Store.Agents.{get_agent}
use anti_subagent.Store.Events.{current_sequence}

-- The store that each round reads, and whether the clock is at the deadline after it.
pub record Rounds : Type 0 where
  pub read : ℕ → Store
  pub late : ℕ → Bool

pub data Waited : Type 0 where
  reached : AgentStatus → Waited
  not_found : Waited
  timed_out : AgentStatus → Waited
  still_waiting : Waited

-- What a round does, given what the rounds after it do. Where the log has not grown, the count is
-- last_seq itself.
abbrev pub round : Rounds → AgentStatus → ℕ → ℕ → ℕ → Option AgentRecord → Waited → Waited
round w until n now_seq last_seq none rest = not_found
round w until n now_seq last_seq (some r) rest =
    if status_eq r.status until
    then reached r.status
    else if is_terminal r.status && not (status_eq until r.status)
    then reached r.status
    else if not (nat_eq now_seq last_seq)
    then rest
    else if w.late n
    then timed_out r.status
    else rest

unfoldable pub wait_loop : ℕ → Rounds → Store → String → AgentStatus → ℕ → ℕ → Waited
wait_loop zero w s id until n last_seq = still_waiting
wait_loop (suc rounds) w s id until n last_seq =
    round w until n (current_sequence s) last_seq (get_agent id (w.read n))
      (wait_loop rounds w s id until (suc n) (current_sequence s))

unfoldable pub wait_for_status : ℕ → Rounds → Store → String → AgentStatus → Waited
wait_for_status rounds w s id until = wait_loop rounds w s id until 0 (current_sequence s)

unfoldable pub snapshot : Store → String → Option AgentStatus
snapshot s id = map_option (λ (r : AgentRecord). r.status) (get_agent id s)

unfoldable pub is_state_change : EventType → Bool
is_state_change agent_started = true
is_state_change agent_blocked = true
is_state_change agent_completed = true
is_state_change agent_failed = true
is_state_change agent_crashed = true
is_state_change agent_restarted = true
is_state_change agent_stopped = true
is_state_change agent_replaced = true
is_state_change other = false
