-- ===== src/Daemon/Waiting.antt =====
-- The request WaitAgent of crates/anti-daemon/src/main.rs, which lets go of the store between its rounds. What the
-- rounds read is an argument, and the number of rounds is the fuel; the sleep between them and the
-- poisoning of a lock are left out.
pub mod Laws
use anti_subagent.Prelude.{
  ℕ, zero, suc, String, Bool, true, false, ◌&&◌, ◌||◌, not, Option, none, some, nat_eq, map_option,
  if◌then◌else◌,
}
use anti_subagent.Core.Model.{AgentStatus, AgentRecord, status_eq, is_terminal}
use anti_subagent.Store.Db.{Store}
use anti_subagent.Store.Agents.{get_agent}
use anti_subagent.Store.Events.{current_sequence}

-- The store as each round finds it, and whether the clock is at the deadline after it.
pub record Polls : Type 0 where
  pub store : ℕ → Store
  pub late : ℕ → Bool

pub data WaitAnswer : Type 0 where
  answered : AgentStatus → WaitAnswer
  out_of_time : WaitAnswer
  unanswered : WaitAnswer

-- The tests on the log and on the clock.
abbrev pub poll_again : Polls → ℕ → ℕ → WaitAnswer → WaitAnswer
poll_again w n last_seq rest =
    if not (nat_eq (current_sequence (w.store n)) last_seq)
    then rest
    else if w.late n
    then out_of_time
    else rest

abbrev pub is_over : AgentStatus → AgentStatus → Bool
is_over until st = status_eq st until || (is_terminal st && not (status_eq st until))

-- A round, given what the rounds after it do.
abbrev pub poll : Polls → AgentStatus → ℕ → ℕ → Option AgentStatus → WaitAnswer → WaitAnswer
poll w until n last_seq none rest = poll_again w n last_seq rest
poll w until n last_seq (some st) rest =
    if is_over until st then answered st else poll_again w n last_seq rest

unfoldable pub status_at : Polls → String → ℕ → Option AgentStatus
status_at w id n = map_option (λ (r : AgentRecord). r.status) (get_agent id (w.store n))

unfoldable pub poll_loop : ℕ → Polls → String → AgentStatus → ℕ → ℕ → WaitAnswer
poll_loop zero w id until n last_seq = unanswered
poll_loop (suc rounds) w id until n last_seq =
    poll w until n last_seq (status_at w id n)
      (poll_loop rounds w id until (suc n) (current_sequence (w.store n)))

unfoldable pub wait_agent : ℕ → Polls → String → AgentStatus → WaitAnswer
wait_agent rounds w id until = poll_loop rounds w id until 0 0
