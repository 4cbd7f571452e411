-- ===== src/Daemon/Stop.antt =====
-- The request StopAgent and wait_pid_gone (crates/anti-daemon/src/main.rs). What the kernel says to the
-- signals and what the polls see are arguments; the last `wait` for a child is left out.
pub mod Laws
use anti_subagent.Prelude.{
  ℕ, String, Bool, true, false, ◌&&◌, ◌||◌, not, Option, none, some, List, [], ◌∷◌, Clock,
  if◌then◌else◌,
}
use anti_subagent.Prelude.Table.{has_row, delete_row}
use anti_subagent.Core.Model.{AgentStatus, stopped, AgentRecord}
use anti_subagent.Core.Events.{Json, str, bool, obj, end, field, agent_stopped}
use anti_subagent.Store.Db.{Store}
use anti_subagent.Store.Events.{log_event}
use anti_subagent.Store.Agents.{get_agent, update_status}
use anti_subagent.Daemon.Wire.{Response, ok_response, err_response}
use anti_subagent.Daemon.Restart.{child_id, Running}

-- What a poll sees: what `try_wait` gives of the child, and whether the process answers signal 0.
pub record Poll : Type 0 where
  pub exited : Bool
  pub answers : Bool

-- Whether SIGKILL and SIGTERM can be sent, the polls of the first and of the second wait, each up to the
-- first past its deadline, and whether signal 0 is answered at the end.
pub record Signals : Type 0 where
  pub kill_sent : Bool
  pub term_sent : Bool
  pub first : List Poll
  pub second : List Poll
  pub answers_last : Bool

-- `reap() || !send_signal(pid, 0)`; only a tracked child is reaped.
abbrev pub sees_gone : Bool → Poll → Bool
sees_gone tracked p = (tracked && p.exited) || not p.answers

unfoldable pub wait_pid_gone : Bool → List Poll → Bool
wait_pid_gone tracked [] = false
wait_pid_gone tracked (p ∷ ps) =
    let rest = wait_pid_gone tracked ps in if sees_gone tracked p then true else rest

-- `dead`.
unfoldable pub is_stopped_by : Bool → Bool → Signals → Bool
is_stopped_by force tracked g =
    if force
    then g.kill_sent && wait_pid_gone tracked g.first
    else if g.term_sent
    then (if wait_pid_gone tracked g.first then true else wait_pid_gone tracked g.second)
    else false

unfoldable pub pid_of : Option AgentRecord → Option ℕ
pid_of none = none
pid_of (some a) = a.pid

abbrev pub stop_payload : Bool → Json
stop_payload force = obj (field "force" (bool force) end)

-- Where the agent has the pid; `g` is what the kernel says of it.
unfoldable pub stop_process : Signals → Bool → String → Clock → Running → Running × Response
stop_process g force id c d =
    let left = delete_row child_id id d.children in
    if is_stopped_by force (has_row child_id id d.children) g || not g.answers_last
    then (
      record {
        store =
            log_event id agent_stopped (stop_payload force) c
              (update_status id stopped c d.store).0;
        children = left;
      },
      ok_response (obj (field "id" (str id) (field "status" (str "stopped") end))),
    )
    else (record d { children = left }, err_response "stop")

unfoldable pub stop_agent : (ℕ → Signals) → Bool → String → Clock → Running → Running × Response
stop_agent kernel force id c d = elim (pid_of (get_agent id d.store)) [
  | none ↦ (d, err_response "not_found")
  | some pid ↦ stop_process (kernel pid) force id c d
]
