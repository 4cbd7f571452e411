-- ===== src/Daemon/Restart/Reaping.antt =====
-- What the end of its process does to an agent.
use anti_subagent.Prelude.{
  String, Bool, false, ◌≡◌, refl, arith, map_option, Clock, ◌==◌, eq_iff, Option-cases,
  if◌then◌else◌,
}
use anti_subagent.Prelude.Table.{has_row, has-row-delete_any}
use anti_subagent.Core.Model.{finished, error, AgentRecord}
use anti_subagent.Core.Events.{EventType, Json, peer_crashed}
use anti_subagent.Store.Db.{Store}
use anti_subagent.Store.Events.{log_event}
use anti_subagent.Store.Agents.{get_agent, mark_exit, set_attention}
use anti_subagent.Store.Agents.Laws.{IsRegistry, moved}
use anti_subagent.Store.Agents.Exit.{events-agents, is_live, exit_status, get-mark_exit}
use anti_subagent.Store.Agents.Attention.{flagged, get-set_attention}
use anti_subagent.Daemon.Restart.{
  ExitStatus, child_id, Running, exits_ok, lease_of, crash_payload, reap_child,
}

-- The agent after its process ended.
abbrev pub reaped : ExitStatus → Clock → AgentRecord → AgentRecord
reaped e c a =
    flagged (if exits_ok e then finished else error) c
      (if is_live a.status then moved (exit_status (exits_ok e)) c a else a)

pub get-logged :
    (j id : String) (t : EventType) (p : Json) (c : Clock) (s : Store)
    → get_agent j (log_event id t p c s) ≡ get_agent j s
unfolding get_agent
get-logged j id t p c s = rw (events-agents id t p c s).0 refl

get-exited :
    (id j : String) (b : Bool) (c : Clock) (s : Store)
    → IsRegistry s
    → get_agent j (mark_exit id b c s).0 ≡ (
        if id == j
        then map_option
            (λ a. if is_live a.status then moved (exit_status b) c a else a)
            (get_agent j s)
        else get_agent j s)
get-exited id j b c s h =
    ground (arith, get-mark_exit id j b c s h, Option-cases (get_agent j s), eq_iff id j)

-- When the process of an agent has ended, the agent has its attention flag up, with the reason
-- Finished or Error; if it was Running, Blocked or Starting it is Completed or Crashed. The child is
-- gone from the table of children, and every other agent and child is as before.
-- It is assumed that no two agents of the table share an id and that each has the text of a status.
pub reap_child_lem :
    (id j : String) (e : ExitStatus) (c : Clock) (d : Running)
    → IsRegistry d.store
    → (get_agent j (reap_child id e c d).store
        ≡ (if id == j then map_option (reaped e c) (get_agent j d.store) else get_agent j d.store))
      × (has_row child_id j (reap_child id e c d).children
          ≡ (if id == j then false else has_row child_id j d.children))
unfolding reap_child
reap_child_lem id j e c d h =
    let s₁ = (mark_exit id (exits_ok e) c d.store).0 in
    let reason = if exits_ok e then finished else error in
    let s₂ = set_attention id reason c s₁ in
    let lease = lease_of (get_agent id d.store) in
    (
      ground (
        arith,
        get-exited id j (exits_ok e) c d.store h,
        get-set_attention id j reason c s₁,
        get-logged j id peer_crashed (crash_payload e lease c) c s₂,
        Option-cases (get_agent j d.store),
      ),
      ground (arith, has-row-delete_any child_id id j d.children),
    )
