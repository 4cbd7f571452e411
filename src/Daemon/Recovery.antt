-- ===== src/Daemon/Recovery.antt =====
-- What the daemon does to its store when it starts (crates/anti-daemon/src/recovery.rs). The
-- collection of worktrees that comes first touches no table.
pub mod Items
pub mod Agents
use anti_subagent.Prelude.{
  ℕ, String, Bool, true, false, ◌&&◌, ◌||◌, not, Option, none, some, List, [], ◌∷◌, Result, ok, err,
  Clock, ◌==◌, ltb, any, retain, map_option, if◌then◌else◌,
}
use anti_subagent.Core.Model.{AgentStatus, running, blocked, starting, AgentRecord, WorkspaceLease}
use anti_subagent.Core.Work.{
  WorkItemState, in_progress, submitted, needs_revision, failed, WorkItem, work_eq,
}
use anti_subagent.Core.Events.{
  Json, null, bool, num, str, obj, end, field, json_str, agent_progress, peer_crashed,
}
use anti_subagent.Store.Db.{Store}
use anti_subagent.Store.Codec.{work_text}
use anti_subagent.Store.Events.{log_event}
use anti_subagent.Store.Agents.{Processes, list_agents, is_agent_alive, mark_exit}
use anti_subagent.Store.Works.{list_work_items, update_work_state}

abbrev pub has_process : AgentStatus → Bool
has_process running = true
has_process blocked = true
has_process starting = true
has_process _ = false

unfoldable pub find_dead_agents : Processes → Store → List AgentRecord
find_dead_agents os s =
    retain (λ (a : AgentRecord). not (is_agent_alive os a.id s))
      (retain (λ (a : AgentRecord). has_process a.status) (list_agents s))

-- `dead_ids.contains(…)`.
abbrev pub is_dead : List AgentRecord → String → Bool
is_dead dead id = any (λ (a : AgentRecord). a.id == id) dead

abbrev pub recovery_target : WorkItem → WorkItemState
recovery_target w = if ltb w.revision w.max_revisions then needs_revision else failed

abbrev recovery_payload : WorkItem → Json
recovery_payload w = obj (
    field "task_id" (str w.id) (
      field "recovery" (bool true) (
        field "new_state" (str (work_text (recovery_target w)))
          (field "reason" (str "peer_crashed_on_restart") end))))

-- One round of the loop over the items.
unfoldable pub recover_item : List AgentRecord → Clock → WorkItem → Store → Store
recover_item dead c w s =
    let (s', outcome) = update_work_state w.id w.state (recovery_target w) c s in
    if is_dead dead w.peer_id && (work_eq w.state in_progress || work_eq w.state submitted)
    then elim outcome [
      | err e ↦ s'
      | ok _ ↦ log_event w.peer_id agent_progress (recovery_payload w) c s'
    ]
    else s

unfoldable pub recover_items : List AgentRecord → Clock → List WorkItem → Store → Store
recover_items dead c [] s = s
recover_items dead c (w ∷ ws) s = recover_items dead c ws (recover_item dead c w s)

unfoldable pub recover_work_items : List AgentRecord → Clock → Store → Store
recover_work_items dead c s = recover_items dead c (list_work_items none s) s

abbrev lease_id_of : Option WorkspaceLease → Json
lease_id_of l = json_str (map_option (λ (w : WorkspaceLease). w.lease_id) l)

abbrev path_of : Option WorkspaceLease → Json
path_of l = json_str (map_option (λ (w : WorkspaceLease). w.path) l)

abbrev crash_payload : AgentRecord → Clock → Json
crash_payload a c = obj (
    field "exit_code" null (
      field "workspace_lease_id" (lease_id_of a.workspace) (
        field "workspace_path" (path_of a.workspace) (
          field "crash_evidence"
            (obj (
              field "timestamp" (str c.now) (
                field "reason" (str "daemon_restart_dead_process")
                  (field "spawn_gen" (num a.spawn_gen) end))))
            end))))

unfoldable pub mark_dead : List AgentRecord → Clock → Store → Store
mark_dead [] c s = s
mark_dead (a ∷ dead) c s =
    mark_dead dead c
      (log_event a.id peer_crashed (crash_payload a c) c (mark_exit a.id false c s).0)

unfoldable pub recover_on_restart : Processes → Clock → Store → Store
recover_on_restart os c s =
    let dead = find_dead_agents os s in mark_dead dead c (recover_work_items dead c s)
