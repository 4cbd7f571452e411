-- ===== src/Store/Agents.antt =====
-- The agent registry of the store (crates/anti-daemon/src/store.rs).
pub mod Laws
pub mod Exit
pub mod Attention
pub mod Updates
use anti_subagent.Prelude.{
  ℕ, ◌+◌, String, Bool, true, false, ◌||◌, Option, none, some, List, map, Result, ok, err,
  map_option, Clock, ◌==◌, nat_eq, add_u32, retain, if◌then◌else◌,
}
use anti_subagent.Prelude.Table.{find_row, insert_row, update_rows, changed_rows}
use anti_subagent.Core.Model.{
  AgentStatus, WorkspaceLease, AttentionReason, AttentionState, no_attention, AgentRecord,
}
use anti_subagent.Core.Status.{invalid_transition, check_transition}
use anti_subagent.Core.Events.{end, obj, agent_completed, agent_crashed}
use anti_subagent.Store.Codec.{
  role_text, parse_role, disposition_text, parse_disposition, harness_text, parse_harness,
  reason_text, parse_reason, status_text, parse_status,
}
use anti_subagent.Store.Db.{AgentRow, Store, StoreError, constraint}
use anti_subagent.Store.Events.{append_event}

abbrev pub agent_id : AgentRow → String
agent_id r = r.id

abbrev lease_of : Option String → Option String → Option WorkspaceLease
lease_of (some lease_id) (some path) =
    some (record { lease_id = lease_id; path = path; holder = ""; generation = 0 })
lease_of _ _ = none

-- `reason.as_deref().unwrap_or("finished")`.
abbrev reason_or_finished : Option String → String
reason_or_finished none = "finished"
reason_or_finished (some r) = r

attention_of : AgentRow → AttentionState
attention_of r = if nat_eq r.requires_attention 0 then no_attention else record {
  requires_attention = true;
  reason = some (parse_reason (reason_or_finished r.attention_reason));
  timestamp = r.attention_timestamp;
}

-- The closure of `get_agent`, `list_agents` and `list_attention`.
unfoldable pub record_of : AgentRow → AgentRecord
unfolding attention_of
record_of r = record {
  id = r.id;
  role = parse_role r.role;
  disposition = map_option parse_disposition r.disposition;
  harness = parse_harness r.harness;
  parent_id = r.parent_id;
  pid = r.pid;
  workspace = lease_of r.workspace_lease_id r.workspace_path;
  task_path = r.task_path;
  status = parse_status r.status;
  restart_count = r.restart_count;
  spawn_gen = r.spawn_gen;
  last_state_change_seq = r.last_state_change_seq;
  created_at = r.created_at;
  updated_at = r.updated_at;
  attention = attention_of r;
}

unfoldable pub row_of : AgentRecord → AgentRow
row_of a = record {
  id = a.id;
  role = role_text a.role;
  disposition = map_option disposition_text a.disposition;
  harness = harness_text a.harness;
  parent_id = a.parent_id;
  pid = a.pid;
  workspace_lease_id = map_option (λ (w : WorkspaceLease). w.lease_id) a.workspace;
  workspace_path = map_option (λ (w : WorkspaceLease). w.path) a.workspace;
  task_path = a.task_path;
  status = status_text a.status;
  restart_count = a.restart_count;
  spawn_gen = a.spawn_gen;
  last_state_change_seq = a.last_state_change_seq;
  requires_attention = if a.attention.requires_attention then 1 else 0;
  attention_reason = map_option reason_text a.attention.reason;
  attention_timestamp = a.attention.timestamp;
  created_at = a.created_at;
  updated_at = a.updated_at;
  owner_started_at = none;
}

abbrev Done : Type 0
Done = Store × Result StoreError (Unit {0})

-- UPDATE agents SET … WHERE id = ?1 AND …, and the number of rows it changed.
abbrev pub update_agents : String → (AgentRow → Bool) → (AgentRow → AgentRow) → Store → Store
update_agents id g f s = record s { agents = update_rows agent_id id g f s.agents }

abbrev changed_agents : String → (AgentRow → Bool) → Store → ℕ
changed_agents id g s = changed_rows agent_id id g s.agents

abbrev any_row : AgentRow → Bool
any_row r = true

-- The error of an UPDATE that changed no row.
abbrev refused : AgentStatus → AgentStatus → Result StoreError (Unit {0})
refused from to = err (StoreError.transition (invalid_transition from to))

unfoldable pub insert_agent : AgentRecord → Store → Done
insert_agent a s = elim (insert_row agent_id (row_of a) s.agents) [
  | none ↦ (s, err (StoreError.sqlite constraint))
  | some t ↦ (record s { agents = t }, ok tt)
]

unfoldable pub get_agent : String → Store → Option AgentRecord
get_agent id s = map_option record_of (find_row agent_id id s.agents)

unfoldable pub list_agents : Store → List AgentRecord
list_agents s = map record_of s.agents

abbrev with_status : AgentStatus → Clock → AgentRow → AgentRow
with_status to c r = record r { status = status_text to; updated_at = c.sql_now }

-- The optimistic lock on the status.
unfoldable pub transition : String → AgentStatus → AgentStatus → Clock → Store → Done
transition id from to c s =
    let holds = λ (r : AgentRow). r.status == status_text from in
    elim (check_transition from to) [
      | err e ↦ (s, err (StoreError.transition e))
      | ok _ ↦ (
        update_agents id holds (with_status to c) s,
        if nat_eq (changed_agents id holds s) 0 then refused from to else ok tt,
      )
    ]

unfoldable pub update_status : String → AgentStatus → Clock → Store → Done
update_status id status c s = (
  update_agents id any_row (with_status status c) s,
  if nat_eq (changed_agents id any_row s) 0 then refused AgentStatus.created status else ok tt,
)

unfoldable pub attach_pid : String → ℕ → Clock → Store → Store
attach_pid id pid c =
    update_agents id any_row (λ r. record r { pid = some pid; updated_at = c.sql_now })

unfoldable pub attach_pid_with_timestamp : String → ℕ → ℕ → Clock → Store → Store
attach_pid_with_timestamp id pid start_time c =
    update_agents id any_row
      (λ r. record r { pid = some pid; owner_started_at = some start_time; updated_at = c.sql_now })

-- What the operating system says of a process: its start time, and whether `kill(pid, 0)` succeeds.
pub record Processes : Type 0 where
  pub start_time : ℕ → Option ℕ
  pub is_pid_alive : ℕ → Bool

alive_since : Processes → ℕ → Option ℕ → Bool
alive_since os pid (some stored) = elim (os.start_time pid) [
  | some actual ↦ nat_eq actual stored
  | none ↦ false
]
alive_since os pid none = os.is_pid_alive pid

unfoldable pub is_agent_alive : Processes → String → Store → Bool
unfolding alive_since
is_agent_alive os id s = elim (find_row agent_id id s.agents) [
  | none ↦ false
  | some r ↦ elim r.pid [ none ↦ false | some pid ↦ alive_since os pid r.owner_started_at ]
]

unfoldable pub clear_workspace : String → Store → Store
clear_workspace id =
    update_agents id any_row (λ r. record r { workspace_lease_id = none; workspace_path = none })

unfoldable pub set_attention : String → AttentionReason → Clock → Store → Store
set_attention id reason c = update_agents id any_row (λ r. record r {
  requires_attention = 1;
  attention_reason = some (reason_text reason);
  attention_timestamp = some c.now;
  updated_at = c.sql_now;
})

unfoldable pub clear_attention : String → Clock → Store → Store
clear_attention id c = update_agents id any_row (λ r. record r {
  requires_attention = 0;
  attention_reason = none;
  attention_timestamp = none;
  updated_at = c.sql_now;
})

unfoldable pub set_workspace : String → String → String → Clock → Store → Store
set_workspace id lease_id path c = update_agents id any_row (λ r. record r {
  workspace_lease_id = some lease_id;
  workspace_path = some path;
  updated_at = c.sql_now;
})

-- The sum is SQLite's, on 64 bits; the column is read back as a `u32`.
unfoldable pub inc_restart : String → Clock → Store → Store
inc_restart id c =
    update_agents id any_row
      (λ r. record r { restart_count = r.restart_count + 1; updated_at = c.sql_now })

unfoldable pub begin_recovery : String → Clock → Store → Done
begin_recovery id c s =
    let holds = λ (r : AgentRow). r.status == "Crashed" in
    (
      update_agents id holds (λ r. record r { status = "Recovering"; updated_at = c.sql_now }) s,
      if nat_eq (changed_agents id holds s) 0
          then refused AgentStatus.crashed AgentStatus.recovering
          else ok tt,
    )

unfoldable pub set_running : String → ℕ → Clock → Store → Done
set_running id pid c s = (
  update_agents id any_row
      (λ r. record r { status = "Running"; pid = some pid; updated_at = c.sql_now }) s,
  if nat_eq (changed_agents id any_row s) 0
      then refused AgentStatus.recovering AgentStatus.running
      else ok tt,
)

abbrev pub is_live_text : AgentRow → Bool
is_live_text r = r.status == "Running" || (r.status == "Blocked" || r.status == "Starting")

-- `self.append_event(…)?; Ok(())`.
finish_exit : String → Bool → Clock → Store → Done
finish_exit id exit_ok c s =
    let (s', r) =
      append_event id (if exit_ok then agent_completed else agent_crashed) (obj end) c s in
    (s', elim r [ ok _ ↦ ok tt | err e ↦ err e ])

-- An agent that is no longer live is left alone.
unfoldable pub mark_exit : String → Bool → Clock → Store → Done
unfolding finish_exit
mark_exit id exit_ok c s = elim (get_agent id s) [
  | none ↦ (s, refused AgentStatus.created AgentStatus.completed)
  | some _ ↦
      let to = if exit_ok then AgentStatus.completed else AgentStatus.crashed in
      let s' = update_agents id is_live_text (with_status to c) s in
      if nat_eq (changed_agents id is_live_text s) 0
      then (s', ok tt)
      else finish_exit id exit_ok c s'
]
