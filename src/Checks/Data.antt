-- ===== src/Checks/Data.antt =====
-- Records that the examples share.
use anti_subagent.Prelude.{String, true, none, some, [], ◌∷◌, pos, Clock}
use anti_subagent.Core.Model.{AgentStatus, peer, engineer, claude, no_attention, AgentRecord}
use anti_subagent.Core.Work.{WorkItemState, EvidenceRef, WorkItem}
use anti_subagent.Store.Db.{Store, empty}
use anti_subagent.Store.Works
use anti_subagent.Store.Agents
use anti_subagent.Daemon.Wire.{Output, Tools, Env}
use anti_subagent.Daemon.Reports.{ReportTask}

abbrev pub noon : Clock
noon = record { now = "noon"; later = λ n. "one"; sql_now = "12:00" }

abbrev pub programs : Tools
programs = record {
  cargo = λ cmd. Output.exited true (some (pos 0)) "" "";
  git = λ args. Output.exited true (some (pos 0)) "diff" "";
  sha256 = λ text. text;
}

abbrev pub at_noon : Env
at_noon = record { clock = noon; tools = programs }

abbrev pub proof_ref : EvidenceRef
proof_ref = record { sha256 = "ab"; artifact_path = "out"; produced_at = "noon" }

abbrev pub item : WorkItemState → WorkItem
item state = record {
  id = "w1";
  task_node_id = "";
  peer_id = "p1";
  lead_id = "";
  state = state;
  revision = 1;
  max_revisions = 3;
  evidence = some proof_ref;
  review_verdict = none;
  submitted_at = none;
  review_deadline = none;
  created_at = "dawn";
  updated_at = "dawn";
}

abbrev pub agent : AgentStatus → AgentRecord
agent status = record {
  id = "p1";
  role = peer;
  disposition = some engineer;
  harness = claude;
  parent_id = none;
  pid = some 7;
  workspace = some (record { lease_id = "l1"; path = "tree"; holder = ""; generation = 0 });
  task_path = none;
  status = status;
  restart_count = 0;
  spawn_gen = 1;
  last_state_change_seq = 0;
  created_at = "dawn";
  updated_at = "dawn";
  attention = no_attention;
}

-- A store with one agent and one item.
abbrev pub store_of : AgentStatus → WorkItemState → Store
store_of status state = record empty {
  agents = Agents.row_of (agent status) ∷ [];
  work_items = Works.row_of (item state) ∷ [];
}

abbrev pub report : String → ReportTask
report status = record {
  task_id = "w1";
  status = status;
  commit = some "c1";
  error = none;
  message = none;
}
