-- ===== src/Store/Db.antt =====
-- The tables of the store and its errors (crates/anti-daemon/src/store.rs). A statement fails only
-- where SQLite refuses it for a key that is taken.
use anti_subagent.Prelude.{ℕ, String, Option, List, []}
use anti_subagent.Core.Status.{TransitionError}
use anti_subagent.Core.Work.{WorkTransitionError}
use anti_subagent.Core.Dispatch.{DispatchStatus}
use anti_subagent.Core.Events.{Event}

pub record AgentRow : Type 0 where
  pub id : String
  pub role : String
  pub disposition : Option String
  pub harness : String
  pub parent_id : Option String
  pub pid : Option ℕ
  pub workspace_lease_id : Option String
  pub workspace_path : Option String
  pub task_path : Option String
  pub status : String
  pub restart_count : ℕ
  pub spawn_gen : ℕ
  pub last_state_change_seq : ℕ
  pub requires_attention : ℕ
  pub attention_reason : Option String
  pub attention_timestamp : Option String
  pub created_at : String
  pub updated_at : String
  pub owner_started_at : Option ℕ

pub record WorkRow : Type 0 where
  pub id : String
  pub task_node_id : String
  pub peer_id : String
  pub lead_id : String
  pub state : String
  pub revision : ℕ
  pub max_revisions : ℕ
  pub evidence_sha256 : Option String
  pub evidence_path : Option String
  pub evidence_at : Option String
  pub review_verdict : Option String
  pub submitted_at : Option String
  pub review_deadline : Option String
  pub created_at : String
  pub updated_at : String

pub record DispatchRow : Type 0 where
  pub id : String
  pub task_id : String
  pub peer_id : String
  pub status : String
  pub outcome : Option String
  pub created_at : String
  pub updated_at : String

-- `event_file` is events.jsonl, its lines in order.
pub record Store : Type 0 where
  pub agents : List AgentRow
  pub events : List Event
  pub work_items : List WorkRow
  pub dispatch_events : List DispatchRow
  pub event_seq : ℕ
  pub event_file : List Event

abbrev pub empty : Store
empty = record {
  agents = [];
  events = [];
  work_items = [];
  dispatch_events = [];
  event_seq = 0;
  event_file = [];
}

pub data SqliteError : Type 0 where
  constraint : SqliteError
  -- The parameters of the message that `InvalidParameterName` carries.
  not_allowed : DispatchStatus → DispatchStatus → SqliteError
  mismatch : String → SqliteError
  not_found : String → SqliteError

pub data StoreError : Type 0 where
  sqlite : SqliteError → StoreError
  transition : TransitionError → StoreError
  work_transition : WorkTransitionError → StoreError
