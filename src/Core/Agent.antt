-- ===== src/Core/Agent.antt =====
-- The agent of the control plane, apart from its process (crates/anti-core/src/agent.rs), with what it
-- holds of its provider (crates/anti-core/src/provider.rs). Ids are texts; `AgentId::new` draws one,
-- which is an argument.
use anti_subagent.Prelude.{
  ℕ, String, Bool, Option, none, some, List, [], Result, ok, err, Clock, ◌==◌, if◌then◌else◌,
}
use anti_subagent.Core.Model.{
  Role, Disposition, AgentStatus, created, replaced, is_terminal as status_is_terminal,
}
use anti_subagent.Core.Status.{can_transition_to}
use anti_subagent.Core.Stream.{ProviderKind}
use anti_subagent.Core.Events.{Json, str, obj, Fields, end, field}

pub record PersistenceHandle : Type 0 where
  pub provider : ProviderKind
  pub session_id : String
  pub native_handle : Option Json
  pub metadata : Option Json

pub data McpTransport : Type 0 where
  stdio : String → List String → McpTransport
  sse : String → McpTransport

pub record McpServerConfig : Type 0 where
  pub name : String
  pub transport : McpTransport

pub record AgentConfig : Type 0 where
  pub model : Option String
  pub thinking_level : Option String
  pub system_prompt : Option String
  pub permission_mode : Option String
  pub mcp_servers : List McpServerConfig

abbrev pub default_config : AgentConfig
default_config = record {
  model = none;
  thinking_level = none;
  system_prompt = none;
  permission_mode = some "acceptEdits";
  mcp_servers = [];
}

pub record AgentRecord : Type 0 where
  pub agent_id : String
  pub parent_id : Option String
  pub role : Role
  pub disposition : Option Disposition
  pub provider : ProviderKind
  pub workspace_id : String
  pub status : AgentStatus
  pub persistence_handle : Option PersistenceHandle
  pub config : AgentConfig
  pub pid : Option ℕ
  pub created_at : String
  pub last_activity_at : String
  pub archived_at : Option String
  pub restart_count : ℕ

unfoldable pub new : String → Role → ProviderKind → String → AgentConfig → Clock → AgentRecord
new id role provider workspace_id config c = record {
  agent_id = id;
  parent_id = none;
  role = role;
  disposition = none;
  provider = provider;
  workspace_id = workspace_id;
  status = created;
  persistence_handle = none;
  config = config;
  pid = none;
  created_at = c.now;
  last_activity_at = c.now;
  archived_at = none;
  restart_count = 0;
}

pub data StatusError : Type 0 where
  invalid_transition : AgentStatus → AgentStatus → StatusError

unfoldable pub transition : AgentStatus → Clock → AgentRecord → Result StatusError AgentRecord
transition to c r =
    if can_transition_to r.status to
    then ok (record r { status = to; last_activity_at = c.now })
    else err (invalid_transition r.status to)

unfoldable pub archive : Clock → AgentRecord → AgentRecord
archive c r = record r { status = replaced; archived_at = some c.now; last_activity_at = c.now }

unfoldable pub is_terminal : AgentRecord → Bool
is_terminal r = status_is_terminal r.status

-- `Value::get` on an object, and `Value::as_str`.
member : String → Fields → Option Json
member k end = none
member k (field n v rest) = if n == k then some v else member k rest

text_member : String → Json → Option String
unfolding member
text_member k (obj fields) = elim (member k fields) [ some (str t) ↦ some t | other ↦ none ]
text_member k other = none

unfoldable pub cwd : AgentRecord → Option String
unfolding text_member
cwd r = elim r.persistence_handle [
  | none ↦ none
  | some h ↦ elim h.metadata [ none ↦ none | some m ↦ text_member "cwd" m ]
]

pub record SpawnRequest : Type 0 where
  pub role : Role
  pub disposition : Option Disposition
  pub provider : ProviderKind
  pub workspace_id : String
  pub config : AgentConfig
  pub parent_id : Option String
