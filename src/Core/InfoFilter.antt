-- ===== src/Core/InfoFilter.antt =====
-- What an agent is shown of the hierarchy above it (crates/anti-core/src/info_filter.rs). An absolute path
-- is the list of its components, and the hash of a path an argument.
pub mod Leaks
use Prim.Native.String.{◌++◌}
use anti_subagent.Prelude.{
  ℕ, String, Bool, true, false, ◌||◌, not, Option, none, some, List, [], ◌∷◌, if◌then◌else◌,
}
use anti_subagent.Prelude.Text.{contains}
use anti_subagent.Core.Model.{Role, Disposition}
use anti_subagent.Core.Events.{Json}
use anti_subagent.Core.Stream.{ProviderKind}
use anti_subagent.Core.Agent.{AgentConfig, McpServerConfig, PersistenceHandle}

-- The control plane's view.
pub record InternalAgentState : Type 0 where
  pub agent_id : String
  pub parent_id : Option String
  pub supervisor_id : Option String
  pub role : Role
  pub disposition : Option Disposition
  pub governance_state : Option String
  pub handoff_context : Option String
  pub spawn_reason : Option String

pub record AgentContext : Type 0 where
  pub task : String
  pub workspace : List String
  pub peer_prompt : Option String
  pub model : Option String
  pub thinking_level : Option String

pub record SessionConfig : Type 0 where
  pub cwd : List String
  pub task : String
  pub system_prompt : Option String
  pub model : Option String
  pub mcp_servers : List McpServerConfig
  pub permission_mode : Option String
  pub persist : Bool

-- `to_string_lossy`.
unfoldable pub path_text : List String → String
path_text [] = ""
path_text (c ∷ cs) = "/" ++ c ++ path_text cs

unfoldable pub has_hierarchy_keywords : String → Bool
has_hierarchy_keywords t =
    contains t "lead"
    || contains t "peer"
    || contains t "supervisor"
    || contains t "engineer"
    || contains t "reviewer"
    || contains t "architect"
    || contains t "scout"

-- `parent.join(name)`; the root has no parent.
unfoldable pub renamed : String → List String → List String
renamed name [] = "worktrees" ∷ name ∷ []
renamed name (c ∷ []) = name ∷ []
renamed name (c ∷ d ∷ cs) = c ∷ renamed name (d ∷ cs)

unfoldable pub sanitize_workspace_path : (List String → String) → List String → List String
sanitize_workspace_path hash raw =
    if not (has_hierarchy_keywords (path_text raw)) then raw else renamed ("w-" ++ hash raw) raw

unfoldable pub build_session_config : AgentContext → AgentConfig → SessionConfig
build_session_config context config = record {
  cwd = context.workspace;
  task = context.task;
  system_prompt = context.peer_prompt;
  model = context.model;
  mcp_servers = config.mcp_servers;
  permission_mode = config.permission_mode;
  persist = true;
}

unfoldable pub build_persistence_handle : ProviderKind → String → Option Json → PersistenceHandle
build_persistence_handle provider session_id native_handle = record {
  provider = provider;
  session_id = session_id;
  native_handle = native_handle;
  metadata = none;
}

unfoldable pub build_agent_context :
    (List String → String) → String → List String → Option String → Option String → AgentContext
build_agent_context hash task workspace peer_prompt model = record {
  task = task;
  workspace = sanitize_workspace_path hash workspace;
  peer_prompt = peer_prompt;
  model = model;
  thinking_level = none;
}
