-- ===== src/Core/Stream.antt =====
-- The events of a provider's session (crates/anti-core/src/events.rs). The cost of a turn, an `f64`, is
-- left out.
use anti_subagent.Prelude.{ℕ, String, Bool, Option}
use anti_subagent.Core.Events.{Json}

-- `ProviderKind` of crates/anti-core/src/provider.rs.
pub data ProviderKind : Type 0 where
  claude codex open_code : ProviderKind

pub data ToolStatus : Type 0 where
  running completed failed canceled : ToolStatus

pub record Usage : Type 0 where
  pub input_tokens : Option ℕ
  pub output_tokens : Option ℕ
  pub cached_input_tokens : Option ℕ

pub record PermissionRequest : Type 0 where
  pub id : String
  pub tool_name : String
  pub input : Json

pub data SubagentStatus : Type 0 where
  completed failed canceled : SubagentStatus

pub data CompactionStatus : Type 0 where
  started completed failed : CompactionStatus

pub data AgentEvent : Type 0 where
  assistant_delta : String → String → AgentEvent
  assistant_message : String → String → AgentEvent
  system_message : String → AgentEvent
  tool_call_start : String → String → Json → AgentEvent
  tool_call_update : String → ToolStatus → Option Json → AgentEvent
  tool_call_complete : String → Option String → AgentEvent
  tool_call_failed : String → String → AgentEvent
  turn_started : Option String → AgentEvent
  turn_completed : Option Usage → AgentEvent
  turn_failed : String → AgentEvent
  turn_canceled : String → AgentEvent
  subagent_started : String → Option String → AgentEvent
  subagent_progress : String → AgentEvent → AgentEvent
  subagent_completed : String → SubagentStatus → AgentEvent
  guard_violation : String → Option String → AgentEvent
  permission_requested : PermissionRequest → AgentEvent
  permission_resolved : String → Bool → AgentEvent
  usage_updated : Usage → AgentEvent
  compaction : CompactionStatus → AgentEvent
  error : String → AgentEvent
