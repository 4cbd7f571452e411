-- ===== src/Core/Tracker.antt =====
-- The tracker of a provider's own subagents (crates/anti-core/src/subagent_tracker.rs). The map of the
-- active ones is a table keyed by their id.
pub mod Laws
pub mod Guard
use Prim.Native.String
use anti_subagent.Prelude.{
  ℕ, String, Bool, true, false, ◌||◌, Option, none, some, List, [], ◌∷◌, ◌++◌, map, ◌==◌, any,
  retain, length, starts_with, if◌then◌else◌,
}
use anti_subagent.Prelude.Text.{codes, lower_code, is_alphanumeric, is_infix, contains}
use anti_subagent.Prelude.Table.{find_row, has_row, delete_row, replace_row}
use anti_subagent.Core.Stream.{
  ProviderKind, claude, codex, open_code, SubagentStatus, AgentEvent, tool_call_start,
  tool_call_complete, tool_call_failed, subagent_started, subagent_completed, guard_violation,
}

pub data TrackedStatus : Type 0 where
  running completed failed canceled : TrackedStatus

pub record SubagentState : Type 0 where
  pub id : String
  pub name : Option String
  pub sub_agent_type : Option String
  pub status : TrackedStatus
  pub timeline : List AgentEvent

abbrev pub subagent_id : SubagentState → String
subagent_id s = s.id

abbrev deny_stems : List String
deny_stems =
    "agent" ∷ "subagent" ∷ "task" ∷ "workflow" ∷ "cron" ∷ "schedul" ∷ "worktree" ∷ "delegate"
    ∷ "spawn" ∷ "dispatch" ∷ "handoff" ∷ "remote" ∷ "sendmessage" ∷ "monitor" ∷ []

-- The name without what is no ASCII letter or digit, in lower case.
abbrev normalized : String → List ℕ
normalized tool_name = map lower_code (retain is_alphanumeric (codes tool_name))

unfoldable pub is_delegation_shaped : String → Bool
is_delegation_shaped tool_name =
    if starts_with tool_name "mcp__"
    then false
    else any (λ stem. is_infix (codes stem) (normalized tool_name)) deny_stems

abbrev pub Tracker : Type 0
Tracker = List SubagentState

abbrev pub Step : Type 0
Step = Tracker × List AgentEvent

abbrev new_state : String → String → SubagentState
new_state call_id type_ = record {
  id = call_id;
  name = none;
  sub_agent_type = some type_;
  status = running;
  timeline = [];
}

-- A call starts a subagent.
abbrev track : String → String → String → Tracker → Step
track call_id type_ label t = (
  replace_row subagent_id (new_state call_id type_) t,
  subagent_started call_id (some (String.◌++◌ label (String.◌++◌ " subagent " call_id))) ∷ [],
)

-- A call ends its subagent, if it is one.
abbrev finish : String → SubagentStatus → Tracker → Step
finish call_id status t =
    if has_row subagent_id call_id t
    then (delete_row subagent_id call_id t, subagent_completed call_id status ∷ [])
    else (t, [])

on_claude : AgentEvent → Tracker → Step
on_claude (tool_call_start call_id tool_name input) t =
    if tool_name == "Task" || tool_name == "Agent" then track call_id "task" "Claude" t else (t, [])
on_claude (tool_call_complete call_id output) t = finish call_id SubagentStatus.completed t
on_claude (tool_call_failed call_id e) t = finish call_id SubagentStatus.failed t
on_claude _ t = (t, [])

on_codex : AgentEvent → Tracker → Step
on_codex (tool_call_start call_id tool_name input) t =
    if contains tool_name "subAgent" || contains tool_name "collabAgent"
    then track call_id "subagent" "Codex" t
    else (t, [])
on_codex (tool_call_complete call_id output) t = finish call_id SubagentStatus.completed t
on_codex _ t = (t, [])

on_open_code : AgentEvent → Tracker → Step
on_open_code (tool_call_start call_id tool_name input) t =
    if tool_name == "task" || tool_name == "subtask"
    then track call_id "task" "OpenCode" t
    else (t, [])
on_open_code (tool_call_complete call_id output) t = finish call_id SubagentStatus.completed t
on_open_code _ t = (t, [])

on_provider : ProviderKind → AgentEvent → Tracker → Step
unfolding on_claude on_codex on_open_code
on_provider claude e t = on_claude e t
on_provider codex e t = on_codex e t
on_provider open_code e t = on_open_code e t

guard_events : AgentEvent → List AgentEvent
guard_events (tool_call_start call_id tool_name input) =
    if is_delegation_shaped tool_name then guard_violation tool_name (some call_id) ∷ [] else []
guard_events _ = []

unfoldable pub handle_event : ProviderKind → AgentEvent → Tracker → Step
unfolding on_provider guard_events
handle_event provider e t =
    let (t', events) = on_provider provider e t in (t', guard_events e ++ events)

unfoldable pub active_count : Tracker → ℕ
active_count t = length t

unfoldable pub remove : String → Tracker → Tracker × Option SubagentState
remove id t = (delete_row subagent_id id t, find_row subagent_id id t)
