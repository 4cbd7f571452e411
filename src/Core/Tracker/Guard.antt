-- ===== src/Core/Tracker/Guard.antt =====
-- Which calls of a session are reported as violations.
use anti_subagent.Prelude.{
  ℕ, ◌+◌, String, Bool, true, false, ◌&&◌, ◌≡◌, refl, List, [], ◌∷◌, ◌++◌, arith, any, retain, map,
  not, some, starts_with, leb, ◌||◌, if◌then◌else◌,
}
use anti_subagent.Prelude.Text.{codes, lower_code, is_alphanumeric, is_infix}
use anti_subagent.Core.Stream.{
  ProviderKind, claude, codex, open_code, AgentEvent, tool_call_start, tool_call_complete,
  tool_call_failed, guard_violation,
}
use anti_subagent.Core.Tracker.{
  Tracker, is_delegation_shaped, on_provider, on_claude, on_codex, on_open_code, guard_events,
  handle_event,
}

abbrev pub is_violation : AgentEvent → Bool
is_violation (guard_violation tool_name call_id) = true
is_violation _ = false

-- The letters and digits of a text, capitals as small letters.
unfoldable pub plain : List ℕ → List ℕ
plain [] = []
plain (c ∷ cs) =
    let rest = plain cs in
    if (leb b'a' c && leb c b'z') || (leb b'0' c && leb c b'9')
    then c ∷ rest
    else if leb b'A' c && leb c b'Z'
    then (c + 32) ∷ rest
    else rest

-- The words that a tool for delegation has in its name.
abbrev pub delegation_words : List String
delegation_words =
    "agent" ∷ "subagent" ∷ "task" ∷ "workflow" ∷ "cron" ∷ "schedul" ∷ "worktree" ∷ "delegate"
    ∷ "spawn" ∷ "dispatch" ∷ "handoff" ∷ "remote" ∷ "sendmessage" ∷ "monitor" ∷ []

-- A tool with such a word in its letters and digits, but no tool of an MCP server.
abbrev pub delegates : String → Bool
delegates name =
    not (starts_with name "mcp__")
    && any (λ word. is_infix (codes word) (plain (codes name))) delegation_words

plain_codes : (cs : List ℕ) → map lower_code (retain is_alphanumeric cs) ≡ plain cs
unfolding plain
plain_codes [] = refl
plain_codes (c ∷ cs) = ground (arith, plain_codes cs)

delegates-is_delegation_shaped : (name : String) → is_delegation_shaped name ≡ delegates name
unfolding is_delegation_shaped
delegates-is_delegation_shaped name = rw (← plain_codes (codes name)) (ground arith)

-- The violations that an event is due.
unfoldable pub due : AgentEvent → List AgentEvent
due (tool_call_start call_id tool_name input) =
    if delegates tool_name then guard_violation tool_name (some call_id) ∷ [] else []
due _ = []

guard-due : (e : AgentEvent) → guard_events e ≡ due e
unfolding guard_events due
guard-due (tool_call_start call_id tool_name input) =
    rw (delegates-is_delegation_shaped tool_name) refl
guard-due _ = refl

provider_quiet :
    (p : ProviderKind) (e : AgentEvent) (t : Tracker)
    → retain is_violation (on_provider p e t).1 ≡ []
unfolding on_provider on_claude on_codex on_open_code
provider_quiet claude (tool_call_start call_id tool_name input) t = ground arith
provider_quiet codex (tool_call_start call_id tool_name input) t = ground arith
provider_quiet open_code (tool_call_start call_id tool_name input) t = ground arith
provider_quiet claude (tool_call_complete call_id output) t = ground arith
provider_quiet claude (tool_call_failed call_id error) t = ground arith
provider_quiet codex (tool_call_complete call_id output) t = ground arith
provider_quiet open_code (tool_call_complete call_id output) t = ground arith
provider_quiet claude _ t = refl
provider_quiet codex _ t = refl
provider_quiet open_code _ t = refl

retain-due :
    (e : AgentEvent) (more : List AgentEvent)
    → retain is_violation more ≡ []
    → retain is_violation (due e ++ more) ≡ due e
unfolding due
retain-due (tool_call_start call_id tool_name input) more h = ground (arith, h)
retain-due _ more h = h

-- For every provider, the start of a call of a tool with one of fourteen words in its letters and digits, whatever the
-- case, is reported as one guard violation with the tool and the call's id, unless the tool's name begins with mcp__. No other
-- event is reported as a violation.
pub violations_reported :
    (p : ProviderKind) (e : AgentEvent) (t : Tracker)
    → retain is_violation (handle_event p e t).1 ≡ due e
unfolding handle_event
violations_reported p e t =
    rw (guard-due e) (retain-due e (on_provider p e t).1 (provider_quiet p e t))
