-- ===== src/Core/Tracker/Laws.antt =====
-- What the tracker reports of the subagents of a session.
use anti_subagent.Prelude.{
  ℕ, suc, ◌+◌, ◌≤◌, String, Bool, true, false, ◌&&◌, ◌≡◌, refl, List, [], ◌∷◌, ◌++◌, arith, ◌==◌,
  eq_iff, if◌then◌else◌,
}
use anti_subagent.Prelude.Table.{has_row, has-row-delete_any, has-row-replace}
use anti_subagent.Core.Stream.{
  ProviderKind, claude, codex, open_code, SubagentStatus, AgentEvent, tool_call_start,
  tool_call_complete, tool_call_failed, subagent_started, subagent_completed,
}
use anti_subagent.Core.Tracker.{
  new_state, subagent_id, Tracker, track, finish, on_provider, on_claude, on_codex, on_open_code,
  guard_events, handle_event,
}

abbrev pub is_claude : ProviderKind → Bool
is_claude claude = true
is_claude _ = false

-- The events of a session in turn, and what the tracker reports of them.
unfoldable pub feed : ProviderKind → List AgentEvent → Tracker → Tracker × List AgentEvent
feed p [] t = (t, [])
feed p (e ∷ es) t =
    let (t₁, out) = handle_event p e t in let (t₂, rest) = feed p es t₁ in (t₂, out ++ rest)

abbrev is_start : String → AgentEvent → Bool
is_start id (subagent_started i title) = i == id
is_start id _ = false

abbrev is_end : String → AgentEvent → Bool
is_end id (subagent_completed i status) = i == id
is_end id _ = false

abbrev count : (AgentEvent → Bool) → List AgentEvent → ℕ
count p [] = 0
count p (e ∷ es) = let rest = count p es in if p e then suc rest else rest

-- How often a subagent is reported as started, and as completed.
abbrev pub starts : String → List AgentEvent → ℕ
starts id es = count (is_start id) es

abbrev pub ends : String → List AgentEvent → ℕ
ends id es = count (is_end id) es

abbrev pub is_active : String → Tracker → ℕ
is_active id t = if has_row subagent_id id t then 1 else 0

count-append :
    (p : AgentEvent → Bool) (xs ys : List AgentEvent) → count p (xs ++ ys) ≡ count p xs + count p ys
count-append p [] ys = omega arith
count-append p (x ∷ xs) ys = ground (arith, count-append p xs ys)

track_counts :
    (id j type_ label : String) (t : Tracker)
    → (ends j (track id type_ label t).1 + is_active j (track id type_ label t).0
        ≤ starts j (track id type_ label t).1 + is_active j t)
track_counts id j type_ label t =
    ground (arith, has-row-replace subagent_id (new_state id type_) j t)

finish_counts :
    (id j : String) (status : SubagentStatus) (t : Tracker)
    → ends j (finish id status t).1 + is_active j (finish id status t).0
      ≤ starts j (finish id status t).1 + is_active j t
finish_counts id j status t = ground (arith, has-row-delete_any subagent_id id j t, eq_iff id j)

guard_counts :
    (j : String) (e : AgentEvent) → (ends j (guard_events e) ≡ 0) × (starts j (guard_events e) ≡ 0)
unfolding guard_events
guard_counts j (tool_call_start call_id tool_name input) = ground arith
guard_counts j _ = (refl, refl)

provider_counts :
    (p : ProviderKind) (e : AgentEvent) (j : String) (t : Tracker)
    → ends j (on_provider p e t).1 + is_active j (on_provider p e t).0
      ≤ starts j (on_provider p e t).1 + is_active j t
unfolding on_provider on_claude on_codex on_open_code
provider_counts claude (tool_call_start call_id tool_name input) j t =
    ground (arith, track_counts call_id j "task" "Claude" t)
provider_counts codex (tool_call_start call_id tool_name input) j t =
    ground (arith, track_counts call_id j "subagent" "Codex" t)
provider_counts open_code (tool_call_start call_id tool_name input) j t =
    ground (arith, track_counts call_id j "task" "OpenCode" t)
provider_counts claude (tool_call_complete call_id output) j t =
    finish_counts call_id j SubagentStatus.completed t
provider_counts codex (tool_call_complete call_id output) j t =
    finish_counts call_id j SubagentStatus.completed t
provider_counts open_code (tool_call_complete call_id output) j t =
    finish_counts call_id j SubagentStatus.completed t
provider_counts claude (tool_call_failed call_id error) j t =
    finish_counts call_id j SubagentStatus.failed t
provider_counts claude _ j t = omega arith
provider_counts codex _ j t = omega arith
provider_counts open_code _ j t = omega arith

event_counts :
    (p : ProviderKind) (e : AgentEvent) (j : String) (t : Tracker)
    → ends j (handle_event p e t).1 + is_active j (handle_event p e t).0
      ≤ starts j (handle_event p e t).1 + is_active j t
unfolding handle_event
event_counts p e j t =
    let out = (on_provider p e t).1 in
    ground (
      arith,
      guard_counts j e,
      provider_counts p e j t,
      count-append (is_end j) (guard_events e) out,
      count-append (is_start j) (guard_events e) out,
    )

feed_counts :
    (p : ProviderKind) (es : List AgentEvent) (j : String) (t : Tracker)
    → ends j (feed p es t).1 + is_active j (feed p es t).0
      ≤ starts j (feed p es t).1 + is_active j t
unfolding feed
feed_counts p [] j t = omega arith
feed_counts p (e ∷ es) j t =
    let out = (handle_event p e t).1 in
    let t' = (handle_event p e t).0 in
    ground (
      arith,
      event_counts p e j t,
      feed_counts p es j t',
      count-append (is_end j) out (feed p es t').1,
      count-append (is_start j) out (feed p es t').1,
    )

-- Over any events of a session, a subagent is reported as completed at most as often as it is reported
-- as started, and less often while it is active.
pub ends_need_starts :
    (p : ProviderKind) (es : List AgentEvent) (j : String)
    → ends j (feed p es []).1 + is_active j (feed p es []).0 ≤ starts j (feed p es []).1
ends_need_starts p es j = ground (arith, feed_counts p es j [])

-- A failed call ends the subagent of its id at Claude only: with Codex and OpenCode every subagent
-- that was active is still active.
pub active_after_failure :
    (p : ProviderKind) (id error j : String) (t : Tracker)
    → has_row subagent_id j (handle_event p (tool_call_failed id error) t).0
      ≡ (if is_claude p && id == j then false else has_row subagent_id j t)
unfolding handle_event on_provider on_claude on_codex on_open_code
active_after_failure claude id error j t =
    ground (arith, has-row-delete_any subagent_id id j t, eq_iff id j)
active_after_failure codex id error j t = ground arith
active_after_failure open_code id error j t = ground arith
