-- ===== src/Store/Agents/Exit.antt =====
-- What the exit of a process does to its agent.
use anti_subagent.Prelude.{
  String, Bool, true, false, ◌&&◌, ◌||◌, ◌≡◌, refl, Option, none, some, arith, map_option, Clock,
  ◌==◌, eq_iff, Option-cases, inl, inr, ◌⊎◌, ◌∙◌, if◌then◌else◌,
}
use anti_subagent.Prelude.Table.{find_row, find-update, changed-find, All-find}
use anti_subagent.Core.Model.{
  AgentStatus, running, blocked, starting, completed, crashed, AgentRecord,
}
use anti_subagent.Core.Events.{EventType, Json, obj, end, agent_completed, agent_crashed}
use anti_subagent.Store.Codec.{status_text, parse_status}
use anti_subagent.Store.Codec.RoundTrips.{parse-status}
use anti_subagent.Store.Db.{AgentRow, Store}
use anti_subagent.Store.Events.{append_event}
use anti_subagent.Store.Agents.{
  agent_id, is_live_text, update_agents, record_of, get_agent, with_status, mark_exit, finish_exit,
  alive_since, is_agent_alive, Processes,
}
use anti_subagent.Store.Agents.Laws.{IsRegistry, moved, record-status, update-IsRegistry}

-- The statuses whose process may still run.
abbrev pub is_live : AgentStatus → Bool
is_live running = true
is_live blocked = true
is_live starting = true
is_live _ = false

live_status :
    (a : AgentStatus)
    → (status_text a == "Running" || (status_text a == "Blocked" || status_text a == "Starting"))
      ≡ is_live a
unfolding status_text
live_status running = refl
live_status _ = refl

live_text :
    (r : AgentRow)
    → status_text (parse_status r.status) ≡ r.status
    → is_live_text r ≡ is_live (record_of r).status
unfolding record_of
live_text r h = rw (← h, parse-status, live_status)

-- The status that a process leaves behind.
abbrev pub exit_status : Bool → AgentStatus
exit_status exit_ok = if exit_ok then completed else crashed

get_find_none :
    (id : String) (s : Store) → find_row agent_id id s.agents ≡ none → get_agent id s ≡ none
unfolding get_agent
get_find_none id s e = rw e

get_find :
    (id : String) (s : Store) (r : AgentRow)
    → find_row agent_id id s.agents ≡ some r
    → get_agent id s ≡ some (record_of r)
unfolding get_agent
get_find id s r e = rw e

mark_exit_absent :
    (id j : String) (exit_ok : Bool) (c : Clock) (s : Store)
    → find_row agent_id id s.agents ≡ none
    → (mark_exit id exit_ok c s).0 ≡ s
unfolding mark_exit get_agent
mark_exit_absent id j exit_ok c s e = ground arith

pub events-agents :
    (id : String) (t : EventType) (p : Json) (c : Clock) (s : Store)
    → ((append_event id t p c s).0.agents ≡ s.agents)
      × ((append_event id t p c s).0.work_items ≡ s.work_items)
unfolding append_event
events-agents id t p c s = ground arith

mark_exit_found :
    (id j : String) (exit_ok : Bool) (c : Clock) (s : Store) (r : AgentRow)
    → IsRegistry s
    → find_row agent_id id s.agents ≡ some r
    → get_agent j (mark_exit id exit_ok c s).0 ≡ (
        if is_live (record_of r).status && id == j
        then some (moved (exit_status exit_ok) c (record_of r))
        else get_agent j s)
unfolding mark_exit get_agent
mark_exit_found id j exit_ok c s r h e = ground (
  arith,
  changed-find agent_id id is_live_text s.agents h.keyed,
  find-update agent_id id j is_live_text (with_status (exit_status exit_ok) c) s.agents (λ r. refl),
  eq_iff id j,
  live_text r (
      All-find agent_id (λ (r : AgentRow). status_text (parse_status r.status) ≡ r.status) id
        s.agents h.typed e),
  record-status r (exit_status exit_ok) c,
  events-agents id (if exit_ok then agent_completed else agent_crashed) (obj end) c
      (update_agents id is_live_text (with_status (exit_status exit_ok) c) s),
)

abbrev pub live_agent : Option AgentRecord → Bool
live_agent none = false
live_agent (some a) = is_live a.status

-- When the process of an agent exits, an agent that was Running, Blocked or Starting becomes Completed
-- or Crashed by the exit; every other agent, and one in any other status, is found as before.
-- It is assumed that no two agents of the table share an id and that each has the text of a status.
pub get-mark_exit :
    (id j : String) (exit_ok : Bool) (c : Clock) (s : Store)
    → IsRegistry s
    → get_agent j (mark_exit id exit_ok c s).0 ≡ (
        if live_agent (get_agent id s) && id == j
        then map_option (moved (exit_status exit_ok) c) (get_agent j s)
        else get_agent j s)
get-mark_exit id j exit_ok c s h = elim (Option-cases (find_row agent_id id s.agents)) [
  | inl e ↦ rw (mark_exit_absent id j exit_ok c s e) (ground (arith, get_find_none id s e))
  | inr (r, e) ↦
      ground (arith, mark_exit_found id j exit_ok c s r h e, get_find id s r e, eq_iff id j)
]

mark_exit_agents :
    (id : String) (exit_ok : Bool) (c : Clock) (s : Store)
    → ((mark_exit id exit_ok c s).0.agents ≡ s.agents)
      ⊎ ((mark_exit id exit_ok c s).0.agents
          ≡ (update_agents id is_live_text (with_status (exit_status exit_ok) c) s).agents)
unfolding mark_exit finish_exit
mark_exit_agents id exit_ok c s = ground (
  arith,
  events-agents id (if exit_ok then agent_completed else agent_crashed) (obj end) c
      (update_agents id is_live_text (with_status (exit_status exit_ok) c) s),
)

pub mark_exit-IsRegistry :
    (id : String) (exit_ok : Bool) (c : Clock) (s : Store)
    → IsRegistry s
    → IsRegistry (mark_exit id exit_ok c s).0
mark_exit-IsRegistry id exit_ok c s h =
    let k = update-IsRegistry id is_live_text (exit_status exit_ok) c s h in
    elim (mark_exit_agents id exit_ok c s) [
      | inl e ↦ record { keyed = rw e h.keyed; typed = rw e h.typed }
      | inr e ↦ record { keyed = rw e k.keyed; typed = rw e k.typed }
    ]

-- Whether a process is alive depends on the table of agents alone.
pub alive-agents :
    (os : Processes) (j : String) (s t : Store)
    → s.agents ≡ t.agents
    → is_agent_alive os j s ≡ is_agent_alive os j t
unfolding is_agent_alive
alive-agents os j s t e = rw e

alive-update :
    (os : Processes) (id j : String) (exit_ok : Bool) (c : Clock) (s : Store)
    → is_agent_alive os j (update_agents id is_live_text (with_status (exit_status exit_ok) c) s)
      ≡ is_agent_alive os j s
unfolding is_agent_alive alive_since
alive-update os id j exit_ok c s = ground (
  arith,
  find-update agent_id id j is_live_text (with_status (exit_status exit_ok) c) s.agents (λ r. refl),
)

-- An exit leaves what is known of a process.
pub alive-mark_exit :
    (os : Processes) (id j : String) (exit_ok : Bool) (c : Clock) (s : Store)
    → is_agent_alive os j (mark_exit id exit_ok c s).0 ≡ is_agent_alive os j s
alive-mark_exit os id j exit_ok c s =
    let t = update_agents id is_live_text (with_status (exit_status exit_ok) c) s in
    elim (mark_exit_agents id exit_ok c s) [
      | inl e ↦ alive-agents os j (mark_exit id exit_ok c s).0 s e
      | inr e ↦
          alive-agents os j (mark_exit id exit_ok c s).0 t e ∙ alive-update os id j exit_ok c s
    ]
