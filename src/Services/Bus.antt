-- ===== src/Services/Bus.antt =====
-- The bus that tells subscribers what becomes of an agent (crates/anti-daemon/src/event_bus.rs). A sender
-- is the queue of what was sent and not yet read; receivers are kept by their subscribers.
pub mod Delivery
use anti_subagent.Prelude.{
  ℤ, String, Bool, true, false, Option, none, some, List, [], ◌∷◌, ◌++◌, map, if◌then◌else◌,
}
use anti_subagent.Prelude.Table.{find_row, replace_row, update_rows}

pub data OrchestratorEvent : Type 0 where
  agent_spawned : (agent_id : String) → (parent_id : Option String) → OrchestratorEvent
  agent_completed : (agent_id : String) → (exit_code : Option ℤ) → OrchestratorEvent
  agent_failed : (agent_id : String) → (error : String) → OrchestratorEvent
  agent_archived : (agent_id : String) → OrchestratorEvent
  agent_thinking : (agent_id : String) → (content : String) → OrchestratorEvent
  agent_tool_call : (agent_id : String) → (tool status : String) → OrchestratorEvent
  agent_message : (agent_id : String) → (content : String) → OrchestratorEvent
  subagent_started : (parent_id : String) → (child_id name : String) → OrchestratorEvent
  subagent_progress : (parent_id : String) → (child_id progress : String) → OrchestratorEvent
  subagent_completed : (parent_id : String) → (child_id : String) → OrchestratorEvent
  permission_requested : (agent_id : String) → (tool_name request_id : String) → OrchestratorEvent
  handoff_requested : (from to reason : String) → OrchestratorEvent

abbrev pub Queue : Type 0
Queue = List OrchestratorEvent

-- An entry of `subscribers`.
pub record Subscription : Type 0 where
  pub watched : String
  pub senders : List Queue

abbrev pub watched_key : Subscription → String
watched_key s = s.watched

pub record EventBus : Type 0 where
  pub subscribers : List Subscription

abbrev pub new_bus : EventBus
new_bus = record { subscribers = [] }

-- Whose subscribers an event is for.
unfoldable pub agent_of : OrchestratorEvent → Option String
agent_of (agent_spawned id p) = some id
agent_of (agent_completed id c) = some id
agent_of (agent_failed id e) = some id
agent_of (agent_archived id) = some id
agent_of (agent_thinking id c) = some id
agent_of (agent_tool_call id t s) = some id
agent_of (agent_message id c) = some id
agent_of (subagent_started id k n) = some id
agent_of (subagent_progress id k p) = some id
agent_of (subagent_completed id k) = some id
agent_of (permission_requested id t r) = some id
agent_of (handoff_requested f t r) = none

abbrev pub sent_to_all : OrchestratorEvent → List Queue → List Queue
sent_to_all e qs = map (λ q. q ++ e ∷ []) qs

-- The receiver of the broadcast is dropped in `new`, so that the first `send` gives nothing to anyone.
unfoldable pub emit : OrchestratorEvent → EventBus → EventBus
emit e b = elim (agent_of e) [
  | none ↦ b
  | some id ↦ record b {
    subscribers =
        update_rows watched_key id (λ s. true) (λ s. record s { senders = sent_to_all e s.senders })
          b.subscribers;
  }
]

abbrev pub senders_of : Option Subscription → List Queue
senders_of none = []
senders_of (some s) = s.senders

-- The queues of an agent's subscribers, in the order in which they came.
abbrev pub queues : String → EventBus → List Queue
queues id b = senders_of (find_row watched_key id b.subscribers)

unfoldable pub subscribe : String → EventBus → EventBus
subscribe id b = record b {
  subscribers =
      replace_row watched_key (record { watched = id; senders = queues id b ++ [] ∷ [] })
        b.subscribers;
}
