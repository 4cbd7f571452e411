-- ===== src/Core/Events.antt =====
-- The lifecycle events of crates/anti-core/src/events.rs, and the JSON values of their payloads.
use anti_subagent.Prelude.{ℕ, ℤ, String, Bool, Option, none, some, Clock}

mutual
  -- `serde_json::Value`, as far as the daemon builds it with `json!`.
  pub data Json : Type 0 where
    null : Json
    bool : Bool → Json
    num : ℕ → Json
    int : ℤ → Json
    str : String → Json
    obj : Fields → Json

  pub data Fields : Type 0 where
    end : Fields
    field : String → Json → Fields → Fields

abbrev pub json_str : Option String → Json
json_str none = null
json_str (some s) = str s

abbrev pub json_int : Option ℤ → Json
json_int none = null
json_int (some n) = int n

abbrev pub json_num : Option ℕ → Json
json_num none = null
json_num (some n) = num n

pub data EventType : Type 0 where
  agent_registered agent_started agent_progress agent_blocked agent_completed agent_failed
        agent_crashed agent_restarted agent_stopped agent_replaced handoff_created
        agent_prompt_stalled agent_rejected work_submitted work_verified work_accepted work_rejected
        review_escalated peer_spawned peer_ready peer_crashed peer_stopped task_received
        task_executing task_completed task_failed verification_started verification_passed
        verification_failed permission_requested permission_resolved guard_violated provider_event
        workspace_acquired workspace_released workspace_cleaned lead_handoff :
      EventType

pub record Event : Type 0 where
  pub seq : ℕ
  pub timestamp : String
  pub agent_id : String
  pub type_ : EventType
  pub payload : Json

abbrev pub new_event : ℕ → String → EventType → Json → Clock → Event
new_event seq agent_id type_ payload c = record {
  seq = seq;
  timestamp = c.now;
  agent_id = agent_id;
  type_ = type_;
  payload = payload;
}
