-- ===== src/Core/Model.antt =====
-- The durable identity model (crates/anti-core/src/model.rs) and the attention flag
-- (crates/anti-core/src/attention.rs).
use anti_subagent.Prelude.{ℕ, String, Bool, true, false, Option, none, some, Clock, nat_eq}

pub data Role : Type 0 where
  supervisor lead peer : Role

pub data Disposition : Type 0 where
  engineer architect reviewer scout proof_auditor shadow : Disposition

pub data Harness : Type 0 where
  claude codex open_code sleep : Harness

pub record WorkspaceLease : Type 0 where
  pub lease_id : String
  pub path : String
  pub holder : String
  pub generation : ℕ

unfoldable pub generation_matches : WorkspaceLease → ℕ → Bool
generation_matches l expected = nat_eq l.generation expected

pub data AgentStatus : Type 0 where
  created starting running blocked completed failed crashed stopped recovering replaced :
      AgentStatus

-- The discriminants, which the derived `==` compares.
abbrev pub status_tag : AgentStatus → ℕ
status_tag created = 0
status_tag starting = 1
status_tag running = 2
status_tag blocked = 3
status_tag completed = 4
status_tag failed = 5
status_tag crashed = 6
status_tag stopped = 7
status_tag recovering = 8
status_tag replaced = 9

abbrev pub status_eq : AgentStatus → AgentStatus → Bool
status_eq a b = nat_eq (status_tag a) (status_tag b)

unfoldable pub is_terminal : AgentStatus → Bool
is_terminal completed = true
is_terminal failed = true
is_terminal stopped = true
is_terminal replaced = true
is_terminal _ = false

pub data AttentionReason : Type 0 where
  finished error permission : AttentionReason

pub record AttentionState : Type 0 where
  pub requires_attention : Bool
  pub reason : Option AttentionReason
  pub timestamp : Option String

abbrev pub no_attention : AttentionState
no_attention = record { requires_attention = false; reason = none; timestamp = none }

unfoldable pub new_attention : AttentionReason → Clock → AttentionState
new_attention r c = record { requires_attention = true; reason = some r; timestamp = some c.now }

unfoldable pub clear : AttentionState → AttentionState
clear a = no_attention

reason_priority : Option AttentionReason → ℕ
reason_priority (some permission) = 3
reason_priority (some error) = 2
reason_priority (some finished) = 1
reason_priority none = 0

unfoldable pub priority : AttentionState → ℕ
unfolding reason_priority
priority a = elim a.requires_attention [ true ↦ reason_priority a.reason | false ↦ 0 ]

-- The durable record of an agent.
pub record AgentRecord : Type 0 where
  pub id : String
  pub role : Role
  pub disposition : Option Disposition
  pub harness : Harness
  pub parent_id : Option String
  pub pid : Option ℕ
  pub workspace : Option WorkspaceLease
  pub task_path : Option String
  pub status : AgentStatus
  pub restart_count : ℕ
  pub spawn_gen : ℕ
  pub last_state_change_seq : ℕ
  pub created_at : String
  pub updated_at : String
  pub attention : AttentionState
