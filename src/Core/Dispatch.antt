-- ===== src/Core/Dispatch.antt =====
-- The dispatch log (crates/anti-core/src/dispatch.rs): the life of one delivery of a task.
pub mod Laws
use anti_subagent.Prelude.{
  ℕ, String, Bool, true, false, Option, none, some, ◌==◌, nat_eq, if◌then◌else◌,
}

pub data DispatchStatus : Type 0 where
  pending notified delivered completed failed deferred cancelled : DispatchStatus

pub data DispatchOutcome : Type 0 where
  delivered_confirmed delivered_unconfirmed completed_confirmed completed_unverified target_missing
        target_unavailable preflight_failed send_failed timeout cancelled :
      DispatchOutcome

-- The discriminants, which the derived `==` compares.
abbrev pub dispatch_tag : DispatchStatus → ℕ
dispatch_tag DispatchStatus.pending = 0
dispatch_tag DispatchStatus.notified = 1
dispatch_tag DispatchStatus.delivered = 2
dispatch_tag DispatchStatus.completed = 3
dispatch_tag DispatchStatus.failed = 4
dispatch_tag DispatchStatus.deferred = 5
dispatch_tag DispatchStatus.cancelled = 6

abbrev pub dispatch_eq : DispatchStatus → DispatchStatus → Bool
dispatch_eq a b = nat_eq (dispatch_tag a) (dispatch_tag b)

unfoldable pub status_from_str : String → Option DispatchStatus
status_from_str s =
    if s == "pending"
    then some DispatchStatus.pending
    else if s == "notified"
    then some DispatchStatus.notified
    else if s == "delivered"
    then some DispatchStatus.delivered
    else if s == "completed"
    then some DispatchStatus.completed
    else if s == "failed"
    then some DispatchStatus.failed
    else if s == "deferred"
    then some DispatchStatus.deferred
    else if s == "cancelled"
    then some DispatchStatus.cancelled
    else none

unfoldable pub outcome_from_str : String → Option DispatchOutcome
outcome_from_str s =
    if s == "delivered_confirmed"
    then some DispatchOutcome.delivered_confirmed
    else if s == "delivered_unconfirmed"
    then some DispatchOutcome.delivered_unconfirmed
    else if s == "completed_confirmed"
    then some DispatchOutcome.completed_confirmed
    else if s == "completed_unverified"
    then some DispatchOutcome.completed_unverified
    else if s == "target_missing"
    then some DispatchOutcome.target_missing
    else if s == "target_unavailable"
    then some DispatchOutcome.target_unavailable
    else if s == "preflight_failed"
    then some DispatchOutcome.preflight_failed
    else if s == "send_failed"
    then some DispatchOutcome.send_failed
    else if s == "timeout"
    then some DispatchOutcome.timeout
    else if s == "cancelled"
    then some DispatchOutcome.cancelled
    else none

pub record DispatchEvent : Type 0 where
  pub id : String
  pub task_id : String
  pub peer_id : String
  pub status : DispatchStatus
  pub outcome : Option DispatchOutcome
  pub created_at : String
  pub updated_at : String

table : DispatchStatus → DispatchStatus → Bool
table DispatchStatus.pending DispatchStatus.notified = true
table DispatchStatus.pending DispatchStatus.failed = true
table DispatchStatus.pending DispatchStatus.cancelled = true
table DispatchStatus.notified DispatchStatus.delivered = true
table DispatchStatus.notified DispatchStatus.failed = true
table DispatchStatus.notified DispatchStatus.deferred = true
table DispatchStatus.notified DispatchStatus.cancelled = true
table DispatchStatus.delivered DispatchStatus.completed = true
table DispatchStatus.delivered DispatchStatus.failed = true
table DispatchStatus.delivered DispatchStatus.cancelled = true
table DispatchStatus.deferred DispatchStatus.notified = true
table _ _ = false

unfoldable pub can_transition_dispatch : DispatchStatus → DispatchStatus → Bool
unfolding table
can_transition_dispatch from to = if dispatch_eq from to then true else table from to
