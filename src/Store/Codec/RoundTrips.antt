-- ===== src/Store/Codec/RoundTrips.antt =====
-- Which enum values survive being written to the store and read back.
use anti_subagent.Prelude.{◌≡◌, refl, Bool, true, false, some, ◌==◌, if◌then◌else◌}
use anti_subagent.Core.Model.{
  Role, Disposition, Harness, AgentStatus, AttentionReason, status_eq, supervisor, engineer, claude,
  created, finished,
}
use anti_subagent.Core.Work.{
  WorkItemState, work_eq, pending, in_progress, submitted, verified, accepted, needs_revision,
  rejected,
}
use anti_subagent.Core.Dispatch.{DispatchStatus, DispatchOutcome, dispatch_eq}
use anti_subagent.Store.Codec.{
  role_text, parse_role, disposition_text, parse_disposition, harness_text, parse_harness,
  reason_text, parse_reason, status_text, parse_status, work_text, parse_work_state, dispatch_text,
  parse_dispatch_status, outcome_text, parse_dispatch_outcome,
}

pub parse-role : (r : Role) → parse_role (role_text r) ≡ r
unfolding parse_role role_text
parse-role supervisor = refl
parse-role _ = refl

pub parse-disposition : (d : Disposition) → parse_disposition (disposition_text d) ≡ d
unfolding parse_disposition disposition_text
parse-disposition engineer = refl
parse-disposition _ = refl

pub parse-harness : (h : Harness) → parse_harness (harness_text h) ≡ h
unfolding parse_harness harness_text
parse-harness claude = refl
parse-harness _ = refl

pub parse-reason : (r : AttentionReason) → parse_reason (reason_text r) ≡ r
unfolding parse_reason reason_text
parse-reason finished = refl
parse-reason _ = refl

pub parse-status : (s : AgentStatus) → parse_status (status_text s) ≡ s
unfolding parse_status status_text
parse-status created = refl
parse-status _ = refl

pub parse-dispatch : (s : DispatchStatus) → parse_dispatch_status (dispatch_text s) ≡ s
unfolding parse_dispatch_status dispatch_text
parse-dispatch DispatchStatus.pending = refl
parse-dispatch _ = refl

pub parse-outcome : (o : DispatchOutcome) → parse_dispatch_outcome (outcome_text o) ≡ some o
unfolding parse_dispatch_outcome outcome_text
parse-outcome DispatchOutcome.timeout = refl
parse-outcome _ = refl

-- The states that `parse_work_state` knows.
abbrev pub is_legacy : WorkItemState → Bool
is_legacy pending = true
is_legacy in_progress = true
is_legacy submitted = true
is_legacy verified = true
is_legacy accepted = true
is_legacy needs_revision = true
is_legacy rejected = true
is_legacy _ = false

-- A work state of the legacy seven is read back as it was; every other one as Pending.
pub parse-work :
    (s : WorkItemState) → parse_work_state (work_text s) ≡ (if is_legacy s then s else pending)
unfolding parse_work_state work_text
parse-work pending = refl
parse-work _ = refl

-- Two work states have the same text only where they are equal: a WHERE on the text is a test of
-- the state.
pub work_text_eq : (a b : WorkItemState) → (work_text a == work_text b) ≡ work_eq a b
unfolding work_text
work_text_eq pending pending = refl
work_text_eq _ pending = refl
work_text_eq _ _ = refl

pub status_text_eq : (a b : AgentStatus) → (status_text a == status_text b) ≡ status_eq a b
unfolding status_text
status_text_eq created created = refl
status_text_eq _ created = refl
status_text_eq _ _ = refl

pub dispatch_text_eq :
    (a b : DispatchStatus) → (dispatch_text a == dispatch_text b) ≡ dispatch_eq a b
unfolding dispatch_text
dispatch_text_eq DispatchStatus.pending DispatchStatus.pending = refl
dispatch_text_eq _ DispatchStatus.pending = refl
dispatch_text_eq _ _ = refl
