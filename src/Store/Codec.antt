-- ===== src/Store/Codec.antt =====
-- The texts that crates/anti-daemon/src/store.rs writes for an enum, `format!("{:?}", x)` and its
-- lower case, and the functions that read them back.
pub mod RoundTrips
use anti_subagent.Prelude.{String, Option, none, some, ◌==◌, if◌then◌else◌}
use anti_subagent.Core.Model.{Role, Disposition, Harness, AgentStatus, AttentionReason}
use anti_subagent.Core.Work.{WorkItemState}
use anti_subagent.Core.Dispatch.{DispatchStatus, DispatchOutcome}

unfoldable pub role_text : Role → String
role_text Role.supervisor = "supervisor"
role_text Role.lead = "lead"
role_text Role.peer = "peer"

unfoldable pub parse_role : String → Role
parse_role s =
    if s == "supervisor" then Role.supervisor else if s == "lead" then Role.lead else Role.peer

unfoldable pub disposition_text : Disposition → String
disposition_text Disposition.engineer = "engineer"
disposition_text Disposition.architect = "architect"
disposition_text Disposition.reviewer = "reviewer"
disposition_text Disposition.scout = "scout"
disposition_text Disposition.proof_auditor = "proofauditor"
disposition_text Disposition.shadow = "shadow"

unfoldable pub parse_disposition : String → Disposition
parse_disposition s =
    if s == "architect"
    then Disposition.architect
    else if s == "reviewer"
    then Disposition.reviewer
    else if s == "scout"
    then Disposition.scout
    else if s == "proofauditor"
    then Disposition.proof_auditor
    else if s == "shadow"
    then Disposition.shadow
    else Disposition.engineer

unfoldable pub harness_text : Harness → String
harness_text Harness.claude = "claude"
harness_text Harness.codex = "codex"
harness_text Harness.open_code = "opencode"
harness_text Harness.sleep = "sleep"

unfoldable pub parse_harness : String → Harness
parse_harness s =
    if s == "codex"
    then Harness.codex
    else if s == "opencode"
    then Harness.open_code
    else if s == "sleep"
    then Harness.sleep
    else Harness.claude

unfoldable pub reason_text : AttentionReason → String
reason_text AttentionReason.finished = "finished"
reason_text AttentionReason.error = "error"
reason_text AttentionReason.permission = "permission"

unfoldable pub parse_reason : String → AttentionReason
parse_reason s =
    if s == "error"
    then AttentionReason.error
    else if s == "permission"
    then AttentionReason.permission
    else AttentionReason.finished

unfoldable pub status_text : AgentStatus → String
status_text AgentStatus.created = "Created"
status_text AgentStatus.starting = "Starting"
status_text AgentStatus.running = "Running"
status_text AgentStatus.blocked = "Blocked"
status_text AgentStatus.completed = "Completed"
status_text AgentStatus.failed = "Failed"
status_text AgentStatus.crashed = "Crashed"
status_text AgentStatus.stopped = "Stopped"
status_text AgentStatus.recovering = "Recovering"
status_text AgentStatus.replaced = "Replaced"

unfoldable pub parse_status : String → AgentStatus
parse_status s =
    if s == "Created"
    then AgentStatus.created
    else if s == "Starting"
    then AgentStatus.starting
    else if s == "Running"
    then AgentStatus.running
    else if s == "Blocked"
    then AgentStatus.blocked
    else if s == "Completed"
    then AgentStatus.completed
    else if s == "Failed"
    then AgentStatus.failed
    else if s == "Crashed"
    then AgentStatus.crashed
    else if s == "Stopped"
    then AgentStatus.stopped
    else if s == "Recovering"
    then AgentStatus.recovering
    else if s == "Replaced"
    then AgentStatus.replaced
    else AgentStatus.created

-- Seven of the seventeen states are read back; every other text is Pending.
unfoldable pub work_text : WorkItemState → String
work_text WorkItemState.pending = "Pending"
work_text WorkItemState.in_progress = "InProgress"
work_text WorkItemState.submitted = "Submitted"
work_text WorkItemState.verified = "Verified"
work_text WorkItemState.accepted = "Accepted"
work_text WorkItemState.needs_revision = "NeedsRevision"
work_text WorkItemState.rejected = "Rejected"
work_text WorkItemState.received = "Received"
work_text WorkItemState.explored = "Explored"
work_text WorkItemState.planned = "Planned"
work_text WorkItemState.executing = "Executing"
work_text WorkItemState.executed = "Executed"
work_text WorkItemState.verifying = "Verifying"
work_text WorkItemState.failed = "Failed"
work_text WorkItemState.fixing = "Fixing"
work_text WorkItemState.exhausted = "Exhausted"
work_text WorkItemState.cancelled = "Cancelled"

unfoldable pub parse_work_state : String → WorkItemState
parse_work_state s =
    if s == "Pending"
    then WorkItemState.pending
    else if s == "InProgress"
    then WorkItemState.in_progress
    else if s == "Submitted"
    then WorkItemState.submitted
    else if s == "Verified"
    then WorkItemState.verified
    else if s == "Accepted"
    then WorkItemState.accepted
    else if s == "NeedsRevision"
    then WorkItemState.needs_revision
    else if s == "Rejected"
    then WorkItemState.rejected
    else WorkItemState.pending

unfoldable pub dispatch_text : DispatchStatus → String
dispatch_text DispatchStatus.pending = "Pending"
dispatch_text DispatchStatus.notified = "Notified"
dispatch_text DispatchStatus.delivered = "Delivered"
dispatch_text DispatchStatus.completed = "Completed"
dispatch_text DispatchStatus.failed = "Failed"
dispatch_text DispatchStatus.deferred = "Deferred"
dispatch_text DispatchStatus.cancelled = "Cancelled"

unfoldable pub parse_dispatch_status : String → DispatchStatus
parse_dispatch_status s =
    if s == "Pending"
    then DispatchStatus.pending
    else if s == "Notified"
    then DispatchStatus.notified
    else if s == "Delivered"
    then DispatchStatus.delivered
    else if s == "Completed"
    then DispatchStatus.completed
    else if s == "Failed"
    then DispatchStatus.failed
    else if s == "Deferred"
    then DispatchStatus.deferred
    else if s == "Cancelled"
    then DispatchStatus.cancelled
    else DispatchStatus.pending

unfoldable pub outcome_text : DispatchOutcome → String
outcome_text DispatchOutcome.delivered_confirmed = "DeliveredConfirmed"
outcome_text DispatchOutcome.delivered_unconfirmed = "DeliveredUnconfirmed"
outcome_text DispatchOutcome.completed_confirmed = "CompletedConfirmed"
outcome_text DispatchOutcome.completed_unverified = "CompletedUnverified"
outcome_text DispatchOutcome.target_missing = "TargetMissing"
outcome_text DispatchOutcome.target_unavailable = "TargetUnavailable"
outcome_text DispatchOutcome.preflight_failed = "PreflightFailed"
outcome_text DispatchOutcome.send_failed = "SendFailed"
outcome_text DispatchOutcome.timeout = "Timeout"
outcome_text DispatchOutcome.cancelled = "Cancelled"

unfoldable pub parse_dispatch_outcome : String → Option DispatchOutcome
parse_dispatch_outcome s =
    if s == "DeliveredConfirmed"
    then some DispatchOutcome.delivered_confirmed
    else if s == "DeliveredUnconfirmed"
    then some DispatchOutcome.delivered_unconfirmed
    else if s == "CompletedConfirmed"
    then some DispatchOutcome.completed_confirmed
    else if s == "CompletedUnverified"
    then some DispatchOutcome.completed_unverified
    else if s == "TargetMissing"
    then some DispatchOutcome.target_missing
    else if s == "TargetUnavailable"
    then some DispatchOutcome.target_unavailable
    else if s == "PreflightFailed"
    then some DispatchOutcome.preflight_failed
    else if s == "SendFailed"
    then some DispatchOutcome.send_failed
    else if s == "Timeout"
    then some DispatchOutcome.timeout
    else if s == "Cancelled"
    then some DispatchOutcome.cancelled
    else none
