-- ===== src/Daemon/Reports.antt =====
-- The report of a peer on its task: `handle_report` of crates/anti-daemon/src/report.rs and
-- `handle_report_task` of crates/anti-daemon/src/main.rs.
pub mod Laws
pub mod Sound
pub mod Steps
pub mod Failures
use Prim.Native.String
use anti_subagent.Prelude.{
  ℕ, ℤ, String, Bool, true, false, ◌||◌, not, Option, none, some, List, [], ◌∷◌, Result, ok, err,
  Clock, ◌==◌, ltb, if◌then◌else◌,
}
use anti_subagent.Core.Work.{
  WorkItemState, in_progress, submitted, needs_revision, executing, verifying, failed, EvidenceRef,
  WorkItem, work_eq,
}
use anti_subagent.Core.Report.{
  ReportStatus, completed, progress, question, ReportError, invalid_task_id, task_not_found,
  task_not_assigned, commit_required, commit_not_found, transition_failed, from_str,
}
use anti_subagent.Core.Model.{AgentRecord, WorkspaceLease}
use anti_subagent.Core.Events.{
  Json, num, str, obj, end, field, work_submitted, task_failed, agent_progress,
}
use anti_subagent.Store.Db.{Store}
use anti_subagent.Store.Codec.{work_text}
use anti_subagent.Store.Events.{log_event}
use anti_subagent.Store.Agents.{get_agent}
use anti_subagent.Store.Works.{insert_work_item, get_work_item, update_work_state}
use anti_subagent.Daemon.Wire.{Response, ok_response, err_response, Output, Tools, Env}

-- The message of the answer is left out.
pub record ReportResponse : Type 0 where
  pub task_id : String
  pub new_state : WorkItemState

abbrev pub Reported : Type 0
Reported = Store × Result ReportError ReportResponse

lease_path : Option WorkspaceLease → Result ReportError String
lease_path none = err ReportError.store
lease_path (some w) = ok w.path

unfoldable pub resolve_workspace_path : String → Store → Result ReportError String
unfolding lease_path
resolve_workspace_path peer_id s = elim (get_agent peer_id s) [
  | none ↦ err ReportError.store
  | some a ↦ lease_path a.workspace
]

unfoldable pub verify_commit_in_workspace : Tools → String → String → Result ReportError (Unit {0})
verify_commit_in_workspace t workspace commit_sha =
    elim (t.git ("-C" ∷ workspace ∷ "show" ∷ "--no-patch" ∷ commit_sha ∷ [])) [
      | Output.failed e ↦ err ReportError.store
      | Output.exited success code stdout stderr ↦
          if not success then err (commit_not_found commit_sha) else ok tt
    ]

-- The first commit has no parent to be compared with.
diff_of_first : Tools → String → String → Result ReportError String
diff_of_first t workspace commit_sha =
    elim (t.git ("-C" ∷ workspace ∷ "diff" ∷ "--stat" ∷ commit_sha ∷ [])) [
      | Output.failed e ↦ err ReportError.store
      | Output.exited success code stdout stderr ↦ ok (t.sha256 stdout)
    ]

unfoldable pub compute_commit_diff_sha : Tools → String → String → Result ReportError String
unfolding diff_of_first
compute_commit_diff_sha t workspace commit_sha =
    elim (t.git ("-C" ∷ workspace ∷ "diff" ∷ String.◌++◌ commit_sha "^" ∷ commit_sha ∷ [])) [
      | Output.failed e ↦ err ReportError.store
      | Output.exited success code stdout stderr ↦
          if not success then diff_of_first t workspace commit_sha else ok (t.sha256 stdout)
    ]

abbrev pub or_unknown : Result ReportError String → String
or_unknown (ok sha) = sha
or_unknown (err e) = "unknown"

-- The item with its new evidence is saved before the state is moved, and the state is moved only from
-- InProgress and NeedsRevision.
unfoldable pub submit_evidence :
    String → String → String → String → Clock → WorkItem → Store → Reported
submit_evidence task_id commit_sha evidence_sha workspace c w s =
    let evidence : EvidenceRef = record {
      sha256 = evidence_sha;
      artifact_path = workspace;
      produced_at = c.now;
    } in
    let updated = record w {
      evidence = some evidence;
      submitted_at = some c.now;
      review_deadline = some (c.later 600);
    } in
    let s₁ = insert_work_item updated s in
    let (s₂, outcome) = update_work_state task_id w.state submitted c s₁ in
    let payload = obj (
      field "task_id" (str task_id)
        (field "commit" (str commit_sha) (field "evidence_sha" (str evidence_sha) end))) in
    let answer : ReportResponse = record { task_id = task_id; new_state = submitted } in
    if work_eq w.state in_progress || work_eq w.state needs_revision
    then elim outcome [
      | err e ↦ (s₂, err transition_failed)
      | ok _ ↦ (log_event w.peer_id work_submitted payload c s₂, ok answer)
    ]
    else (log_event w.peer_id work_submitted payload c s₁, ok answer)

handle_completed : Env → WorkItem → Option String → String → Store → Reported
handle_completed e w none task_id s = (s, err commit_required)
handle_completed e w (some commit_sha) task_id s = elim (resolve_workspace_path w.peer_id s) [
  | err x ↦ (s, err x)
  | ok workspace ↦ elim (verify_commit_in_workspace e.tools workspace commit_sha) [
    | err x ↦ (s, err x)
    | ok _ ↦
        submit_evidence task_id commit_sha
          (or_unknown (compute_commit_diff_sha e.tools workspace commit_sha)) workspace e.clock w s
  ]
]

abbrev pub can_transition_for_failure : WorkItemState → Bool
can_transition_for_failure in_progress = true
can_transition_for_failure submitted = true
can_transition_for_failure needs_revision = true
can_transition_for_failure executing = true
can_transition_for_failure verifying = true
can_transition_for_failure _ = false

-- `work_item.revision >= work_item.max_revisions`.
abbrev pub failure_target : WorkItem → WorkItemState
failure_target w = if ltb w.revision w.max_revisions then needs_revision else failed

abbrev pub or_unknown_error : Option String → String
or_unknown_error none = "unknown error"
or_unknown_error (some m) = m

unfoldable pub handle_failed : Env → WorkItem → Option String → String → Store → Reported
handle_failed e w error task_id s =
    let target = failure_target w in
    let (s', outcome) = update_work_state task_id w.state target e.clock s in
    let payload = obj (
      field "task_id" (str task_id) (
        field "error" (str (or_unknown_error error))
          (field "new_state" (str (work_text target)) (field "revision" (num w.revision) end)))) in
    let type_ = if work_eq target failed then task_failed else agent_progress in
    let answer : ReportResponse = record { task_id = task_id; new_state = target } in
    if can_transition_for_failure w.state
    then elim outcome [
      | err x ↦ (s', err transition_failed)
      | ok _ ↦ (log_event w.peer_id type_ payload e.clock s', ok answer)
    ]
    else (log_event w.peer_id type_ payload e.clock s, ok answer)

abbrev report_status_text : ReportStatus → String
report_status_text completed = "Completed"
report_status_text ReportStatus.failed = "Failed"
report_status_text progress = "Progress"
report_status_text question = "Question"

abbrev or_empty : Option String → String
or_empty none = ""
or_empty (some m) = m

handle_progress : Env → WorkItem → ReportStatus → Option String → String → Store → Reported
handle_progress e w status message task_id s = (
  log_event w.peer_id agent_progress
      (obj (
        field "task_id" (str task_id) (
          field "report_status" (str (report_status_text status))
            (field "message" (str (or_empty message)) end))))
      e.clock s,
  ok (record { task_id = task_id; new_state = w.state }),
)

-- What a peer sends.
pub record ReportTask : Type 0 where
  pub task_id : String
  pub status : String
  pub commit : Option String
  pub error : Option String
  pub message : Option String

dispatch_report : Env → ReportStatus → WorkItem → ReportTask → Store → Reported
unfolding handle_completed handle_progress
dispatch_report e completed w r s = handle_completed e w r.commit r.task_id s
dispatch_report e ReportStatus.failed w r s = handle_failed e w r.error r.task_id s
dispatch_report e progress w r s = handle_progress e w progress r.message r.task_id s
dispatch_report e question w r s = handle_progress e w question r.message r.task_id s

report_on : Env → ReportStatus → Option WorkItem → ReportTask → Store → Reported
unfolding dispatch_report
report_on e status none r s = (s, err (task_not_found r.task_id))
report_on e status (some w) r s =
    if w.peer_id == ""
    then (s, err (task_not_assigned r.task_id))
    else dispatch_report e status w r s

unfoldable pub handle_report : Env → ReportTask → Store → Reported
unfolding report_on
handle_report e r s = elim (from_str r.status) [
  | err x ↦ (s, err x)
  | ok status ↦
      if r.task_id == ""
      then (s, err (invalid_task_id r.task_id))
      else report_on e status (get_work_item r.task_id s) r s
]

unfoldable pub handle_report_task : Env → ReportTask → Store → Store × Response
handle_report_task e r s =
    let (s', outcome) = handle_report e r s in
    (
      s',
      elim outcome [
        | ok a ↦ ok_response (
            obj (
              field "task_id" (str a.task_id)
                (field "new_state" (str (work_text a.new_state)) end)))
        | err x ↦ err_response "report_error"
      ],
    )
