-- ===== src/Daemon/Reports/Steps.antt =====
-- The report of a peer takes a step of the work item's life.
use anti_subagent.Prelude.{
  String, true, ◌≡◌, Option, none, some, arith, Clock, Option-cases, Result-cases, inl, inr,
}
use anti_subagent.Core.Work.{EvidenceRef, WorkItem}
use anti_subagent.Core.Report.{ReportStatus, from_str}
use anti_subagent.Core.Events.{Json, EventType, agent_progress}
use anti_subagent.Store.Db.{Store}
use anti_subagent.Store.Events.{log_event}
use anti_subagent.Store.Works.{get_work_item}
use anti_subagent.Store.Works.Laws.{IsStored, moved}
use anti_subagent.Store.Works.States.{get-log}
use anti_subagent.Daemon.Wire.{Env}
use anti_subagent.Daemon.Lifecycle.{
  report, may_move, Steps, same-Steps, set-Steps, refl-Steps, either-Steps,
}
use anti_subagent.Daemon.Reports.{
  ReportTask, submit_evidence, handle_completed, handle_failed, handle_progress, dispatch_report,
  report_on, handle_report, handle_report_task, failure_target, resolve_workspace_path,
  compute_commit_diff_sha, or_unknown,
}
use anti_subagent.Daemon.Reports.Laws.{after_report, evidence, get-submit_evidence}
use anti_subagent.Daemon.Reports.Failures.{takes_failure, get-handle_failed}

reports :
    (ev : EvidenceRef) (c : Clock) (w : WorkItem)
    → may_move report w.state (after_report ev c w).state ≡ true
unfolding may_move
reports ev c w = ground arith

fails :
    (now : String) (w : WorkItem)
    → takes_failure w.state ≡ true
    → may_move report w.state (moved (failure_target w) now w).state ≡ true
unfolding may_move
fails now w h = ground arith

log-Steps :
    (task_id id : String) (t : EventType) (p : Json) (c : Clock) (s : Store)
    → Steps report task_id s (log_event id t p c s)
log-Steps task_id id t p c s =
    same-Steps report task_id s (log_event id t p c s) (λ j. get-log j id t p c s)

module _ (task_id : String) (w : WorkItem) (s : Store) (h : IsStored s)
    (found : get_work_item task_id s ≡ some w) where
  submit_evidence-Steps :
      (commit sha workspace : String) (c : Clock)
      → Steps report task_id s (submit_evidence task_id commit sha workspace c w s).0
  submit_evidence-Steps commit sha workspace c =
      let ev = evidence task_id commit sha workspace c w s h found in
      set-Steps report task_id s (submit_evidence task_id commit sha workspace c w s).0 true w
        (after_report ev c w) found (get-submit_evidence task_id commit sha workspace c w s h found)
        (λ t. reports ev c w)

  handle_completed-Steps :
      (e : Env) (commit : Option String)
      → Steps report task_id s (handle_completed e w commit task_id s).0
  unfolding handle_completed
  handle_completed-Steps e none = refl-Steps report task_id s
  handle_completed-Steps e (some commit) =
      elim (Result-cases (resolve_workspace_path w.peer_id s)) [
        | inl (x, r) ↦
            either-Steps report task_id s (handle_completed e w (some commit) task_id s).0 s
              (ground (arith, r)) (refl-Steps report task_id s)
        | inr (workspace, r) ↦
            let sha = or_unknown (compute_commit_diff_sha e.tools workspace commit) in
            either-Steps report task_id s (handle_completed e w (some commit) task_id s).0
              (submit_evidence task_id commit sha workspace e.clock w s).0 (ground (arith, r))
              (submit_evidence-Steps commit sha workspace e.clock)
      ]

  handle_failed-Steps :
      (e : Env) (error : Option String)
      → Steps report task_id s (handle_failed e w error task_id s).0
  handle_failed-Steps e error =
      set-Steps report task_id s (handle_failed e w error task_id s).0 (takes_failure w.state) w
        (moved (failure_target w) e.clock.sql_now w) found
        (get-handle_failed e w error task_id s h found) (fails e.clock.sql_now w)

dispatch_report-Steps :
    (e : Env) (status : ReportStatus) (w : WorkItem) (r : ReportTask) (s : Store)
    → IsStored s
    → get_work_item r.task_id s ≡ some w
    → Steps report r.task_id s (dispatch_report e status w r s).0
unfolding dispatch_report handle_progress
dispatch_report-Steps e ReportStatus.completed w r s h found =
    handle_completed-Steps r.task_id w s h found e r.commit
dispatch_report-Steps e ReportStatus.failed w r s h found =
    handle_failed-Steps r.task_id w s h found e r.error
dispatch_report-Steps e ReportStatus.progress w r s h found =
    log-Steps r.task_id w.peer_id agent_progress _ e.clock s
dispatch_report-Steps e ReportStatus.question w r s h found =
    log-Steps r.task_id w.peer_id agent_progress _ e.clock s

report_on-Steps :
    (e : Env) (status : ReportStatus) (r : ReportTask) (s : Store)
    → IsStored s
    → Steps report r.task_id s (report_on e status (get_work_item r.task_id s) r s).0
unfolding report_on
report_on-Steps e status r s h = elim (Option-cases (get_work_item r.task_id s)) [
  | inl n ↦
      either-Steps report r.task_id s (report_on e status (get_work_item r.task_id s) r s).0 s
        (ground (arith, n)) (refl-Steps report r.task_id s)
  | inr (w, found) ↦
      either-Steps report r.task_id s (report_on e status (get_work_item r.task_id s) r s).0
        (dispatch_report e status w r s).0 (ground (arith, found))
        (dispatch_report-Steps e status w r s h found)
]

pub report_task-Steps :
    (e : Env) (r : ReportTask) (s : Store)
    → IsStored s
    → Steps report r.task_id s (handle_report_task e r s).0
unfolding handle_report_task handle_report
report_task-Steps e r s h = elim (Result-cases (from_str r.status)) [
  | inl (x, n) ↦
      either-Steps report r.task_id s (handle_report_task e r s).0 s (ground (arith, n))
        (refl-Steps report r.task_id s)
  | inr (status, k) ↦
      either-Steps report r.task_id s (handle_report_task e r s).0
        (report_on e status (get_work_item r.task_id s) r s).0 (ground (arith, k))
        (report_on-Steps e status r s h)
]
