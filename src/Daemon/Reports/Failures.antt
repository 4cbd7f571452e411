-- ===== src/Daemon/Reports/Failures.antt =====
-- What a report of failure does to a work item.
use anti_subagent.Prelude.{
  String, Bool, true, false, ◌&&◌, ◌||◌, not, ◌≡◌, Option, some, arith, Result, ok, is_ok, ◌==◌,
  eq_iff, ltb, if◌then◌else◌,
}
use anti_subagent.Core.Work.{
  WorkItemState, pending, in_progress, submitted, needs_revision, failed, WorkItem, work_eq,
  can_transition,
}
use anti_subagent.Core.Report.{ReportStatus, from_str}
use anti_subagent.Core.Events.{
  EventType, Json, obj, field, str, num, end, task_failed, agent_progress,
}
use anti_subagent.Store.Db.{Store, StoreError}
use anti_subagent.Store.Codec.{work_text}
use anti_subagent.Store.Codec.RoundTrips.{is_legacy}
use anti_subagent.Store.Works.{get_work_item, update_work_state}
use anti_subagent.Store.Works.Laws.{IsStored, moved, get-update}
use anti_subagent.Store.Works.States.{get-legacy, update_found_ok, get-log}
use anti_subagent.Daemon.Wire.{Env}
use anti_subagent.Daemon.Reports.{
  ReportTask, handle_failed, handle_report, failure_target, can_transition_for_failure,
  or_unknown_error,
}

-- The states of the store's seven from which a failure moves an item.
abbrev pub takes_failure : WorkItemState → Bool
takes_failure s = work_eq s submitted || work_eq s needs_revision

fails :
    (a : WorkItemState) (again : Bool)
    → is_legacy a ≡ true
    → (can_transition_for_failure a ≡ (work_eq a in_progress || takes_failure a))
      × (can_transition_for_failure a ≡ true → work_eq a pending ≡ false)
      × (can_transition_for_failure a ≡ true
          → can_transition a (if again then needs_revision else failed) ≡ takes_failure a)
unfolding can_transition
fails a again h = ground arith

module _ (e : Env) (w : WorkItem) (error : Option String) (task_id : String) (s : Store)
    (h : IsStored s) (found : get_work_item task_id s ≡ some w) where
  abbrev pub failing : Store × Result StoreError (Unit {0})
  failing = update_work_state task_id w.state (failure_target w) e.clock s

  abbrev pub payload : Json
  payload = obj (
      field "task_id" (str task_id) (
        field "error" (str (or_unknown_error error)) (
          field "new_state" (str (work_text (failure_target w)))
            (field "revision" (num w.revision) end))))

  abbrev pub event_type : EventType
  event_type = if work_eq (failure_target w) failed then task_failed else agent_progress

  failing_ok : can_transition_for_failure w.state ≡ true → is_ok failing.1 ≡ takes_failure w.state
  failing_ok n = ground (
    arith,
    update_found_ok task_id (failure_target w) e.clock s h found,
    fails w.state (ltb w.revision w.max_revisions) (get-legacy task_id s found),
  )

  handle_failed_ok : is_ok (handle_failed e w error task_id s).1 ≡ not (work_eq w.state in_progress)
  unfolding handle_failed
  handle_failed_ok = ground (
    arith,
    failing_ok,
    fails w.state (ltb w.revision w.max_revisions) (get-legacy task_id s found),
  )

  pub get-handle_failed :
      (j : String)
      → get_work_item j (handle_failed e w error task_id s).0 ≡ (
          if takes_failure w.state && task_id == j
          then some (moved (failure_target w) e.clock.sql_now w)
          else get_work_item j s)
  unfolding handle_failed
  get-handle_failed j = ground (
    arith,
    failing_ok,
    found,
    fails w.state (ltb w.revision w.max_revisions) (get-legacy task_id s found),
    get-update task_id j w.state (failure_target w) e.clock s h,
    get-log j w.peer_id event_type payload e.clock s,
    get-log j w.peer_id event_type payload e.clock failing.0,
    eq_iff task_id j,
  )

failed_runs :
    (e : Env) (r : ReportTask) (w : WorkItem) (s : Store)
    → from_str r.status ≡ ok ReportStatus.failed
    → (r.task_id == "") ≡ false
    → get_work_item r.task_id s ≡ some w
    → (w.peer_id == "") ≡ false
    → handle_report e r s ≡ handle_failed e w r.error r.task_id s
unfolding handle_report
failed_runs e r w s st t found p = ground arith

-- A report of failure on a task that is found and has a peer is refused exactly for an item in
-- progress, and then no item changes. An item that is Submitted or needs a revision is moved, to
-- NeedsRevision while it has revisions left and else to Failed, which the store gives back as Pending;
-- for an item in any other state the report is accepted and no item changes.
-- It is assumed that no two work items of the table share an id.
pub failed_report :
    (e : Env) (r : ReportTask) (w : WorkItem) (s : Store)
    → IsStored s
    → from_str r.status ≡ ok ReportStatus.failed
    → (r.task_id == "") ≡ false
    → get_work_item r.task_id s ≡ some w
    → (w.peer_id == "") ≡ false
    → (is_ok (handle_report e r s).1 ≡ not (work_eq w.state in_progress))
      × ((j : String)
          → get_work_item j (handle_report e r s).0 ≡ (
              if (work_eq w.state submitted || work_eq w.state needs_revision) && r.task_id == j
              then some (record w {
                state = if ltb w.revision w.max_revisions then needs_revision else pending;
                updated_at = e.clock.sql_now;
              })
              else get_work_item j s))
failed_report e r w s h st t found p =
    let run = failed_runs e r w s st t found p in
    (
      rw run (handle_failed_ok e w r.error r.task_id s h found),
      λ j. rw run (ground (arith, get-handle_failed e w r.error r.task_id s h found j)),
    )
