-- ===== src/Daemon/Reports/Sound.antt =====
-- The report of a peer keeps every item backed.
use anti_subagent.Prelude.{
  String, true, ◌≡◌, Option, none, some, arith, Clock, Option-cases, Result-cases, List, inl, inr,
}
use anti_subagent.Core.Work.{submitted, EvidenceRef, WorkItem}
use anti_subagent.Core.Report.{ReportStatus, from_str}
use anti_subagent.Core.Events.{Json, EventType, Event, work_submitted, agent_progress}
use anti_subagent.Store.Db.{Store}
use anti_subagent.Store.Works.{insert_work_item, get_work_item, update_work_state}
use anti_subagent.Store.Works.Laws.{IsStored, moved, insert-IsStored, update-IsStored}
use anti_subagent.Store.Works.States.{log-IsStored}
use anti_subagent.Daemon.Wire.{Env}
use anti_subagent.Daemon.Backing.{IsSound, backed, set-IsSound, backed-log, log-IsSound}
use anti_subagent.Daemon.Reports.{
  ReportTask, submit_evidence, handle_completed, handle_failed, handle_progress, dispatch_report,
  report_on, handle_report, handle_report_task, failure_target, resolve_workspace_path,
  compute_commit_diff_sha, or_unknown,
}
use anti_subagent.Daemon.Reports.Laws.{
  after_report, with_evidence, evidence, saved, payload, locked, get-submit_evidence,
}
use anti_subagent.Daemon.Reports.Failures.{takes_failure, get-handle_failed}
use anti_subagent.Daemon.Reports.Failures

module _ (task_id commit sha workspace : String) (c : Clock) (w : WorkItem) (s : Store)
    (h : IsSound s) (found : get_work_item task_id s ≡ some w) where
  abbrev first : Store
  first = saved task_id commit sha workspace c w s h.stored found

  abbrev second : Store
  second = (locked task_id commit sha workspace c w s h.stored found).0

  abbrev the_payload : Json
  the_payload = payload task_id commit sha workspace c w s h.stored found

  abbrev the_evidence : EvidenceRef
  the_evidence = evidence task_id commit sha workspace c w s h.stored found

  files :
      (x : WorkItem)
      → backed s.event_file x ≡ true
      → (backed first.event_file x ≡ true) × (backed second.event_file x ≡ true)
  unfolding insert_work_item update_work_state
  files x b = (b, ground arith)

  stores : IsStored first × IsStored second
  stores = (
    insert-IsStored (with_evidence the_evidence c w) s h.stored,
    update-IsStored task_id w.state submitted c first
        (insert-IsStored (with_evidence the_evidence c w) s h.stored),
  )

  submit_evidence_stored : IsStored (submit_evidence task_id commit sha workspace c w s).0
  unfolding submit_evidence
  submit_evidence_stored = ground (
    arith,
    stores,
    log-IsStored w.peer_id work_submitted the_payload c first stores.0,
    log-IsStored w.peer_id work_submitted the_payload c second stores.1,
  )

  submit_evidence_grows :
      (x : WorkItem)
      → backed s.event_file x ≡ true
      → backed (submit_evidence task_id commit sha workspace c w s).0.event_file x ≡ true
  unfolding submit_evidence
  submit_evidence_grows x b = ground (
    arith,
    files x b,
    backed-log w.peer_id work_submitted the_payload c first x,
    backed-log w.peer_id work_submitted the_payload c second x,
  )

  after_backed :
      (log : List Event) → backed log w ≡ true → backed log (after_report the_evidence c w) ≡ true
  unfolding backed
  after_backed log b = ground arith

  submit_evidence-IsSound : IsSound (submit_evidence task_id commit sha workspace c w s).0
  submit_evidence-IsSound =
      let b = submit_evidence_grows w (h.sound task_id w found) in
      set-IsSound s (submit_evidence task_id commit sha workspace c w s).0 true task_id
        (after_report the_evidence c w) h submit_evidence_stored submit_evidence_grows
        (get-submit_evidence task_id commit sha workspace c w s h.stored found)
        (λ y. after_backed (submit_evidence task_id commit sha workspace c w s).0.event_file b)

handle_completed-IsSound :
    (e : Env) (w : WorkItem) (commit : Option String) (task_id : String) (s : Store)
    → IsSound s
    → get_work_item task_id s ≡ some w
    → IsSound (handle_completed e w commit task_id s).0
unfolding handle_completed
handle_completed-IsSound e w none task_id s h found = h
handle_completed-IsSound e w (some commit) task_id s h found =
    elim (Result-cases (resolve_workspace_path w.peer_id s)) [
      | inl (x, r) ↦ ground (arith, h)
      | inr (workspace, r) ↦ ground (
        arith,
        h,
        submit_evidence-IsSound task_id commit
            (or_unknown (compute_commit_diff_sha e.tools workspace commit)) workspace e.clock w s h
            found,
      )
    ]

module _ (e : Env) (w : WorkItem) (error : Option String) (task_id : String) (s : Store)
    (h : IsSound s) (found : get_work_item task_id s ≡ some w) where
  abbrev failed_store : Store
  failed_store = (Failures.failing e w error task_id s h.stored found).0

  abbrev failed_payload : Json
  failed_payload = Failures.payload e w error task_id s h.stored found

  abbrev failed_type : EventType
  failed_type = Failures.event_type e w error task_id s h.stored found

  failed_file :
      (x : WorkItem) → backed s.event_file x ≡ true → backed failed_store.event_file x ≡ true
  unfolding update_work_state
  failed_file x b = ground arith

  failed_grows :
      (x : WorkItem)
      → backed s.event_file x ≡ true
      → backed (handle_failed e w error task_id s).0.event_file x ≡ true
  unfolding handle_failed
  failed_grows x b = ground (
    arith,
    failed_file x b,
    backed-log w.peer_id failed_type failed_payload e.clock s x b,
    backed-log w.peer_id failed_type failed_payload e.clock failed_store x,
  )

  failed_stored : IsStored (handle_failed e w error task_id s).0
  unfolding handle_failed
  failed_stored =
      let k = update-IsStored task_id w.state (failure_target w) e.clock s h.stored in
      ground (
        arith,
        k,
        log-IsStored w.peer_id failed_type failed_payload e.clock s h.stored,
        log-IsStored w.peer_id failed_type failed_payload e.clock failed_store k,
      )

  failed_backed :
      (log : List Event) → backed log (moved (failure_target w) e.clock.sql_now w) ≡ true
  unfolding backed
  failed_backed log = ground arith

  handle_failed-IsSound : IsSound (handle_failed e w error task_id s).0
  handle_failed-IsSound =
      set-IsSound s (handle_failed e w error task_id s).0 (takes_failure w.state) task_id
        (moved (failure_target w) e.clock.sql_now w) h failed_stored failed_grows
        (get-handle_failed e w error task_id s h.stored found)
        (λ y. failed_backed (handle_failed e w error task_id s).0.event_file)

dispatch_report-IsSound :
    (e : Env) (status : ReportStatus) (w : WorkItem) (r : ReportTask) (s : Store)
    → IsSound s
    → get_work_item r.task_id s ≡ some w
    → IsSound (dispatch_report e status w r s).0
unfolding dispatch_report handle_progress
dispatch_report-IsSound e ReportStatus.completed w r s h found =
    handle_completed-IsSound e w r.commit r.task_id s h found
dispatch_report-IsSound e ReportStatus.failed w r s h found =
    handle_failed-IsSound e w r.error r.task_id s h found
dispatch_report-IsSound e ReportStatus.progress w r s h found =
    log-IsSound w.peer_id agent_progress _ e.clock s h
dispatch_report-IsSound e ReportStatus.question w r s h found =
    log-IsSound w.peer_id agent_progress _ e.clock s h

report_on-IsSound :
    (e : Env) (status : ReportStatus) (r : ReportTask) (s : Store)
    → IsSound s
    → IsSound (report_on e status (get_work_item r.task_id s) r s).0
unfolding report_on
report_on-IsSound e status r s h = elim (Option-cases (get_work_item r.task_id s)) [
  | inl n ↦ ground (arith, h)
  | inr (w, found) ↦ ground (arith, h, dispatch_report-IsSound e status w r s h found)
]

-- A report keeps the items backed.
pub report_task-IsSound :
    (e : Env) (r : ReportTask) (s : Store) → IsSound s → IsSound (handle_report_task e r s).0
unfolding handle_report_task handle_report
report_task-IsSound e r s h = elim (Result-cases (from_str r.status)) [
  | inl (x, n) ↦ ground (arith, h)
  | inr (status, k) ↦ ground (arith, h, report_on-IsSound e status r s h)
]
