-- ===== src/Daemon/Reports/Laws.antt =====
-- What the reports of a peer do to its work item.
use anti_subagent.Prelude.{
  String, true, false, ◌&&◌, ◌||◌, not, ◌≡◌, some, arith, Result, ok, is_ok, map_option, Clock,
  ◌==◌, eq_refl, if◌then◌else◌,
}
use anti_subagent.Core.Work.{
  WorkItemState, pending, in_progress, submitted, needs_revision, EvidenceRef, WorkItem, work_eq,
  can_transition,
}
use anti_subagent.Core.Report.{ReportStatus, from_str}
use anti_subagent.Core.Events.{Json, obj, field, str, end, work_submitted}
use anti_subagent.Store.Db.{Store, StoreError}
use anti_subagent.Store.Works.{insert_work_item, get_work_item, update_work_state}
use anti_subagent.Store.Works.Laws.{IsStored, moved, get-insert, get-update, insert-IsStored}
use anti_subagent.Store.Works.States.{get-id, get-legacy, update_found_ok, get-log}
use anti_subagent.Daemon.Wire.{Env}
use anti_subagent.Daemon.Reports.{
  ReportTask, submit_evidence, handle_report, resolve_workspace_path, verify_commit_in_workspace,
  compute_commit_diff_sha, or_unknown,
}

-- The item with the evidence of a report.
abbrev pub with_evidence : EvidenceRef → Clock → WorkItem → WorkItem
with_evidence e c w = record w {
  evidence = some e;
  submitted_at = some c.now;
  review_deadline = some (c.later 600);
}

-- The item after a report of completion.
abbrev pub after_report : EvidenceRef → Clock → WorkItem → WorkItem
after_report e c w =
    if work_eq w.state in_progress
    then moved submitted c.sql_now (with_evidence e c w)
    else with_evidence e c w

submits :
    (a : WorkItemState)
    → (work_eq a in_progress || work_eq a needs_revision ≡ true)
    → (can_transition a submitted ≡ work_eq a in_progress) × (work_eq a pending ≡ false)
unfolding can_transition
submits a h = ground arith

module _ (task_id commit evidence_sha workspace : String) (c : Clock) (w : WorkItem) (s : Store)
    (h : IsStored s) (found : get_work_item task_id s ≡ some w) where
  abbrev pub evidence : EvidenceRef
  evidence = record { sha256 = evidence_sha; artifact_path = workspace; produced_at = c.now }

  abbrev pub saved : Store
  saved = insert_work_item (with_evidence evidence c w) s

  get-saved :
      (j : String)
      → get_work_item j saved
        ≡ (if task_id == j then some (with_evidence evidence c w) else get_work_item j s)
  get-saved j = ground (
    arith,
    get-insert (with_evidence evidence c w) j s,
    get-id task_id s found,
    get-legacy task_id s found,
  )

  abbrev pub payload : Json
  payload = obj (
      field "task_id" (str task_id)
        (field "commit" (str commit) (field "evidence_sha" (str evidence_sha) end)))

  abbrev pub locked : Store × Result StoreError (Unit {0})
  locked = update_work_state task_id w.state submitted c saved

  saved-found : get_work_item task_id saved ≡ some (with_evidence evidence c w)
  saved-found = ground (arith, get-saved task_id, eq_refl task_id)

  locked_ok :
      work_eq w.state in_progress || work_eq w.state needs_revision ≡ true
      → is_ok locked.1 ≡ work_eq w.state in_progress
  locked_ok n = ground (
    arith,
    update_found_ok task_id submitted c saved (insert-IsStored (with_evidence evidence c w) s h)
        saved-found,
    submits w.state,
  )

  pub submit_evidence_ok :
      is_ok (submit_evidence task_id commit evidence_sha workspace c w s).1
      ≡ not (work_eq w.state needs_revision)
  unfolding submit_evidence
  submit_evidence_ok = ground (arith, locked_ok)

  get-locked :
      (j : String)
      → get_work_item j locked.0 ≡ (
          if is_ok locked.1 && task_id == j
          then map_option (moved submitted c.sql_now) (get_work_item j saved)
          else get_work_item j saved)
  get-locked j =
      get-update task_id j w.state submitted c saved
        (insert-IsStored (with_evidence evidence c w) s h)

  pub get-submit_evidence :
      (j : String)
      → get_work_item j (submit_evidence task_id commit evidence_sha workspace c w s).0
        ≡ (if task_id == j then some (after_report evidence c w) else get_work_item j s)
  unfolding submit_evidence
  get-submit_evidence j = ground (
    arith,
    locked_ok,
    get-locked j,
    get-saved j,
    get-log j w.peer_id work_submitted payload c saved,
    get-log j w.peer_id work_submitted payload c locked.0,
  )

completed_runs :
    (e : Env) (r : ReportTask) (commit workspace : String) (w : WorkItem) (s : Store)
    → from_str r.status ≡ ok ReportStatus.completed
    → (r.task_id == "") ≡ false
    → get_work_item r.task_id s ≡ some w
    → (w.peer_id == "") ≡ false
    → r.commit ≡ some commit
    → resolve_workspace_path w.peer_id s ≡ ok workspace
    → verify_commit_in_workspace e.tools workspace commit ≡ ok tt
    → handle_report e r s
      ≡ submit_evidence r.task_id commit
          (or_unknown (compute_commit_diff_sha e.tools workspace commit))
          workspace
          e.clock
          w
          s
unfolding handle_report
completed_runs e r commit workspace w s st t found p k ws v = ground arith

-- A report of completion that passes the checks (the task is found and has a peer, the commit is given
-- and git knows it in the peer's workspace) records the commit's evidence on the item whatever its
-- state. Only an item in progress becomes Submitted. The report is refused exactly for an item that
-- needs a revision, and then too the evidence is recorded. No other item changes.
-- It is assumed that no two work items of the table share an id.
pub completed_report :
    (e : Env) (r : ReportTask) (commit workspace : String) (w : WorkItem) (s : Store)
    → IsStored s
    → from_str r.status ≡ ok ReportStatus.completed
    → (r.task_id == "") ≡ false
    → get_work_item r.task_id s ≡ some w
    → (w.peer_id == "") ≡ false
    → r.commit ≡ some commit
    → resolve_workspace_path w.peer_id s ≡ ok workspace
    → verify_commit_in_workspace e.tools workspace commit ≡ ok tt
    → let sha = or_unknown (compute_commit_diff_sha e.tools workspace commit) in
      let evidence : EvidenceRef = record {
        sha256 = sha;
        artifact_path = workspace;
        produced_at = e.clock.now;
      } in
      (is_ok (handle_report e r s).1 ≡ not (work_eq w.state needs_revision))
      × ((j : String)
          → get_work_item j (handle_report e r s).0 ≡ (
              if r.task_id == j then some (after_report evidence e.clock w) else get_work_item j s))
completed_report e r commit workspace w s h st t found p k ws v =
    let sha = or_unknown (compute_commit_diff_sha e.tools workspace commit) in
    let run = completed_runs e r commit workspace w s st t found p k ws v in
    (
      rw run (submit_evidence_ok r.task_id commit sha workspace e.clock w s h found),
      λ j. rw run (get-submit_evidence r.task_id commit sha workspace e.clock w s h found j),
    )
