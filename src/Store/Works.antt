-- ===== src/Store/Works.antt =====
-- The work items of the store (crates/anti-daemon/src/store.rs).
pub mod Laws
pub mod States
use anti_subagent.Prelude.{
  ℕ, String, Bool, true, false, ◌&&◌, Option, none, some, List, map, Result, ok, err, map_option,
  Clock, ◌==◌, str_lt, nat_eq, retain, if◌then◌else◌,
}
use anti_subagent.Prelude.Table.{find_row, replace_row, update_rows, changed_rows}
use anti_subagent.Core.Work.{WorkItemState, EvidenceRef, WorkItem, invalid, can_transition}
use anti_subagent.Store.Codec.{work_text, parse_work_state}
use anti_subagent.Store.Db.{WorkRow, Store, StoreError}

abbrev pub work_id : WorkRow → String
work_id r = r.id

unfoldable pub row_of : WorkItem → WorkRow
row_of w = record {
  id = w.id;
  task_node_id = w.task_node_id;
  peer_id = w.peer_id;
  lead_id = w.lead_id;
  state = work_text w.state;
  revision = w.revision;
  max_revisions = w.max_revisions;
  evidence_sha256 = map_option (λ (e : EvidenceRef). e.sha256) w.evidence;
  evidence_path = map_option (λ (e : EvidenceRef). e.artifact_path) w.evidence;
  evidence_at = map_option (λ (e : EvidenceRef). e.produced_at) w.evidence;
  review_verdict = w.review_verdict;
  submitted_at = w.submitted_at;
  review_deadline = w.review_deadline;
  created_at = w.created_at;
  updated_at = w.updated_at;
}

-- The evidence columns are an evidence only where none of them is NULL.
abbrev pub evidence_of : Option String → Option String → Option String → Option EvidenceRef
evidence_of (some sha) (some path) (some at) =
    some (record { sha256 = sha; artifact_path = path; produced_at = at })
evidence_of _ _ _ = none

unfoldable pub item_of : WorkRow → WorkItem
item_of r = record {
  id = r.id;
  task_node_id = r.task_node_id;
  peer_id = r.peer_id;
  lead_id = r.lead_id;
  state = parse_work_state r.state;
  revision = r.revision;
  max_revisions = r.max_revisions;
  evidence = evidence_of r.evidence_sha256 r.evidence_path r.evidence_at;
  review_verdict = r.review_verdict;
  submitted_at = r.submitted_at;
  review_deadline = r.review_deadline;
  created_at = r.created_at;
  updated_at = r.updated_at;
}

-- INSERT OR REPLACE.
unfoldable pub insert_work_item : WorkItem → Store → Store
insert_work_item w s = record s { work_items = replace_row work_id (row_of w) s.work_items }

unfoldable pub get_work_item : String → Store → Option WorkItem
get_work_item id s = map_option item_of (find_row work_id id s.work_items)

-- The optimistic lock: the row changes only while its state has the expected text.
unfoldable pub update_work_state :
    String → WorkItemState → WorkItemState → Clock → Store → Store × Result StoreError (Unit {0})
update_work_state id expected to c s =
    let holds = λ (r : WorkRow). r.state == work_text expected in
    let s' = record s {
      work_items =
          update_rows work_id id holds
            (λ r. record r { state = work_text to; updated_at = c.sql_now }) s.work_items;
    } in
    if can_transition expected to
    then (
      s',
      if nat_eq (changed_rows work_id id holds s.work_items) 0
          then err (StoreError.work_transition (invalid expected to))
          else ok tt,
    )
    else (s, err (StoreError.work_transition (invalid expected to)))

unfoldable pub list_work_items : Option WorkItemState → Store → List WorkItem
list_work_items none s = map item_of s.work_items
list_work_items (some state) s = map item_of (retain (λ r. r.state == work_text state) s.work_items)

abbrev pub is_overdue : String → WorkRow → Bool
is_overdue now r =
    r.state == "Submitted" && elim r.review_deadline [ none ↦ false | some d ↦ str_lt d now ]

unfoldable pub overdue_reviews : String → Store → List WorkItem
overdue_reviews now s = map item_of (retain (is_overdue now) s.work_items)
