-- ===== src/Core/Work.antt =====
-- The life of a work item (crates/anti-core/src/work.rs). A method on `&mut self` returns the new
-- item with its result; `chrono::Utc` is the `Clock` argument.
pub mod Laws
use anti_subagent.Prelude.{
  ℕ, String, Bool, true, false, ◌||◌, Option, none, some, Result, ok, err, Clock, nat_eq, ltb,
  add_u32, if◌then◌else◌,
}

pub data WorkItemState : Type 0 where
  pending in_progress submitted verified accepted needs_revision rejected received explored planned
        executing executed verifying failed fixing exhausted cancelled :
      WorkItemState

-- The discriminants, which the derived `==` compares.
abbrev pub work_tag : WorkItemState → ℕ
work_tag pending = 0
work_tag in_progress = 1
work_tag submitted = 2
work_tag verified = 3
work_tag accepted = 4
work_tag needs_revision = 5
work_tag rejected = 6
work_tag received = 7
work_tag explored = 8
work_tag planned = 9
work_tag executing = 10
work_tag executed = 11
work_tag verifying = 12
work_tag failed = 13
work_tag fixing = 14
work_tag exhausted = 15
work_tag cancelled = 16

abbrev pub work_eq : WorkItemState → WorkItemState → Bool
work_eq a b = nat_eq (work_tag a) (work_tag b)

unfoldable pub is_terminal : WorkItemState → Bool
is_terminal accepted = true
is_terminal rejected = true
is_terminal failed = true
is_terminal exhausted = true
is_terminal cancelled = true
is_terminal _ = false

unfoldable pub to_staged : WorkItemState → WorkItemState
to_staged pending = received
to_staged in_progress = executing
to_staged submitted = executed
to_staged verified = verified
to_staged accepted = accepted
to_staged needs_revision = fixing
to_staged rejected = rejected
to_staged other = other

pub record EvidenceRef : Type 0 where
  pub sha256 : String
  pub artifact_path : String
  pub produced_at : String

pub record WorkItem : Type 0 where
  pub id : String
  pub task_node_id : String
  pub peer_id : String
  pub lead_id : String
  pub state : WorkItemState
  pub revision : ℕ
  pub max_revisions : ℕ
  pub evidence : Option EvidenceRef
  pub review_verdict : Option String
  pub submitted_at : Option String
  pub review_deadline : Option String
  pub created_at : String
  pub updated_at : String

unfoldable pub new : String → String → Clock → WorkItem
new id peer_id c = record {
  id = id;
  task_node_id = "";
  peer_id = peer_id;
  lead_id = "";
  state = pending;
  revision = 1;
  max_revisions = 3;
  evidence = none;
  review_verdict = none;
  submitted_at = none;
  review_deadline = none;
  created_at = c.now;
  updated_at = c.now;
}

pub data WorkTransitionError : Type 0 where
  invalid : WorkItemState → WorkItemState → WorkTransitionError

table : WorkItemState → WorkItemState → Bool
table pending in_progress = true
table in_progress submitted = true
table in_progress rejected = true
table submitted verified = true
table submitted needs_revision = true
table submitted failed = true
table verified accepted = true
table verified needs_revision = true
table needs_revision in_progress = true
table needs_revision rejected = true
table needs_revision failed = true
table received explored = true
table explored planned = true
table planned executing = true
table executing executed = true
table executing failed = true
table executed verifying = true
table verifying verified = true
table verifying rejected = true
table verifying fixing = true
table fixing executing = true
table rejected exhausted = true
table fixing exhausted = true
table received cancelled = true
table explored cancelled = true
table planned cancelled = true
table executing cancelled = true
table executed cancelled = true
table verifying cancelled = true
table fixing cancelled = true
table pending cancelled = true
table in_progress cancelled = true
table submitted cancelled = true
table verified cancelled = true
table _ _ = false

unfoldable pub can_transition : WorkItemState → WorkItemState → Bool
unfolding table
can_transition from to = if work_eq from to then true else table from to

abbrev pub Outcome : Type 0
Outcome = WorkItem × Result WorkTransitionError (Unit {0})

unfoldable pub transition : WorkItem → WorkItemState → Clock → Outcome
transition w to c =
    if can_transition w.state to
    then (record w { state = to; updated_at = c.now }, ok tt)
    else (w, err (invalid w.state to))

-- Reject: only from Submitted or Verified; the revision is bumped, and past `max_revisions` the
-- item is Rejected for good.
unfoldable pub reject : WorkItem → String → String → Clock → Outcome
reject w lead_id verdict c =
    if work_eq w.state submitted || work_eq w.state verified
    then (
      record w {
        review_verdict = some verdict;
        lead_id = lead_id;
        revision = add_u32 w.revision 1;
        state = if ltb w.max_revisions (add_u32 w.revision 1) then rejected else needs_revision;
        updated_at = c.now;
      },
      ok tt,
    )
    else (w, err (invalid w.state needs_revision))

unfoldable pub submit : WorkItem → EvidenceRef → ℕ → Clock → Outcome
submit w evidence review_timeout_secs c =
    if work_eq w.state in_progress || work_eq w.state needs_revision
    then (
      record w {
        evidence = some evidence;
        submitted_at = some c.now;
        review_deadline = some (c.later review_timeout_secs);
        state = submitted;
        updated_at = c.now;
      },
      ok tt,
    )
    else (w, err (invalid w.state submitted))
