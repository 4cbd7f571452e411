-- ===== src/Core/Capsule.antt =====
-- The view of the project that a peer is given (crates/anti-core/src/capsule.rs). Texts are measured in
-- bytes; `String::truncate` and a slice panic inside a character, which is none. The decimal digits of a
-- number are an argument.
pub mod Laws
use Prim.Native.String.{slice, len, ◌++◌}
use text.Mathlib.Text.{is_char_boundary}
use anti_subagent.Prelude.{
  ℕ, String, Bool, true, false, Option, none, some, List, [], ◌∷◌, leb, min, if◌then◌else◌,
}
use anti_subagent.Core.Work.{WorkItemState, EvidenceRef, WorkItem}

abbrev pub capsule_budget : ℕ
capsule_budget = 65536

pub record CapsuleInput : Type 0 where
  pub peer_id : String
  pub task : String
  pub work_items : List WorkItem
  pub recent_events : List String

-- `format!("{:?}", w.state)`.
abbrev state_name : WorkItemState → String
state_name WorkItemState.pending = "Pending"
state_name WorkItemState.in_progress = "InProgress"
state_name WorkItemState.submitted = "Submitted"
state_name WorkItemState.verified = "Verified"
state_name WorkItemState.accepted = "Accepted"
state_name WorkItemState.needs_revision = "NeedsRevision"
state_name WorkItemState.rejected = "Rejected"
state_name WorkItemState.received = "Received"
state_name WorkItemState.explored = "Explored"
state_name WorkItemState.planned = "Planned"
state_name WorkItemState.executing = "Executing"
state_name WorkItemState.executed = "Executed"
state_name WorkItemState.verifying = "Verifying"
state_name WorkItemState.failed = "Failed"
state_name WorkItemState.fixing = "Fixing"
state_name WorkItemState.exhausted = "Exhausted"
state_name WorkItemState.cancelled = "Cancelled"

-- `&text[..k]`.
abbrev prefix : String → ℕ → Option String
prefix text k = if is_char_boundary text k then some (slice text 0 k) else none

evidence_prefix : Option EvidenceRef → Option String
evidence_prefix none = some "-"
evidence_prefix (some e) = prefix e.sha256 (min 8 (len e.sha256))

abbrev item_line : (ℕ → String) → WorkItem → String → String
item_line digits w sha =
    "- "
    ++ w.id
    ++ " ["
    ++ state_name w.state
    ++ "] rev="
    ++ digits w.revision
    ++ " evidence="
    ++ sha
    ++ "\n"

render_items : (ℕ → String) → List WorkItem → String → Option String
unfolding evidence_prefix
render_items digits [] out = some out
render_items digits (w ∷ ws) out = elim (evidence_prefix w.evidence) [
  | none ↦ none
  | some sha ↦ render_items digits ws (out ++ item_line digits w sha)
]

abbrev pub marker : String
marker = "\n...[truncated]\n"

-- The loop over the events; the text is cut after the first event that takes it over the budget.
unfoldable pub render_events : List String → String → Option String
render_events [] out = some out
render_events (e ∷ es) out =
    let longer = out ++ e ++ "\n" in
    let rest = render_events es longer in
    if leb (len longer) capsule_budget
    then rest
    else if is_char_boundary longer capsule_budget
    then some (slice longer 0 capsule_budget ++ marker)
    else none

-- What stands before the events.
unfoldable pub render_head : (ℕ → String) → CapsuleInput → Option String
unfolding render_items
render_head digits i =
    render_items digits i.work_items
      ("# ANTI CAPSULE — peer " ++ i.peer_id ++ "\n## TASK\n" ++ i.task ++ "\n## WORK ITEMS\n")

unfoldable pub render_capsule : (ℕ → String) → CapsuleInput → Option String
render_capsule digits i = elim (render_head digits i) [
  | none ↦ none
  | some head ↦ render_events i.recent_events (head ++ "## RECENT EVENTS\n")
]
