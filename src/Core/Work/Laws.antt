-- ===== src/Core/Work/Laws.antt =====
-- What the operations of a work item keep, over any sequence of them.
use mathlib.Core.List.{Memᴰ}
use anti_subagent.Prelude.{
  ℕ, suc, ◌+◌, ◌≤◌, ◌<◌, String, Bool, true, false, ◌&&◌, ◌≡◌, sym, ◌≢◌, ◌⊎◌, inl, inr, ◌↔◌, List,
  [], ◌∷◌, arith, is_ok, Clock, if◌then◌else◌,
}
use anti_subagent.Core.Work.{
  WorkItemState, verified, accepted, needs_revision, rejected, exhausted, cancelled, is_terminal,
  EvidenceRef, WorkItem, new, can_transition, Outcome, transition, reject, submit,
}

-- Each state in turn is reached from the one before it.
unfoldable pub follows : WorkItemState → List WorkItemState → Bool
follows s [] = true
follows s (t ∷ ts) = can_transition s t && follows t ts

unfoldable pub final_state : WorkItemState → List WorkItemState → WorkItemState
final_state s [] = s
final_state s (t ∷ ts) = final_state t ts

step-accepted :
    (s t : WorkItemState)
    → can_transition s t ≡ true
    → t ≡ accepted
    → (s ≡ accepted) ⊎ (s ≡ verified)
unfolding can_transition
step-accepted s t h e = ground arith

-- A sequence of work states that follows the table and ends in Accepted starts there or goes through
-- Verified.
pub accepted_needs_verified :
    (s : WorkItemState) (ts : List WorkItemState)
    → follows s ts ≡ true
    → final_state s ts ≡ accepted
    → (s ≡ accepted) ⊎ Memᴰ verified (s ∷ ts)
unfolding follows final_state
accepted_needs_verified s [] f e = inl e
accepted_needs_verified s (t ∷ ts) f e = elim (accepted_needs_verified t ts (ground arith) e) [
  | inl a ↦ elim (step-accepted s t (ground arith) a) [
    | inl b ↦ inl b
    | inr v ↦ inr (Memᴰ.head (sym v))
  ]
  | inr m ↦ inr (Memᴰ.tail m)
]

-- Cancelling is possible from the states that are neither terminal nor NeedsRevision, and from
-- Cancelled itself.
pub cancel_iff :
    (s : WorkItemState)
    → (can_transition s cancelled ≡ true)
      ↔ (((is_terminal s ≡ false) × (s ≢ needs_revision)) ⊎ (s ≡ cancelled))
unfolding can_transition is_terminal
cancel_iff s = ground arith

-- Out of a terminal state there is one step to another state: from Rejected to Exhausted.
pub terminal_step :
    (s t : WorkItemState)
    → is_terminal s ≡ true
    → can_transition s t ≡ true
    → (t ≡ s) ⊎ ((s ≡ rejected) × (t ≡ exhausted))
unfolding can_transition is_terminal
terminal_step s t h e = ground arith

-- The calls that change an item.
pub data WorkOp : Type 0 where
  transitioning : WorkItemState → Clock → WorkOp
  rejecting : String → String → Clock → WorkOp
  submitting : EvidenceRef → ℕ → Clock → WorkOp

unfoldable pub apply : WorkItem → WorkOp → Outcome
apply w (transitioning to c) = transition w to c
apply w (rejecting lead_id verdict c) = reject w lead_id verdict c
apply w (submitting e secs c) = submit w e secs c

unfoldable pub run : WorkItem → List WorkOp → WorkItem
run w [] = w
run w (o ∷ os) = run (apply w o).0 os

is_rejecting : WorkOp → Bool
is_rejecting (rejecting lead_id verdict c) = true
is_rejecting _ = false

-- How many calls of `reject` succeed.
unfoldable pub rejections : WorkItem → List WorkOp → ℕ
unfolding is_rejecting
rejections w [] = 0
rejections w (o ∷ os) =
    let rest = rejections (apply w o).0 os in
    if is_rejecting o && is_ok (apply w o).1 then suc rest else rest

pub record IsCounted (w : WorkItem) : Type 0 where
  pub small : w.max_revisions < 4294967295
  pub capped : w.revision ≤ w.max_revisions + 1
  pub spent : w.max_revisions < w.revision → (w.state ≡ rejected) ⊎ (w.state ≡ exhausted)

apply-IsCounted : (w : WorkItem) (o : WorkOp) → IsCounted w → IsCounted (apply w o).0
unfolding apply transition reject submit can_transition
apply-IsCounted w (transitioning to c) h = ground arith
apply-IsCounted w (rejecting lead_id verdict c) h = ground arith
apply-IsCounted w (submitting e secs c) h = ground arith

apply_counts :
    (w : WorkItem) (o : WorkOp)
    → IsCounted w
    → ((apply w o).0.revision
        ≡ (if is_rejecting o && is_ok (apply w o).1 then suc w.revision else w.revision))
      × ((apply w o).0.max_revisions ≡ w.max_revisions)
unfolding apply transition reject submit can_transition is_rejecting
apply_counts w (transitioning to c) h = ground arith
apply_counts w (rejecting lead_id verdict c) h = ground arith
apply_counts w (submitting e secs c) h = ground arith

pub run-IsCounted : (w : WorkItem) (os : List WorkOp) → IsCounted w → IsCounted (run w os)
unfolding run
run-IsCounted w [] h = h
run-IsCounted w (o ∷ os) h = run-IsCounted (apply w o).0 os (apply-IsCounted w o h)

revision-run :
    (w : WorkItem) (os : List WorkOp)
    → IsCounted w
    → ((run w os).revision ≡ w.revision + rejections w os)
      × ((run w os).max_revisions ≡ w.max_revisions)
unfolding run rejections
revision-run w [] h = ground arith
revision-run w (o ∷ os) h =
    ground (arith, apply_counts w o h, revision-run (apply w o).0 os (apply-IsCounted w o h))

new-IsCounted : (id peer_id : String) (c : Clock) → IsCounted (new id peer_id c)
unfolding new
new-IsCounted id peer_id c = ground arith

-- Over any calls on a new item the revision is one more than the number of rejections that
-- succeeded, there are at most three of these, and after the third the item is Rejected or
-- Exhausted.
pub revision_counts_rejections :
    (id peer_id : String) (c : Clock) (os : List WorkOp)
    → ((run (new id peer_id c) os).revision ≡ 1 + rejections (new id peer_id c) os)
      × (rejections (new id peer_id c) os ≤ 3)
      × (rejections (new id peer_id c) os ≡ 3
          → ((run (new id peer_id c) os).state ≡ rejected)
            ⊎ ((run (new id peer_id c) os).state ≡ exhausted))
unfolding new
revision_counts_rejections id peer_id c os = ground (
  arith,
  revision-run (new id peer_id c) os (new-IsCounted id peer_id c),
  run-IsCounted (new id peer_id c) os (new-IsCounted id peer_id c),
)

-- A call that fails leaves the item as it was.
pub failed_call_unchanged :
    (w : WorkItem) (o : WorkOp) → is_ok (apply w o).1 ≡ false → (apply w o).0 ≡ w
unfolding apply transition reject submit
failed_call_unchanged w (transitioning to c) h = ground arith
failed_call_unchanged w (rejecting lead_id verdict c) h = ground arith
failed_call_unchanged w (submitting e secs c) h = ground arith
