-- ===== src/Daemon/Requests/Refines.antt =====
-- The requests refine the life of the work items.
use anti_subagent.Prelude.{
  String, true, ◌||◌, ◌≡◌, sym, ap, ◌∙◌, Option, some, List, [], ◌∷◌, arith, ◌==◌, eq_iff,
  Bool-cases, inl, inr,
}
use mathlib.Core.Path.{subst}
use mathlib.Core.Option.{some-injective}
use anti_subagent.Core.Work.{WorkItemState, accepted, rejected, WorkItem, work_eq}
use anti_subagent.Store.Db.{Store}
use anti_subagent.Store.Works.{get_work_item}
use anti_subagent.Daemon.Wire.{Env}
use anti_subagent.Daemon.Backing.{IsSound}
use anti_subagent.Daemon.Lifecycle.{
  Kind, submission, review, verification, report, ItemStep, stays, opens, moves, takes, may_move,
  state_of, Steps,
}
use anti_subagent.Daemon.Review.Steps.{submit_work-Steps, review_work-Steps, verify_work-Steps}
use anti_subagent.Daemon.Reports.Steps.{report_task-Steps}
use anti_subagent.Daemon.Requests.{
  Request, submit_work, review_work, verify_work, report_task, serve, serve_all,
}
use anti_subagent.Daemon.Requests.Evidence.{serve-IsSound}

abbrev pub kind_of : Request → Kind
kind_of (submit_work id sha path secs) = submission
kind_of (review_work id verdict note) = review
kind_of (verify_work id profile) = verification
kind_of (report_task r) = report

-- The item that a request names.
abbrev pub named_item : Request → String
named_item (submit_work id sha path secs) = id
named_item (review_work id verdict note) = id
named_item (verify_work id profile) = id
named_item (report_task r) = r.task_id

-- Each of the requests takes one step of its kind, from the store that the requests before it left.
unfoldable pub EachSteps : List (Request × Env) → Store → Type 0
EachSteps [] s = Unit
EachSteps ((r, e) ∷ rs) s =
    Steps (kind_of r) (named_item r) s (serve r e s).0 × EachSteps rs (serve r e s).0

serve-Steps :
    (r : Request) (e : Env) (s : Store)
    → IsSound s
    → Steps (kind_of r) (named_item r) s (serve r e s).0
unfolding serve
serve-Steps (submit_work id sha path secs) e s h = submit_work-Steps id sha path secs e.clock s
serve-Steps (review_work id verdict note) e s h = review_work-Steps id verdict note e.clock s
serve-Steps (verify_work id profile) e s h = verify_work-Steps id profile e s
serve-Steps (report_task r) e s h = report_task-Steps e r s h.stored

-- The requests implement the life of a work item: each request takes a single step, in which the item that it
-- names moves as its kind of request may move it, or is opened as Submitted by a submission, or stays, and
-- every other item stays in its state, whatever the clock, cargo and git give. The store is a sound one, such
-- as the requests make from an empty store.
pub requests_refine : (rs : List (Request × Env)) (s : Store) → IsSound s → EachSteps rs s
unfolding EachSteps
requests_refine [] s h = tt
requests_refine ((r, e) ∷ rs) s h =
    (serve-Steps r e s h, requests_refine rs (serve r e s).0 (serve-IsSound r e s h))

closes :
    (k : Kind) (from to : WorkItemState)
    → (work_eq from accepted || work_eq from rejected) ≡ true
    → may_move k from to ≡ true
    → to ≡ from
unfolding may_move
closes k from to h m = ground arith

closed_step :
    (k : Kind) (a b : Option WorkItemState) (st : WorkItemState)
    → ItemStep k a b
    → a ≡ some st
    → (work_eq st accepted || work_eq st rejected) ≡ true
    → b ≡ some st
closed_step k a b st (stays e) h c = e ∙ h
closed_step k a b st (opens o e f) h c = absurd (cc (e, h))
closed_step k a b st (moves from to e f m) h c =
    let same : from ≡ st = some-injective from st (sym e ∙ h) in
    f ∙ ap some (closes k from to (rw same c) m ∙ same)

closed-Steps :
    (k : Kind) (own : String) (s t : Store) (id : String) (st : WorkItemState)
    → Steps k own s t
    → state_of id s ≡ some st
    → (work_eq st accepted || work_eq st rejected) ≡ true
    → state_of id t ≡ some st
closed-Steps k own s t id st (takes step others) h c = elim (Bool-cases (own == id)) [
  | inr n ↦ others id n ∙ h
  | inl y ↦
      let same = (eq_iff own id).0 y in
      subst (λ (x : String). state_of x t ≡ some st) same
        (closed_step k (state_of own s) (state_of own t) st step
          (subst (λ (x : String). state_of x s ≡ some st) (sym same) h) c)
]

closed_lives :
    (rs : List (Request × Env)) (s : Store) (id : String) (st : WorkItemState)
    → EachSteps rs s
    → state_of id s ≡ some st
    → (work_eq st accepted || work_eq st rejected) ≡ true
    → state_of id (serve_all rs s) ≡ some st
unfolding EachSteps serve_all
closed_lives [] s id st l h c = h
closed_lives ((r, e) ∷ rs) s id st (p, l) h c =
    closed_lives rs (serve r e s).0 id st l
      (closed-Steps (kind_of r) (named_item r) s (serve r e s).0 id st p h c) c

-- An item that is found Accepted or Rejected stays in that state, whatever requests follow. The store
-- is a sound one, such as the requests make from an empty store.
pub closed_items_stay :
    (rs : List (Request × Env)) (s : Store) (id : String) (w : WorkItem)
    → IsSound s
    → get_work_item id s ≡ some w
    → (work_eq w.state accepted || work_eq w.state rejected) ≡ true
    → state_of id (serve_all rs s) ≡ some w.state
closed_items_stay rs s id w h found c =
    closed_lives rs s id w.state (requests_refine rs s h) (ground (arith, found)) c
