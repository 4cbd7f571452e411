-- ===== src/Daemon/Lifecycle.antt =====
-- What the requests promise of the life of a work item: the steps that a client sees, apart from how the
-- store and the handlers of crates/anti-daemon/src make them.
use anti_subagent.Prelude.{
  String, Bool, true, false, ◌&&◌, ◌||◌, ◌≡◌, ◌⊎◌, refl, Option, none, some, arith, map_option,
  ◌==◌, eq_refl, Bool-cases, inl, inr, if◌then◌else◌,
}
use anti_subagent.Core.Work.{
  WorkItemState, pending, in_progress, submitted, verified, accepted, needs_revision, rejected,
  WorkItem, work_eq,
}
use anti_subagent.Store.Db.{Store}
use anti_subagent.Store.Works.{get_work_item}

-- The requests that change work items.
pub data Kind : Type 0 where
  submission review verification report : Kind

-- Work is handed in by a submission or a report, verified by a verification, and accepted, given back
-- or rejected by a review; an item whose failure is reported is seen as Pending.
abbrev allowed : Kind → WorkItemState → WorkItemState → Bool
allowed submission in_progress submitted = true
allowed submission needs_revision submitted = true
allowed verification submitted verified = true
allowed review verified accepted = true
allowed review submitted needs_revision = true
allowed review verified needs_revision = true
allowed review submitted rejected = true
allowed review verified rejected = true
allowed report in_progress submitted = true
allowed report submitted needs_revision = true
allowed report submitted pending = true
allowed report needs_revision pending = true
allowed _ _ _ = false

unfoldable pub may_move : Kind → WorkItemState → WorkItemState → Bool
may_move k from to = work_eq from to || allowed k from to

-- One step of one item; none is an item that does not exist.
pub data ItemStep (k : Kind) (a b : Option WorkItemState) : Type 0 where
  stays : b ≡ a → ItemStep k a b
  opens : k ≡ submission → a ≡ none → b ≡ some submitted → ItemStep k a b
  moves :
      (from to : WorkItemState)
      → a ≡ some from
      → b ≡ some to
      → may_move k from to ≡ true
      → ItemStep k a b

abbrev item_state : WorkItem → WorkItemState
item_state w = w.state

abbrev pub state_of : String → Store → Option WorkItemState
state_of id s = map_option item_state (get_work_item id s)

-- The item that a request names takes a step of its kind, and the others stay.
pub data Steps (k : Kind) (id : String) (s s' : Store) : Type 0 where
  takes :
      ItemStep k (state_of id s) (state_of id s')
      → ((j : String) → (id == j) ≡ false → state_of j s' ≡ state_of j s)
      → Steps k id s s'

module _ (k : Kind) (id : String) (s s' : Store) where
  pub same-Steps : ((j : String) → get_work_item j s' ≡ get_work_item j s) → Steps k id s s'
  same-Steps h = takes (stays (ground (arith, h id))) (λ j n. ground (arith, h j))

  pub set-Steps :
      (b : Bool) (w w' : WorkItem)
      → get_work_item id s ≡ some w
      → ((j : String) → get_work_item j s' ≡ (if b && id == j then some w' else get_work_item j s))
      → (b ≡ true → may_move k w.state w'.state ≡ true)
      → Steps k id s s'
  set-Steps b w w' found got legal = elim (Bool-cases b) [
    | inl y ↦
        takes
          (moves w.state w'.state (ground (arith, found)) (ground (arith, got id, eq_refl id))
            (legal y))
          (λ j n. ground (arith, got j))
    | inr n ↦ same-Steps (λ j. ground (arith, got j))
  ]

pub open-Steps :
    (id : String) (s s' : Store) (w' : WorkItem)
    → get_work_item id s ≡ none
    → w'.state ≡ submitted
    → ((j : String) → get_work_item j s' ≡ (if id == j then some w' else get_work_item j s))
    → Steps submission id s s'
open-Steps id s s' w' absent st got =
    takes (opens refl (ground (arith, absent)) (ground (arith, got id, eq_refl id)))
      (λ j n. ground (arith, got j))

pub refl-Steps : (k : Kind) (id : String) (s : Store) → Steps k id s s
refl-Steps k id s = same-Steps k id s s (λ j. refl)

-- A request that leaves the store, or does what another step does.
pub either-Steps :
    (k : Kind) (id : String) (s t u : Store) → (t ≡ s) ⊎ (t ≡ u) → Steps k id s u → Steps k id s t
either-Steps k id s t u (inl e) p = rw e (refl-Steps k id s)
either-Steps k id s t u (inr e) p = rw e p
