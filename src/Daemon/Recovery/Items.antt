-- ===== src/Daemon/Recovery/Items.antt =====
-- What recovery does to the work items.
use anti_subagent.Prelude.{
  String, Bool, true, false, ◌&&◌, ◌||◌, ◌≡◌, refl, none, some, List, [], ◌∷◌, map, arith,
  map_option, Clock, ◌==◌, eq_iff, eq_refl, ltb, All, if◌then◌else◌,
}
use anti_subagent.Prelude.Table.{find_row, has_row, has-row-find, IsKeyed}
use anti_subagent.Core.Model.{AgentRecord}
use anti_subagent.Core.Work.{
  WorkItemState, pending, in_progress, submitted, needs_revision, failed, WorkItem, work_eq,
  can_transition,
}
use anti_subagent.Core.Events.{agent_progress}
use anti_subagent.Store.Db.{WorkRow, Store}
use anti_subagent.Store.Works.{work_id, item_of, get_work_item, list_work_items, update_work_state}
use anti_subagent.Store.Works.Laws.{IsStored, get-update, update-IsStored}
use anti_subagent.Store.Works.States.{update_found_ok, get-log, log-IsStored}
use anti_subagent.Daemon.Recovery.{
  is_dead, recovery_target, recovery_payload, recover_item, recover_items, recover_work_items,
}

-- An item after recovery: one of a dead peer that was Submitted needs a revision while it has
-- revisions left, and else is Failed, which the store gives back as Pending.
abbrev pub recovered : List AgentRecord → Clock → WorkItem → WorkItem
recovered dead c w =
    if is_dead dead w.peer_id && work_eq w.state submitted
    then record w {
      state = if ltb w.revision w.max_revisions then needs_revision else pending;
      updated_at = c.sql_now;
    }
    else w

targets :
    (a : WorkItemState) (again : Bool)
    → (work_eq a in_progress || work_eq a submitted) ≡ true
    → (work_eq a pending ≡ false)
      × (can_transition a (if again then needs_revision else failed) ≡ work_eq a submitted)
unfolding can_transition
targets a again h = ground arith

module _ (dead : List AgentRecord) (c : Clock) (w : WorkItem) (s : Store) (h : IsStored s) where
  abbrev locked : Store
  locked = (update_work_state w.id w.state (recovery_target w) c s).0

  recover_item-IsStored : IsStored (recover_item dead c w s)
  unfolding recover_item
  recover_item-IsStored =
      let k = update-IsStored w.id w.state (recovery_target w) c s h in
      ground (arith, h, k, log-IsStored w.peer_id agent_progress (recovery_payload w) c locked k)

  get-recover_item :
      get_work_item w.id s ≡ some w
      → (j : String)
      → get_work_item j (recover_item dead c w s)
        ≡ (if w.id == j then some (recovered dead c w) else get_work_item j s)
  unfolding recover_item
  get-recover_item found j = ground (
    arith,
    targets w.state (ltb w.revision w.max_revisions),
    found,
    update_found_ok w.id (recovery_target w) c s h found,
    get-update w.id j w.state (recovery_target w) c s h,
    get-log j w.peer_id agent_progress (recovery_payload w) c locked,
    eq_iff w.id j,
  )

-- The rows whose items a lookup gives.
abbrev IsFound : Store → List WorkRow → Type 0
IsFound s rows = All (λ (r : WorkRow). get_work_item r.id s ≡ some (item_of r)) rows

IsFound-kept :
    (id : String) (rows : List WorkRow) (s s' : Store)
    → has_row work_id id rows ≡ false
    → ((j : String) → (id == j) ≡ false → get_work_item j s' ≡ get_work_item j s)
    → IsFound s rows
    → IsFound s' rows
IsFound-kept id [] s s' n same h = tt
IsFound-kept id (r ∷ rows) s s' n same h = (
  ground (arith, same r.id, h.0, eq_iff id r.id, eq_iff r.id id),
  IsFound-kept id rows s s' (ground arith) same h.1,
)

get-recover_row :
    (dead : List AgentRecord) (c : Clock) (r : WorkRow) (s : Store)
    → IsStored s
    → get_work_item r.id s ≡ some (item_of r)
    → (j : String)
    → get_work_item j (recover_item dead c (item_of r) s)
      ≡ (if r.id == j then some (recovered dead c (item_of r)) else get_work_item j s)
unfolding item_of
get-recover_row dead c r s h found j = get-recover_item dead c (item_of r) s h found j

get-recover_items :
    (dead : List AgentRecord) (c : Clock) (rows : List WorkRow) (s : Store)
    → IsStored s
    → IsKeyed work_id rows
    → IsFound s rows
    → (j : String)
    → get_work_item j (recover_items dead c (map item_of rows) s) ≡ (
        if has_row work_id j rows
        then map_option (recovered dead c) (get_work_item j s)
        else get_work_item j s)
unfolding recover_items
get-recover_items dead c [] s h k f j = refl
get-recover_items dead c (r ∷ rows) s h k f j =
    let s' = recover_item dead c (item_of r) s in
    let step = get-recover_row dead c r s h f.0 in
    ground (
      arith,
      step j,
      f.0,
      k.0,
      eq_iff r.id j,
      get-recover_items dead c rows s' (recover_item-IsStored dead c (item_of r) s h) k.1
          (IsFound-kept r.id rows s s' k.0 (λ i n. ground (arith, step i)) f.1) j,
    )

row-found :
    (rows : List WorkRow)
    → IsKeyed work_id rows
    → All (λ (r : WorkRow). find_row work_id r.id rows ≡ some r) rows
row-found [] k = tt
row-found (r ∷ rows) k = (ground (arith, eq_refl r.id), later r rows rows k.0 (row-found rows k.1))
  where
    later :
        (r : WorkRow) (rows part : List WorkRow)
        → has_row work_id r.id part ≡ false
        → All (λ (x : WorkRow). find_row work_id x.id rows ≡ some x) part
        → All (λ (x : WorkRow). find_row work_id x.id (r ∷ rows) ≡ some x) part
    later r rows [] n f = tt
    later r rows (x ∷ part) n f = (
      ground (arith, f.0, eq_iff r.id x.id, eq_iff x.id r.id),
      later r rows part (ground arith) f.1,
    )

item-IsFound :
    (s : Store) (part : List WorkRow)
    → All (λ (r : WorkRow). find_row work_id r.id s.work_items ≡ some r) part
    → IsFound s part
unfolding get_work_item
item-IsFound s [] f = tt
item-IsFound s (r ∷ part) f = (ground (arith, f.0), item-IsFound s part f.1)

get-absent :
    (j : String) (s : Store) → has_row work_id j s.work_items ≡ false → get_work_item j s ≡ none
unfolding get_work_item
get-absent j s n = ground (arith, has-row-find work_id j s.work_items n)

-- Recovery moves exactly the Submitted items of dead peers: to NeedsRevision while they have revisions
-- left, and else to Failed, which the store gives back as Pending. Every other item, also one that a
-- dead peer had in progress, is found as before.
-- It is assumed that no two work items of the table share an id.
pub recover_work_items_lem :
    (dead : List AgentRecord) (c : Clock) (s : Store)
    → IsStored s
    → (j : String)
    → get_work_item j (recover_work_items dead c s)
      ≡ map_option (recovered dead c) (get_work_item j s)
unfolding recover_work_items list_work_items
recover_work_items_lem dead c s h j = ground (
  arith,
  get-recover_items dead c s.work_items s h h
      (item-IsFound s s.work_items (row-found s.work_items h)) j,
  get-absent j s,
)
