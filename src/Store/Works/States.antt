-- ===== src/Store/Works/States.antt =====
-- How the states that are read relate to the texts that are stored.
use anti_subagent.Prelude.{
  String, true, false, ◌≡◌, some, arith, is_ok, Clock, ◌==◌, eq_iff, Option-cases, inl, inr,
  if◌then◌else◌,
}
use anti_subagent.Prelude.Table.{find_row, find-replace, find-key}
use anti_subagent.Core.Work.{WorkItemState, pending, WorkItem, work_eq, can_transition}
use anti_subagent.Store.Codec.{work_text, parse_work_state}
use anti_subagent.Store.Codec.RoundTrips.{is_legacy}
use anti_subagent.Core.Events.{EventType, Json}
use anti_subagent.Store.Events.{append_event, log_event}
use anti_subagent.Store.Db.{Store}
use anti_subagent.Store.Works.{
  work_id, row_of, item_of, insert_work_item, get_work_item, update_work_state,
}
use anti_subagent.Store.Works.Laws.{IsStored, stored_state, update_ok}

parse_legacy : (t : String) → is_legacy (parse_work_state t) ≡ true
unfolding parse_work_state
parse_legacy t = ground arith

parse_text :
    (t : String)
    → work_eq (parse_work_state t) pending ≡ false
    → (t == work_text (parse_work_state t)) ≡ true
unfolding parse_work_state work_text
parse_text t h = ground (arith, eq_iff t "InProgress")

get_parts :
    (id : String) (s : Store) {w : WorkItem}
    → get_work_item id s ≡ some w
    → (t : String) × (stored_state id s ≡ some t)
      × (parse_work_state t ≡ w.state)
      × ((w.id == id) ≡ true)
unfolding get_work_item item_of
get_parts id s {w} h = elim (Option-cases (find_row work_id id s.work_items)) [
  | inl e ↦ cc (h, e)
  | inr (r, e) ↦
      (r.state, ground arith, ground arith, ground (arith, find-key work_id id s.work_items e))
]

-- An item that is found has the id that was asked for, and one of the legacy states.
pub get-id : (id : String) (s : Store) {w : WorkItem} → get_work_item id s ≡ some w → w.id ≡ id
get-id id s {w} h = (eq_iff w.id id).0 (get_parts id s h).3

pub get-legacy :
    (id : String) (s : Store) {w : WorkItem}
    → get_work_item id s ≡ some w
    → is_legacy w.state ≡ true
get-legacy id s {w} h = ground (arith, get_parts id s h, parse_legacy (get_parts id s h).0)

-- For an item that is found in a state other than Pending, the optimistic lock is decided by the
-- table alone.
pub update_found_ok :
    (id : String) (to : WorkItemState) (c : Clock) (s : Store) {w : WorkItem}
    → IsStored s
    → get_work_item id s ≡ some w
    → work_eq w.state pending ≡ false
    → is_ok (update_work_state id w.state to c s).1 ≡ can_transition w.state to
update_found_ok id to c s {w} h e n =
    let p = get_parts id s e in ground (arith, update_ok id w.state to c s h, p, parse_text p.0)

pub stored-insert :
    (w : WorkItem) (j : String) (s : Store)
    → stored_state j (insert_work_item w s)
      ≡ (if w.id == j then some (work_text w.state) else stored_state j s)
unfolding insert_work_item row_of
stored-insert w j s = ground (arith, find-replace work_id j (row_of w) s.work_items)

-- The log leaves the items alone.
pub get-log :
    (j id : String) (t : EventType) (p : Json) (c : Clock) (s : Store)
    → get_work_item j (log_event id t p c s) ≡ get_work_item j s
unfolding append_event get_work_item
get-log j id t p c s = ground arith

pub log-IsStored :
    (id : String) (t : EventType) (p : Json) (c : Clock) (s : Store)
    → IsStored s
    → IsStored (log_event id t p c s)
unfolding append_event
log-IsStored id t p c s h = ground arith
