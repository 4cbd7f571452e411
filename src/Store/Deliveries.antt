-- ===== src/Store/Deliveries.antt =====
-- The deliveries of tasks to peers, the table dispatch_events of the store
-- (crates/anti-daemon/src/store.rs).
pub mod Laws
use anti_subagent.Prelude.{
  ℕ, String, Bool, true, false, Option, none, some, List, [], ◌∷◌, map, Result, ok, err, Clock,
  map_option, ◌==◌, str_lt, nat_eq, retain, if◌then◌else◌,
}
use anti_subagent.Prelude.Table.{insert_row, update_rows, changed_rows}
use anti_subagent.Core.Dispatch.{
  DispatchStatus, DispatchOutcome, DispatchEvent, can_transition_dispatch,
}
use anti_subagent.Store.Codec.{
  dispatch_text, parse_dispatch_status, outcome_text, parse_dispatch_outcome,
}
use anti_subagent.Store.Db.{
  DispatchRow, Store, SqliteError, StoreError, constraint, not_allowed, mismatch, not_found,
}

abbrev pub delivery_id : DispatchRow → String
delivery_id r = r.id

unfoldable pub row_of : DispatchEvent → DispatchRow
row_of e = record {
  id = e.id;
  task_id = e.task_id;
  peer_id = e.peer_id;
  status = dispatch_text e.status;
  outcome = map_option outcome_text e.outcome;
  created_at = e.created_at;
  updated_at = e.updated_at;
}

-- `and_then(|o| parse_dispatch_outcome(&o))`.
abbrev outcome_of : Option String → Option DispatchOutcome
outcome_of none = none
outcome_of (some o) = parse_dispatch_outcome o

unfoldable pub event_of : DispatchRow → DispatchEvent
event_of r = record {
  id = r.id;
  task_id = r.task_id;
  peer_id = r.peer_id;
  status = parse_dispatch_status r.status;
  outcome = outcome_of r.outcome;
  created_at = r.created_at;
  updated_at = r.updated_at;
}

abbrev pub Done : Type 0
Done = Store × Result StoreError (Unit {0})

unfoldable pub insert_dispatch_event : DispatchEvent → Store → Done
insert_dispatch_event e s = elim (insert_row delivery_id (row_of e) s.dispatch_events) [
  | none ↦ (s, err (StoreError.sqlite constraint))
  | some t ↦ (record s { dispatch_events = t }, ok tt)
]

-- The optimistic lock on the status of a delivery.
unfoldable pub update_dispatch_status :
    String → DispatchStatus → DispatchStatus → Clock → Store → Done
update_dispatch_status id expected to c s =
    let holds = λ (r : DispatchRow). r.status == dispatch_text expected in
    if can_transition_dispatch expected to
    then (
      record s {
        dispatch_events =
            update_rows delivery_id id holds
              (λ r. record r { status = dispatch_text to; updated_at = c.sql_now })
              s.dispatch_events;
      },
      if nat_eq (changed_rows delivery_id id holds s.dispatch_events) 0
          then err (StoreError.sqlite (mismatch id))
          else ok tt,
    )
    else (s, err (StoreError.sqlite (not_allowed expected to)))

unfoldable pub record_dispatch_outcome : String → DispatchOutcome → Clock → Store → Done
record_dispatch_outcome id outcome c s =
    let any_row = λ (r : DispatchRow). true in
    (
      record s {
        dispatch_events =
            update_rows delivery_id id any_row
              (λ r. record r { outcome = some (outcome_text outcome); updated_at = c.sql_now })
              s.dispatch_events;
      },
      if nat_eq (changed_rows delivery_id id any_row s.dispatch_events) 0
          then err (StoreError.sqlite (not_found id))
          else ok tt,
    )

-- ORDER BY created_at; rows of one time stay in the order of their insertion.
insert_by_time : DispatchRow → List DispatchRow → List DispatchRow
insert_by_time r [] = r ∷ []
insert_by_time r (x ∷ xs) =
    let rest = insert_by_time r xs in
    if str_lt x.created_at r.created_at then x ∷ rest else r ∷ x ∷ xs

unfoldable pub order_by_time : List DispatchRow → List DispatchRow
unfolding insert_by_time
order_by_time [] = []
order_by_time (r ∷ rows) = insert_by_time r (order_by_time rows)

unfoldable pub get_dispatch_events_by_task : String → Store → List DispatchEvent
get_dispatch_events_by_task task_id s =
    map event_of
      (order_by_time (retain (λ (r : DispatchRow). r.task_id == task_id) s.dispatch_events))

unfoldable pub get_dispatch_events_by_peer : String → Store → List DispatchEvent
get_dispatch_events_by_peer peer_id s =
    map event_of
      (order_by_time (retain (λ (r : DispatchRow). r.peer_id == peer_id) s.dispatch_events))
