-- ===== src/Store/Deliveries/Laws.antt =====
-- What the store keeps of a delivery.
use anti_subagent.Prelude.{
  String, Bool, false, ◌&&◌, ◌||◌, ◌≡◌, refl, ◌∙◌, Option, none, some, List, [], ◌∷◌, map, arith,
  is_ok, map_option, Clock, ◌==◌, eq_iff, str_lt, is_none, retain, any, Bool-cases, All,
  Option-cases, inl, inr, if◌then◌else◌,
}
use anti_subagent.Prelude.Table.{
  find_row, IsKeyed, find-append, find-update, changed-find, has-row-find, find-has-row, All-find,
}
use anti_subagent.Core.Dispatch.{
  DispatchStatus, DispatchOutcome, DispatchEvent, dispatch_eq, can_transition_dispatch,
}
use anti_subagent.Store.Codec.{dispatch_text, parse_dispatch_status, outcome_text}
use anti_subagent.Store.Codec.RoundTrips.{parse-dispatch, parse-outcome, dispatch_text_eq}
use anti_subagent.Store.Db.{DispatchRow, Store}
use anti_subagent.Store.Deliveries.{
  delivery_id, row_of, event_of, outcome_of, insert_dispatch_event, update_dispatch_status,
  get_dispatch_events_by_task, order_by_time, insert_by_time,
}

outcome-row : (o : Option DispatchOutcome) → outcome_of (map_option outcome_text o) ≡ o
outcome-row none = refl
outcome-row (some x) = parse-outcome x

event-row : (e : DispatchEvent) → event_of (row_of e) ≡ e
unfolding event_of row_of
event-row e = ground (arith, parse-dispatch e.status, outcome-row e.outcome)

id-row : (e : DispatchEvent) → (row_of e).id ≡ e.id
unfolding row_of
id-row e = refl

-- A delivery as a lookup of its row gives it.
abbrev pub delivery : String → Store → Option DispatchEvent
delivery id s = map_option event_of (find_row delivery_id id s.dispatch_events)

-- Every delivery has a text of a status, and no two share an id.
pub record IsDelivered (s : Store) : Type 0 where
  pub keyed : IsKeyed delivery_id s.dispatch_events
  pub typed :
      All
        (λ (r : DispatchRow). dispatch_text (parse_dispatch_status r.status) ≡ r.status)
        s.dispatch_events

abbrev pub has_dispatch_status : DispatchStatus → Option DispatchEvent → Bool
has_dispatch_status d none = false
has_dispatch_status d (some e) = dispatch_eq e.status d

text_status :
    (r : DispatchRow) (d : DispatchStatus)
    → dispatch_text (parse_dispatch_status r.status) ≡ r.status
    → (r.status == dispatch_text d) ≡ dispatch_eq (event_of r).status d
unfolding event_of
text_status r d h = rw (← h, parse-dispatch, dispatch_text_eq)

-- Inserting a delivery succeeds exactly where its id is free, and then a lookup gives the very
-- delivery under its id and under another id what it gave before.
pub insert_dispatch_event_lem :
    (e : DispatchEvent) (j : String) (s : Store)
    → (is_ok (insert_dispatch_event e s).1 ≡ is_none (delivery e.id s))
      × (delivery j (insert_dispatch_event e s).0
          ≡ (if is_none (delivery e.id s) && e.id == j then some e else delivery j s))
unfolding insert_dispatch_event
insert_dispatch_event_lem e j s = ground (
  arith,
  find-append delivery_id j (row_of e) s.dispatch_events,
  has-row-find delivery_id e.id s.dispatch_events,
  find-has-row delivery_id e.id s.dispatch_events,
  id-row e,
  event-row e,
  eq_iff e.id j,
)

abbrev pub dispatched : DispatchStatus → Clock → DispatchEvent → DispatchEvent
dispatched to c e = record e { status = to; updated_at = c.sql_now }

event-status :
    (r : DispatchRow) (to : DispatchStatus) (c : Clock)
    → event_of (record r { status = dispatch_text to; updated_at = c.sql_now })
      ≡ dispatched to c (event_of r)
unfolding event_of
event-status r to c = ground (arith, parse-dispatch to)

-- The status of a delivery changes exactly where the table allows the step and the delivery has the
-- expected status; then that delivery alone has the new status and time, and otherwise no delivery
-- changes.
-- It is assumed that no two deliveries share an id and that each has the text of a status.
pub update_dispatch_status_lem :
    (id j : String) (expected to : DispatchStatus) (c : Clock) (s : Store)
    → IsDelivered s
    → (is_ok (update_dispatch_status id expected to c s).1
        ≡ (can_transition_dispatch expected to && has_dispatch_status expected (delivery id s)))
      × (delivery j (update_dispatch_status id expected to c s).0 ≡ (
          if can_transition_dispatch expected to
            && has_dispatch_status expected (delivery id s)
            && id == j
          then map_option (dispatched to c) (delivery j s)
          else delivery j s))
unfolding update_dispatch_status
update_dispatch_status_lem id j expected to c s h =
    let holds = λ (r : DispatchRow). r.status == dispatch_text expected in
    let set = λ (r : DispatchRow). record r { status = dispatch_text to; updated_at = c.sql_now } in
    let changed = changed-find delivery_id id holds s.dispatch_events h.keyed in
    let found = find-update delivery_id id j holds set s.dispatch_events (λ r. refl) in
    elim (Option-cases (find_row delivery_id id s.dispatch_events)) [
      | inl e ↦ ground (arith, changed, found, e, eq_iff id j)
      | inr (r, e) ↦ ground (
        arith,
        changed,
        found,
        e,
        eq_iff id j,
        text_status r expected (
            All-find delivery_id
              (λ (r : DispatchRow). dispatch_text (parse_dispatch_status r.status) ≡ r.status) id
              s.dispatch_events h.typed e),
        event-status r to c,
      )
    ]

any-insert :
    (p : DispatchRow → Bool) (r : DispatchRow) (rows : List DispatchRow)
    → any p (insert_by_time r rows) ≡ (p r || any p rows)
unfolding insert_by_time
any-insert p r [] = ground arith
any-insert p r (x ∷ rows) =
    ground (arith, any-insert p r rows, Bool-cases (str_lt x.created_at r.created_at))

any-order :
    (p : DispatchRow → Bool) (rows : List DispatchRow) → any p (order_by_time rows) ≡ any p rows
unfolding order_by_time
any-order p [] = refl
any-order p (r ∷ rows) = ground (arith, any-insert p r (order_by_time rows), any-order p rows)

any-retain :
    (p q : DispatchRow → Bool) (rows : List DispatchRow)
    → any p (retain q rows) ≡ any (λ r. q r && p r) rows
any-retain p q [] = refl
any-retain p q (r ∷ rows) = ground (arith, any-retain p q rows)

any-events :
    (p : DispatchEvent → Bool) (rows : List DispatchRow)
    → any p (map event_of rows) ≡ any (λ r. p (event_of r)) rows
any-events p [] = refl
any-events p (r ∷ rows) = ground (arith, any-events p rows)

-- The deliveries that are listed for a task are those of the table with this task: a test holds of one
-- of the former exactly where it holds of one of the latter.
pub listed_by_task :
    (p : DispatchEvent → Bool) (task_id : String) (s : Store)
    → any p (get_dispatch_events_by_task task_id s)
      ≡ any (λ (r : DispatchRow). r.task_id == task_id && p (event_of r)) s.dispatch_events
unfolding get_dispatch_events_by_task
listed_by_task p task_id s =
    let q = λ (r : DispatchRow). r.task_id == task_id in
    any-events p (order_by_time (retain q s.dispatch_events))
    ∙ any-order (λ (r : DispatchRow). p (event_of r)) (retain q s.dispatch_events)
    ∙ any-retain (λ (r : DispatchRow). p (event_of r)) q s.dispatch_events
