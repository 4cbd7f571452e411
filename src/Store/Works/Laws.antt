-- ===== src/Store/Works/Laws.antt =====
-- What a work item is after it has been stored, and after its state has been updated in place.
use anti_subagent.Prelude.{
  String, Bool, true, false, ◌&&◌, ◌≡◌, refl, Option, none, some, arith, is_ok, Clock, map_option,
  ◌==◌, eq_iff, Option-cases, inl, inr, if◌then◌else◌,
}
use anti_subagent.Prelude.Table.{
  find_row, IsKeyed, find-replace, find-update, changed-find, update-IsKeyed, replace-IsKeyed,
}
use anti_subagent.Core.Work.{WorkItemState, pending, WorkItem, can_transition}
use anti_subagent.Store.Codec.{work_text, parse_work_state}
use anti_subagent.Store.Codec.RoundTrips.{is_legacy, parse-work}
use anti_subagent.Store.Db.{WorkRow, Store}
use anti_subagent.Store.Works.{
  work_id, row_of, item_of, insert_work_item, get_work_item, update_work_state,
}

-- A state as it comes back from the store.
abbrev pub reloaded : WorkItemState → WorkItemState
reloaded s = if is_legacy s then s else pending

item-row : (w : WorkItem) → item_of (row_of w) ≡ record w { state = reloaded w.state }
unfolding item_of row_of
item-row w = ground (arith, parse-work w.state)

id-row : (w : WorkItem) → (row_of w).id ≡ w.id
unfolding row_of
id-row w = refl

state-item : (r : WorkRow) → (item_of r).state ≡ parse_work_state r.state
unfolding item_of
state-item r = refl

-- After INSERT OR REPLACE of an item, every lookup gives that item under its id, with its state as
-- the store gives it back, and under another id what was there before.
pub get-insert :
    (w : WorkItem) (j : String) (s : Store)
    → get_work_item j (insert_work_item w s)
      ≡ (if w.id == j then some (record w { state = reloaded w.state }) else get_work_item j s)
unfolding get_work_item insert_work_item
get-insert w j s =
    ground (arith, find-replace work_id j (row_of w) s.work_items, item-row w, id-row w)

abbrev pub IsStored : Store → Type 0
IsStored s = IsKeyed work_id s.work_items

pub insert-IsStored : (w : WorkItem) (s : Store) → IsStored s → IsStored (insert_work_item w s)
unfolding insert_work_item
insert-IsStored w s h = replace-IsKeyed work_id (row_of w) s.work_items h

pub update-IsStored :
    (id : String) (from to : WorkItemState) (c : Clock) (s : Store)
    → IsStored s
    → IsStored (update_work_state id from to c s).0
unfolding update_work_state
update-IsStored id from to c s h = ground (
  arith,
  update-IsKeyed work_id id (λ (r : WorkRow). r.state == work_text from)
      (λ r. record r { state = work_text to; updated_at = c.sql_now }) s.work_items (λ r. refl) h,
)

-- The text of the state that a row has in the table.
abbrev pub stored_state : String → Store → Option String
stored_state id s = map_option (λ (r : WorkRow). r.state) (find_row work_id id s.work_items)

abbrev pub is_text : String → Option String → Bool
is_text t none = false
is_text t (some u) = u == t

-- The optimistic lock succeeds exactly where the table allows the step and the stored text is that
-- of the expected state.
-- It is assumed that no two work items of the table share an id.
pub update_ok :
    (id : String) (from to : WorkItemState) (c : Clock) (s : Store)
    → IsStored s
    → is_ok (update_work_state id from to c s).1
      ≡ (can_transition from to && is_text (work_text from) (stored_state id s))
unfolding update_work_state
update_ok id from to c s h =
    ground
      (arith, changed-find work_id id (λ (r : WorkRow). r.state == work_text from) s.work_items h)

kept-update :
    (id j : String) (from to : WorkItemState) (c : Clock) (s : Store)
    → IsStored s
    → is_ok (update_work_state id from to c s).1 ≡ false
    → get_work_item j (update_work_state id from to c s).0 ≡ get_work_item j s
unfolding update_work_state get_work_item
kept-update id j from to c s h f = ground (
  arith,
  changed-find work_id id (λ (r : WorkRow). r.state == work_text from) s.work_items h,
  find-update work_id id j (λ (r : WorkRow). r.state == work_text from)
      (λ r. record r { state = work_text to; updated_at = c.sql_now }) s.work_items (λ r. refl),
  eq_iff id j,
)

item-set :
    (r : WorkRow) (to : WorkItemState) (now : String)
    → item_of (record r { state = work_text to; updated_at = now })
      ≡ record (item_of r) { state = reloaded to; updated_at = now }
unfolding item_of
item-set r to now = ground (arith, parse-work to)

abbrev pub moved : WorkItemState → String → WorkItem → WorkItem
moved to now w = record w { state = reloaded to; updated_at = now }

set-update :
    (id j : String) (from to : WorkItemState) (c : Clock) (s : Store) (r : WorkRow)
    → IsStored s
    → is_ok (update_work_state id from to c s).1 ≡ true
    → find_row work_id j s.work_items ≡ some r
    → get_work_item j (update_work_state id from to c s).0
      ≡ (if id == j then some (moved to c.sql_now (item_of r)) else some (item_of r))
unfolding update_work_state get_work_item
set-update id j from to c s r h f e = ground (
  arith,
  changed-find work_id id (λ (r : WorkRow). r.state == work_text from) s.work_items h,
  find-update work_id id j (λ (r : WorkRow). r.state == work_text from)
      (λ r. record r { state = work_text to; updated_at = c.sql_now }) s.work_items (λ r. refl),
  eq_iff id j,
  item-set r to c.sql_now,
)

set_absent :
    (id j : String) (from to : WorkItemState) (c : Clock) (s : Store)
    → find_row work_id j s.work_items ≡ none
    → (get_work_item j (update_work_state id from to c s).0 ≡ none) × (get_work_item j s ≡ none)
unfolding update_work_state get_work_item
set_absent id j from to c s e = ground (
  arith,
  find-update work_id id j (λ (r : WorkRow). r.state == work_text from)
      (λ r. record r { state = work_text to; updated_at = c.sql_now }) s.work_items (λ r. refl),
)

get-find :
    (j : String) (s : Store) (r : WorkRow)
    → find_row work_id j s.work_items ≡ some r
    → get_work_item j s ≡ some (item_of r)
unfolding get_work_item
get-find j s r e = rw e

-- What a lookup gives after `update_work_state`: where the update succeeded and for its id, the item
-- with the new state as the store gives it back and SQLite's time; in every other case what it gave
-- before.
-- It is assumed that no two work items of the table share an id.
pub get-update :
    (id j : String) (from to : WorkItemState) (c : Clock) (s : Store)
    → IsStored s
    → get_work_item j (update_work_state id from to c s).0 ≡ (
        if is_ok (update_work_state id from to c s).1 && id == j
        then map_option (moved to c.sql_now) (get_work_item j s)
        else get_work_item j s)
get-update id j from to c s h = elim (Option-cases (find_row work_id j s.work_items)) [
  | inl e ↦ ground (arith, set_absent id j from to c s e)
  | inr (r, e) ↦
      ground
        (arith, get-find j s r e, set-update id j from to c s r h, kept-update id j from to c s h)
]
