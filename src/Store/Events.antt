-- ===== src/Store/Events.antt =====
-- The event log: `append_event` and `current_sequence` of crates/anti-daemon/src/store.rs.
pub mod Log
use anti_subagent.Prelude.{
  ℕ, String, Bool, true, false, ◌||◌, List, [], ◌∷◌, ◌++◌, Result, ok, err, Clock, nat_eq, add_u64,
  if◌then◌else◌,
}
use anti_subagent.Core.Events.{Json, EventType, Event, new_event}
use anti_subagent.Store.Db.{Store, StoreError, constraint}

abbrev pub has_seq : ℕ → List Event → Bool
has_seq n [] = false
has_seq n (e ∷ es) = nat_eq e.seq n || has_seq n es

-- The line goes to the file before the row goes to the table.
unfoldable pub append_event :
    String → EventType → Json → Clock → Store → Store × Result StoreError Event
append_event agent_id type_ payload c s =
    let seq = add_u64 s.event_seq 1 in
    let ev = new_event seq agent_id type_ payload c in
    let s' = record s { event_seq = seq; event_file = s.event_file ++ ev ∷ [] } in
    if has_seq seq s.events
    then (s', err (StoreError.sqlite constraint))
    else (record s' { events = s.events ++ ev ∷ [] }, ok ev)

-- `let _ = store.append_event(…)`.
abbrev pub log_event : String → EventType → Json → Clock → Store → Store
log_event agent_id type_ payload c s = (append_event agent_id type_ payload c s).0

unfoldable pub current_sequence : Store → ℕ
current_sequence s = s.event_seq
