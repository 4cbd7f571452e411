-- ===== src/Store/Events/Log.antt =====
-- The invariant of the event log.
use anti_subagent.Prelude.{
  ℕ, suc, ◌+◌, ◌<◌, String, false, add_u64, ◌≡◌, refl, List, [], ◌∷◌, ◌++◌, arith, ok, Clock,
  length, length-append,
}
use anti_subagent.Core.Events.{Json, EventType, Event, new_event}
use anti_subagent.Store.Db.{Store}
use anti_subagent.Store.Events.{has_seq, append_event}

-- The sequence numbers n + 1, n + 2, … in order.
abbrev pub IsNumbered : ℕ → List Event → Type 0
IsNumbered n [] = Unit {0}
IsNumbered n (e ∷ es) = (e.seq ≡ suc n) × IsNumbered (suc n) es

-- The file and the table hold the same events, numbered from 1 without a gap.
pub record IsLogged (s : Store) : Type 0 where
  pub same : s.event_file ≡ s.events
  pub numbered : IsNumbered 0 s.events
  pub last : s.event_seq ≡ length s.events

append-IsNumbered :
    (n : ℕ) (es : List Event) (e : Event)
    → IsNumbered n es
    → e.seq ≡ suc (n + length es)
    → IsNumbered n (es ++ e ∷ [])
append-IsNumbered n [] e h k = (ground arith, tt)
append-IsNumbered n (x ∷ es) e h k = (h.0, append-IsNumbered (suc n) es e h.1 (omega arith))

numbered-fresh :
    (n m : ℕ) (es : List Event) → IsNumbered n es → n + length es < m → has_seq m es ≡ false
numbered-fresh n m [] h k = refl
numbered-fresh n m (e ∷ es) h k = ground (arith, numbered-fresh (suc n) m es h.1)

abbrev added : String → EventType → Json → Clock → Store → Store
added id t p c s =
    let ev = new_event (s.event_seq + 1) id t p c in
    record s {
      events = s.events ++ ev ∷ [];
      event_seq = s.event_seq + 1;
      event_file = s.event_file ++ ev ∷ [];
    }

append_lem :
    (id : String) (t : EventType) (p : Json) (c : Clock) (s : Store)
    → IsLogged s
    → s.event_seq < 18446744073709551615
    → append_event id t p c s ≡ (added id t p c s, ok (new_event (s.event_seq + 1) id t p c))
unfolding append_event
append_lem id t p c s h k =
    let e : add_u64 s.event_seq 1 ≡ s.event_seq + 1 = omega arith in
    rw e (rw (numbered-fresh 0 (s.event_seq + 1) s.events h.numbered (omega arith)))

added-IsLogged :
    (id : String) (t : EventType) (p : Json) (c : Clock) (s : Store)
    → IsLogged s
    → IsLogged (added id t p c s)
added-IsLogged id t p c s h = record {
  same = cc;
  numbered =
      append-IsNumbered 0 s.events (new_event (s.event_seq + 1) id t p c) h.numbered (omega arith);
  last = omega (arith, length-append s.events (new_event (s.event_seq + 1) id t p c ∷ []));
}

-- While the counter has not reached 2^64 - 1, an append succeeds, adds one event with the next number
-- to the end of the file and of the table, and keeps the log well-formed.
-- It is assumed that the log is well-formed before.
pub append-IsLogged :
    (id : String) (t : EventType) (p : Json) (c : Clock) (s : Store)
    → IsLogged s
    → s.event_seq < 18446744073709551615
    → ((append_event id t p c s).1 ≡ ok (new_event (s.event_seq + 1) id t p c))
      × ((append_event id t p c s).0.events ≡ s.events ++ new_event (s.event_seq + 1) id t p c ∷ [])
      × IsLogged (append_event id t p c s).0
unfolding append_event
append-IsLogged id t p c s h k =
    rw (append_lem id t p c s h k) (refl, refl, added-IsLogged id t p c s h)
