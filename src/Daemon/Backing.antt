-- ===== src/Daemon/Backing.antt =====
-- What the state of a work item must be backed by, and how a change of the store keeps that.
use mathlib.Core.Path.{subst}
use mathlib.Core.Option.{some-injective}
use anti_subagent.Prelude.{
  ℕ, String, Bool, true, false, ◌&&◌, ◌||◌, not, ◌≡◌, some, List, [], ◌∷◌, ◌++◌, arith, Clock, ◌==◌,
  any, ◌⊎◌, add_u64, is_some, Bool-cases, inl, inr, if◌then◌else◌,
}
use anti_subagent.Core.Work.{submitted, verified, accepted, WorkItem, work_eq}
use anti_subagent.Core.Events.{
  Json, str, obj, field, EventType, work_verified, work_accepted, Event, new_event,
}
use anti_subagent.Store.Db.{Store}
use anti_subagent.Store.Events.{append_event, log_event}
use anti_subagent.Store.Works.{insert_work_item, get_work_item}
use anti_subagent.Store.Codec.RoundTrips.{is_legacy}
use anti_subagent.Store.Works.Laws.{IsStored, get-insert, insert-IsStored}
use anti_subagent.Store.Works.States.{get-log, log-IsStored}

abbrev is_str : String → Json → Bool
is_str v (str u) = u == v
is_str v _ = false

abbrev pub has_field : String → String → Json → Bool
has_field k v (obj (field j x rest)) = j == k && is_str v x
has_field k v _ = false

abbrev is_verified_event : EventType → Bool
is_verified_event work_verified = true
is_verified_event _ = false

abbrev is_accepted_event : EventType → Bool
is_accepted_event work_accepted = true
is_accepted_event _ = false

-- A WorkVerified event of the item whose status is "Pass".
abbrev pub is_pass : String → Event → Bool
is_pass id e =
    e.agent_id == id && (is_verified_event e.type_ && has_field "status" "Pass" e.payload)

abbrev pub is_acceptance : String → Event → Bool
is_acceptance id e = e.agent_id == id && is_accepted_event e.type_

-- A Submitted, Verified or Accepted item has an evidence; for a Verified or Accepted one the log has
-- a WorkVerified event with status "Pass", and for an Accepted one a WorkAccepted event.
unfoldable pub backed : List Event → WorkItem → Bool
backed log w =
    (not (work_eq w.state submitted || work_eq w.state verified || work_eq w.state accepted)
      || is_some w.evidence)
    && ((not (work_eq w.state verified || work_eq w.state accepted) || any (is_pass w.id) log)
        && (not (work_eq w.state accepted) || any (is_acceptance w.id) log))

pub record IsSound (s : Store) : Type 0 where
  pub stored : IsStored s
  pub sound :
      (id : String) (w : WorkItem) → get_work_item id s ≡ some w → backed s.event_file w ≡ true

any-append :
    (p : Event → Bool) (log : List Event) (e : Event) → any p (log ++ e ∷ []) ≡ (any p log || p e)
any-append p [] e = ground arith
any-append p (x ∷ log) e = ground (arith, any-append p log e)

backed-append :
    (log : List Event) (e : Event) (w : WorkItem)
    → backed log w ≡ true
    → backed (log ++ e ∷ []) w ≡ true
unfolding backed
backed-append log e w h =
    ground (arith, any-append (is_pass w.id) log e, any-append (is_acceptance w.id) log e)

pub log-file :
    (id : String) (t : EventType) (p : Json) (c : Clock) (s : Store)
    → (n : ℕ) × ((log_event id t p c s).event_file ≡ s.event_file ++ new_event n id t p c ∷ [])
unfolding append_event
log-file id t p c s = (add_u64 s.event_seq 1, ground arith)

pub backed-log :
    (id : String) (t : EventType) (p : Json) (c : Clock) (s : Store) (w : WorkItem)
    → backed s.event_file w ≡ true
    → backed (log_event id t p c s).event_file w ≡ true
backed-log id t p c s w h =
    let (n, e) = log-file id t p c s in rw e (backed-append s.event_file (new_event n id t p c) w h)

-- A change that sets the item of at most one id.
pub set-IsSound :
    (s s' : Store) (b : Bool) (id : String) (w : WorkItem)
    → IsSound s
    → IsStored s'
    → ((x : WorkItem) → backed s.event_file x ≡ true → backed s'.event_file x ≡ true)
    → ((j : String) → get_work_item j s' ≡ (if b && id == j then some w else get_work_item j s))
    → (b ≡ true → backed s'.event_file w ≡ true)
    → IsSound s'
set-IsSound s s' b id w h stored grows got new = record {
  stored = stored;
  sound = λ j x e. go j x e (got j) (Bool-cases (b && id == j));
}
  where
    go :
        (j : String) (x : WorkItem)
        → get_work_item j s' ≡ some x
        → get_work_item j s' ≡ (if b && id == j then some w else get_work_item j s)
        → ((b && id == j) ≡ true) ⊎ ((b && id == j) ≡ false)
        → backed s'.event_file x ≡ true
    go j x e g (inl y) =
        subst (λ (v : WorkItem). backed s'.event_file v ≡ true) (some-injective w x (ground arith))
          (new (ground arith))
    go j x e g (inr n) = grows x (h.sound j x (ground arith))

pub log-IsSound :
    (id : String) (t : EventType) (p : Json) (c : Clock) (s : Store)
    → IsSound s
    → IsSound (log_event id t p c s)
log-IsSound id t p c s h = record {
  stored = log-IsStored id t p c s h.stored;
  sound = λ j x e. backed-log id t p c s x (h.sound j x (ground (arith, get-log j id t p c s)));
}

module _ (w : WorkItem) (id : String) (t : EventType) (p : Json) (c : Clock) (s : Store) where
  abbrev pub saved : Store
  saved = log_event id t p c (insert_work_item w s)

  saved-file : (x : WorkItem) → backed s.event_file x ≡ true → backed saved.event_file x ≡ true
  unfolding insert_work_item
  saved-file x h = backed-log id t p c (insert_work_item w s) x h

  -- The save of an item with an event that backs it.
  pub save-IsSound :
      IsSound s
      → w.id ≡ id
      → is_legacy w.state ≡ true
      → backed saved.event_file w ≡ true
      → IsSound saved
  save-IsSound h e l b =
      set-IsSound s saved true id w h
        (log-IsStored id t p c (insert_work_item w s) (insert-IsStored w s h.stored)) saved-file
        (λ j. ground (arith, get-log j id t p c (insert_work_item w s), get-insert w j s)) (λ y. b)

  pub any-saved :
      (q : Event → Bool)
      → any q saved.event_file
        ≡ (any q s.event_file || q (new_event (add_u64 s.event_seq 1) id t p c))
  unfolding insert_work_item append_event
  any-saved q =
      ground (arith, any-append q s.event_file (new_event (add_u64 s.event_seq 1) id t p c))
