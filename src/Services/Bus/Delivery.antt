-- ===== src/Services/Bus/Delivery.antt =====
-- What a subscriber receives.
use anti_subagent.Prelude.{
  ℕ, zero, suc, String, Bool, true, false, ◌≡◌, refl, ap, Option, none, some, List, [], ◌∷◌, ◌++◌,
  arith, length, map_option, ◌==◌, eq_iff, eq_refl, Option-cases, Bool-cases, inl, inr,
  if◌then◌else◌,
}
use anti_subagent.Prelude.Table.{find_row, find-replace, find-update, set_if}
use anti_subagent.Services.Bus.{
  OrchestratorEvent, Queue, Subscription, watched_key, EventBus, agent_of, sent_to_all, emit,
  senders_of, queues, subscribe,
}

-- Calls on the bus: `subscribing id` and `emitting event`.
pub data BusCall : Type 0 where
  subscribing : String → BusCall
  emitting : OrchestratorEvent → BusCall

unfoldable pub call : BusCall → EventBus → EventBus
call (subscribing id) b = subscribe id b
call (emitting e) b = emit e b

unfoldable pub calls : List BusCall → EventBus → EventBus
calls [] b = b
calls (c ∷ cs) b = calls cs (call c b)

abbrev pub is_for : String → Option String → Bool
is_for id none = false
is_for id (some j) = j == id

-- The events that are emitted for an agent, in their order.
unfoldable pub emitted_for : String → List BusCall → List OrchestratorEvent
emitted_for id [] = []
emitted_for id (subscribing j ∷ cs) = emitted_for id cs
emitted_for id (emitting e ∷ cs) =
    let rest = emitted_for id cs in if is_for id (agent_of e) then e ∷ rest else rest

-- The library's, on native numbers.
abbrev pub get_elem? : List Queue → ℕ → Option Queue
get_elem? [] n = none
get_elem? (q ∷ qs) zero = some q
get_elem? (q ∷ qs) (suc n) = get_elem? qs n

get_elem?-append :
    (qs : List Queue) (more : List Queue) (n : ℕ) (q : Queue)
    → get_elem? qs n ≡ some q
    → get_elem? (qs ++ more) n ≡ some q
get_elem?-append [] more n q h = absurd (cc h)
get_elem?-append (x ∷ qs) more zero q h = h
get_elem?-append (x ∷ qs) more (suc n) q h = get_elem?-append qs more n q h

get_elem?-append_last :
    (qs : List Queue) (q : Queue) → get_elem? (qs ++ q ∷ []) (length qs) ≡ some q
get_elem?-append_last [] q = refl
get_elem?-append_last (x ∷ qs) q = get_elem?-append_last qs q

get_elem?-sent_to_all :
    (e : OrchestratorEvent) (qs : List Queue) (n : ℕ)
    → get_elem? (sent_to_all e qs) n ≡ map_option (λ q. q ++ e ∷ []) (get_elem? qs n)
get_elem?-sent_to_all e [] n = refl
get_elem?-sent_to_all e (x ∷ qs) zero = refl
get_elem?-sent_to_all e (x ∷ qs) (suc n) = get_elem?-sent_to_all e qs n

queues-subscribe :
    (id j : String) (b : EventBus)
    → queues j (subscribe id b) ≡ (if id == j then queues id b ++ [] ∷ [] else queues j b)
unfolding subscribe
queues-subscribe id j b = ground (
  arith,
  find-replace watched_key j (record { watched = id; senders = queues id b ++ [] ∷ [] })
      b.subscribers,
)

abbrev sent : OrchestratorEvent → Subscription → Subscription
sent e s = record s { senders = sent_to_all e s.senders }

senders_sent :
    (e : OrchestratorEvent) (s : Option Subscription)
    → senders_of (set_if (λ x. true) (sent e) s) ≡ sent_to_all e (senders_of s)
senders_sent e none = refl
senders_sent e (some s) = refl

queues-emit :
    (e : OrchestratorEvent) (j : String) (b : EventBus)
    → queues j (emit e b)
      ≡ (if is_for j (agent_of e) then sent_to_all e (queues j b) else queues j b)
unfolding emit
queues-emit e j b = elim (Option-cases (agent_of e)) [
  | inl n ↦ rw (emit, n) refl
  | inr (id, y) ↦
      rw (emit, y)
        (ground (
          arith,
          find-update watched_key id j (λ x. true) (sent e) b.subscribers (λ x. refl),
          senders_sent e (find_row watched_key j b.subscribers),
        ))
]

append_nil : (q : Queue) → q ++ [] ≡ q
append_nil [] = refl
append_nil (e ∷ q) = ap (λ r. e ∷ r) (append_nil q)

append_assoc : (q : Queue) (e : OrchestratorEvent) (r : Queue) → (q ++ e ∷ []) ++ r ≡ q ++ e ∷ r
append_assoc [] e r = refl
append_assoc (x ∷ q) e r = ap (λ t. x ∷ t) (append_assoc q e r)

subscribed_keeps :
    (id j : String) (b : EventBus) (n : ℕ) (q : Queue)
    → get_elem? (queues j b) n ≡ some q
    → get_elem? (queues j (subscribe id b)) n ≡ some q
subscribed_keeps id j b n q h =
    ground
      (arith, h, eq_iff id j, queues-subscribe id j b, get_elem?-append (queues id b) ([] ∷ []) n q)

emitted_adds :
    (e : OrchestratorEvent) (j : String) (b : EventBus) (n : ℕ) (q : Queue)
    → get_elem? (queues j b) n ≡ some q
    → get_elem? (queues j (emit e b)) n ≡ some (if is_for j (agent_of e) then q ++ e ∷ [] else q)
emitted_adds e j b n q h =
    ground (arith, h, queues-emit e j b, get_elem?-sent_to_all e (queues j b) n)

received :
    (cs : List BusCall) (j : String) (b : EventBus) (n : ℕ) (q : Queue)
    → get_elem? (queues j b) n ≡ some q
    → get_elem? (queues j (calls cs b)) n ≡ some (q ++ emitted_for j cs)
unfolding calls call emitted_for
received [] j b n q h = rw (append_nil q) h
received (subscribing id ∷ cs) j b n q h =
    received cs j (subscribe id b) n q (subscribed_keeps id j b n q h)
received (emitting e ∷ cs) j b n q h = elim (Bool-cases (is_for j (agent_of e))) [
  | inl y ↦ ground (
    arith,
    y,
    received cs j (emit e b) n (q ++ e ∷ []),
    emitted_adds e j b n q h,
    append_assoc q e (emitted_for j cs),
  )
  | inr n' ↦ ground (arith, n', received cs j (emit e b) n q, emitted_adds e j b n q h)
]

-- A subscriber of an agent receives exactly the events that are emitted for the agent after it subscribed, each once and in
-- their order, whatever other subscriptions and events come before and in between.
pub subscribe-calls :
    (cs : List BusCall) (j : String) (b : EventBus)
    → get_elem? (queues j (calls cs (subscribe j b))) (length (queues j b))
      ≡ some (emitted_for j cs)
subscribe-calls cs j b =
    received cs j (subscribe j b) (length (queues j b)) []
      (ground (arith, eq_refl j, queues-subscribe j j b, get_elem?-append_last (queues j b) []))
