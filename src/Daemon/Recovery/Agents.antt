-- ===== src/Daemon/Recovery/Agents.antt =====
-- What recovery does to the agents.
use mathlib.Core.Path.{subst}
use mathlib.Core.Option.{some-injective}
use anti_subagent.Prelude.{
  String, Bool, true, false, ◌&&◌, ◌||◌, not, ◌≡◌, refl, sym, ◌∙◌, none, some, List, [], ◌∷◌, map,
  arith, map_option, Clock, ◌==◌, eq_iff, retain, Option-cases, Bool-cases, inl, inr, if◌then◌else◌,
}
use anti_subagent.Prelude.Table.{find_row, find-key}
use anti_subagent.Core.Model.{
  AgentStatus, running, blocked, starting, status_eq, crashed, AgentRecord,
}
use anti_subagent.Core.Events.{EventType, Json, peer_crashed}
use anti_subagent.Core.Work.{WorkItem}
use anti_subagent.Store.Db.{AgentRow, Store}
use anti_subagent.Store.Events.{append_event, log_event}
use anti_subagent.Store.Agents.{
  Processes, agent_id, record_of, get_agent, list_agents, is_agent_alive, mark_exit,
}
use anti_subagent.Store.Works.{list_work_items, update_work_state}
use anti_subagent.Store.Agents.Laws.{IsRegistry}
use anti_subagent.Store.Agents.Exit.{
  is_live, events-agents, alive-agents, mark_exit-IsRegistry, alive-mark_exit, get-mark_exit,
}
use anti_subagent.Daemon.Recovery.{
  has_process, is_dead, crash_payload, find_dead_agents, recover_item, recover_items,
  recover_work_items, mark_dead, recover_on_restart,
}

get-agents : (j : String) (s t : Store) → s.agents ≡ t.agents → get_agent j s ≡ get_agent j t
unfolding get_agent
get-agents j s t e = rw e

IsRegistry-agents : (s t : Store) → s.agents ≡ t.agents → IsRegistry t → IsRegistry s
IsRegistry-agents s t e h = record { keyed = rw e h.keyed; typed = rw e h.typed }

agents-recover_item :
    (dead : List AgentRecord) (c : Clock) (w : WorkItem) (s : Store)
    → (recover_item dead c w s).agents ≡ s.agents
unfolding recover_item update_work_state append_event
agents-recover_item dead c w s = ground arith

agents-recover_items :
    (dead : List AgentRecord) (c : Clock) (ws : List WorkItem) (s : Store)
    → (recover_items dead c ws s).agents ≡ s.agents
unfolding recover_items
agents-recover_items dead c [] s = refl
agents-recover_items dead c (w ∷ ws) s =
    agents-recover_items dead c ws (recover_item dead c w s) ∙ agents-recover_item dead c w s

-- The exit of one dead agent, with its event.
abbrev mark_one : AgentRecord → Clock → Store → Store
mark_one a c s = log_event a.id peer_crashed (crash_payload a c) c (mark_exit a.id false c s).0

events-log :
    (id : String) (t : EventType) (p : Json) (c : Clock) (s : Store)
    → (log_event id t p c s).agents ≡ s.agents
events-log id t p c s = (events-agents id t p c s).0

mark_one-IsRegistry :
    (a : AgentRecord) (c : Clock) (s : Store) → IsRegistry s → IsRegistry (mark_one a c s)
mark_one-IsRegistry a c s h =
    let s' = (mark_exit a.id false c s).0 in
    IsRegistry-agents (mark_one a c s) s' (events-log a.id peer_crashed (crash_payload a c) c s')
      (mark_exit-IsRegistry a.id false c s h)

alive-mark_one :
    (os : Processes) (j : String) (a : AgentRecord) (c : Clock) (s : Store)
    → is_agent_alive os j (mark_one a c s) ≡ is_agent_alive os j s
alive-mark_one os j a c s =
    let s' = (mark_exit a.id false c s).0 in
    alive-agents os j (mark_one a c s) s' (events-log a.id peer_crashed (crash_payload a c) c s')
    ∙ alive-mark_exit os a.id j false c s

-- An agent after its death was noticed.
abbrev pub buried : List AgentRecord → Clock → AgentRecord → AgentRecord
buried dead c a =
    if is_dead dead a.id && is_live a.status
    then record a { status = crashed; updated_at = c.sql_now }
    else a

get-id : (j : String) (s : Store) {a : AgentRecord} → get_agent j s ≡ some a → a.id ≡ j
unfolding get_agent record_of
get-id j s {a} e = elim (Option-cases (find_row agent_id j s.agents)) [
  | inl n ↦ ground (arith, e, n)
  | inr (r, f) ↦ ground (arith, e, f, find-key agent_id j s.agents f, eq_iff r.id j)
]

get-mark_one :
    (a : AgentRecord) (c : Clock) (s : Store)
    → IsRegistry s
    → (j : String) → get_agent j (mark_one a c s) ≡ map_option (buried (a ∷ []) c) (get_agent j s)
get-mark_one a c s h j =
    let s' = (mark_exit a.id false c s).0 in
    let same =
      get-agents j (mark_one a c s) s' (events-log a.id peer_crashed (crash_payload a c) c s') in
    elim (Option-cases (get_agent j s)) [
      | inl n ↦ ground (arith, same, get-mark_exit a.id j false c s h)
      | inr (x, f) ↦
          ground (arith, same, get-mark_exit a.id j false c s h, f, get-id j s f, eq_iff a.id j)
    ]

mark_dead-IsRegistry :
    (dead : List AgentRecord) (c : Clock) (s : Store)
    → IsRegistry s
    → IsRegistry (mark_dead dead c s)
unfolding mark_dead
mark_dead-IsRegistry [] c s h = h
mark_dead-IsRegistry (a ∷ dead) c s h =
    mark_dead-IsRegistry dead c (mark_one a c s) (mark_one-IsRegistry a c s h)

alive-mark_dead :
    (os : Processes) (j : String) (dead : List AgentRecord) (c : Clock) (s : Store)
    → is_agent_alive os j (mark_dead dead c s) ≡ is_agent_alive os j s
unfolding mark_dead
alive-mark_dead os j [] c s = refl
alive-mark_dead os j (a ∷ dead) c s =
    alive-mark_dead os j dead c (mark_one a c s) ∙ alive-mark_one os j a c s

get-mark_dead :
    (dead : List AgentRecord) (c : Clock) (s : Store)
    → IsRegistry s
    → (j : String) → get_agent j (mark_dead dead c s) ≡ map_option (buried dead c) (get_agent j s)
unfolding mark_dead
get-mark_dead [] c s h j = ground arith
get-mark_dead (a ∷ dead) c s h j = ground (
  arith,
  get-mark_dead dead c (mark_one a c s) (mark_one-IsRegistry a c s h) j,
  get-mark_one a c s h j,
)

live_process : (a : AgentStatus) → has_process a ≡ is_live a
live_process a = ground arith

id-record : (r : AgentRow) → (record_of r).id ≡ r.id
unfolding record_of
id-record r = refl

dead-first :
    (p q : AgentRecord → Bool) (j : String) (rows : List AgentRow) (r : AgentRow)
    → (r.id == j) ≡ true
    → q (record_of r) ≡ true
    → p (record_of r) ≡ true
    → is_dead (retain p (retain q (map record_of (r ∷ rows)))) j ≡ true
dead-first p q j rows r e y z = ground (arith, id-record r, e, y, z)

dead-found :
    (p q : AgentRecord → Bool) (j : String) (rows : List AgentRow) (r : AgentRow)
    → find_row agent_id j rows ≡ some r
    → q (record_of r) ≡ true
    → p (record_of r) ≡ true
    → is_dead (retain p (retain q (map record_of rows))) j ≡ true
dead-found p q j [] r f y z = ground (arith, f)
dead-found p q j (x ∷ rows) r f y z = elim (Bool-cases (x.id == j)) [
  | inl t ↦
      let e : r ≡ x = sym (some-injective x r (rw t at f)) in
      subst (λ (v : AgentRow). is_dead (retain p (retain q (map record_of (v ∷ rows)))) j ≡ true) e
        (dead-first p q j rows r (rw e t) y z)
  | inr n ↦
      let rest = dead-found p q j rows r (rw n at f) y z in
      ground (arith, rest, Bool-cases (q (record_of x)), Bool-cases (p (record_of x)))
]

-- A live agent whose process is gone is among the dead.
find_dead :
    (os : Processes) (j : String) (s : Store) (a : AgentRecord)
    → get_agent j s ≡ some a
    → is_live a.status ≡ true
    → is_agent_alive os j s ≡ false
    → is_dead (find_dead_agents os s) j ≡ true
unfolding find_dead_agents list_agents get_agent
find_dead os j s a e l n = elim (Option-cases (find_row agent_id j s.agents)) [
  | inl f ↦ ground (arith, e, f)
  | inr (r, f) ↦
      let same = some-injective (record_of r) a (rw f at e) in
      dead-found (λ (x : AgentRecord). not (is_agent_alive os x.id s))
        (λ (x : AgentRecord). has_process x.status) j s.agents r f
        (rw same (live_process a.status ∙ l)) (rw (same, get-id j s e, n) refl)
]

live_status :
    (a : AgentStatus)
    → (status_eq a running || status_eq a blocked || status_eq a starting) ≡ is_live a
live_status a = ground arith

buried_alive :
    (dead : List AgentRecord) (c : Clock) (x a : AgentRecord)
    → some (buried dead c x) ≡ some a
    → is_live a.status ≡ true
    → (is_live x.status ≡ true) × (is_dead dead x.id ≡ false)
buried_alive dead c x a e l = ground arith

-- After recovery, every agent that is found Running, Blocked or Starting has a live process.
-- It is assumed that no two agents of the table share an id and that each has the text of a status.
pub live_agents_run :
    (os : Processes) (c : Clock) (s : Store) (j : String) (a : AgentRecord)
    → IsRegistry s
    → get_agent j (recover_on_restart os c s) ≡ some a
    → (status_eq a.status running || status_eq a.status blocked || status_eq a.status starting)
      ≡ true
    → is_agent_alive os j (recover_on_restart os c s) ≡ true
unfolding recover_on_restart recover_work_items
live_agents_run os c s j a h e l =
    let dead = find_dead_agents os s in
    let s' = recover_work_items dead c s in
    let same : s'.agents ≡ s.agents = agents-recover_items dead c (list_work_items none s) s in
    let alive = alive-mark_dead os j dead c s' ∙ alive-agents os j s' s same in
    let got = get-mark_dead dead c s' (IsRegistry-agents s' s same h) j in
    elim (Option-cases (get_agent j s)) [
      | inl n ↦ ground (arith, e, got, n, get-agents j s' s same)
      | inr (x, f) ↦
          let b : some (buried dead c x) ≡ some a =
            ground (arith, e, got, f, get-agents j s' s same) in
          let k = buried_alive dead c x a b (sym (live_status a.status) ∙ l) in
          ground (
            arith,
            alive,
            k,
            get-id j s f,
            find_dead os j s x f,
            Bool-cases (is_agent_alive os j s),
          )
    ]
