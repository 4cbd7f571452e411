-- ===== src/Daemon/Restart/Laws.antt =====
-- What a restart does to an agent.
use anti_subagent.Prelude.{
  ℕ, ◌+◌, String, true, ◌||◌, ◌≡◌, refl, Option, some, arith, Result, ok, err, is_ok, Clock,
  map_option, ◌==◌, eq_iff, Option-cases, Result-cases, inl, inr, if◌then◌else◌,
}
use anti_subagent.Prelude.Table.{find_row, find-update, All-find}
use anti_subagent.Core.Model.{crashed, recovering, running, status_eq, AgentRecord}
use anti_subagent.Core.Events.{Json, agent_restarted, agent_started}
use anti_subagent.Store.Db.{AgentRow, Store}
use anti_subagent.Store.Events.{log_event}
use anti_subagent.Store.Codec.{status_text, parse_status}
use anti_subagent.Store.Codec.RoundTrips.{parse-status, status_text_eq}
use anti_subagent.Store.Agents.{
  agent_id, record_of, get_agent, begin_recovery, inc_restart, set_running,
}
use anti_subagent.Store.Agents.Laws.{IsRegistry}
use anti_subagent.Store.Agents.Exit.{events-agents}
use anti_subagent.Daemon.Restart.{
  Running, repo_of, start_again, restart_found, restart_agent, restart_payload, start_payload,
}

-- The row after `begin_recovery`.
abbrev row_begun : Clock → AgentRow → AgentRow
row_begun c r =
    if r.status == "Crashed" then record r { status = "Recovering"; updated_at = c.sql_now } else r

find-begin :
    (id j : String) (c : Clock) (s : Store)
    → find_row agent_id j (begin_recovery id c s).0.agents ≡ (
        if id == j
        then map_option (row_begun c) (find_row agent_id j s.agents)
        else find_row agent_id j s.agents)
unfolding begin_recovery
find-begin id j c s = ground (
  arith,
  find-update agent_id id j (λ (r : AgentRow). r.status == "Crashed")
      (λ r. record r { status = "Recovering"; updated_at = c.sql_now }) s.agents (λ r. refl),
  Option-cases (find_row agent_id j s.agents),
)

-- The row after a restart that started a process.
abbrev row_started : ℕ → Clock → AgentRow → AgentRow
row_started pid c r = record r {
  status = "Running";
  pid = some pid;
  restart_count = r.restart_count + 1;
  updated_at = c.sql_now;
}

find-start :
    (id j : String) (pid : ℕ) (c : Clock) (s : Store)
    → find_row agent_id j (set_running id pid c (inc_restart id c s)).0.agents ≡ (
        if id == j
        then map_option (row_started pid c) (find_row agent_id j s.agents)
        else find_row agent_id j s.agents)
unfolding set_running inc_restart
find-start id j pid c s = ground (
  arith,
  find-update agent_id id j (λ (r : AgentRow). true)
      (λ r. record r { status = "Running"; pid = some pid; updated_at = c.sql_now })
      (inc_restart id c s).agents (λ r. refl),
  find-update agent_id id j (λ (r : AgentRow). true)
      (λ r. record r { restart_count = r.restart_count + 1; updated_at = c.sql_now }) s.agents
      (λ r. refl),
  Option-cases (find_row agent_id j s.agents),
)

-- An agent after the two stages.
abbrev pub begun : Clock → AgentRecord → AgentRecord
begun c a =
    if status_eq a.status crashed
    then record a { status = recovering; updated_at = c.sql_now }
    else a

abbrev pub started : ℕ → Clock → AgentRecord → AgentRecord
started pid c a = record a {
  status = running;
  pid = some pid;
  restart_count = a.restart_count + 1;
  updated_at = c.sql_now;
}

crashed_text :
    (r : AgentRow)
    → status_text (parse_status r.status) ≡ r.status
    → (r.status == "Crashed") ≡ status_eq (record_of r).status crashed
unfolding record_of status_text
crashed_text r h = rw (← h, parse-status) (status_text_eq (parse_status r.status) crashed)

record-recovering :
    (r : AgentRow) (now : String)
    → record_of (record r { status = "Recovering"; updated_at = now })
      ≡ record (record_of r) { status = recovering; updated_at = now }
unfolding record_of parse_status
record-recovering r now = refl

record-begun :
    (r : AgentRow) (c : Clock)
    → status_text (parse_status r.status) ≡ r.status
    → record_of (row_begun c r) ≡ begun c (record_of r)
record-begun r c h = ground (arith, crashed_text r h, record-recovering r c.sql_now)

record-started :
    (r : AgentRow) (pid : ℕ) (c : Clock)
    → record_of (row_started pid c (row_begun c r)) ≡ started pid c (record_of r)
unfolding record_of parse_status
record-started r pid c = ground arith

-- The agent after the restart, by what the start of the process gave.
abbrev pub restarted : Result String ℕ → Clock → AgentRecord → AgentRecord
restarted (err e) c a = begun c a
restarted (ok pid) c a = started pid c a

get_row :
    (j : String) (s : Store) (f : Option AgentRow)
    → find_row agent_id j s.agents ≡ f
    → get_agent j s ≡ map_option record_of f
unfolding get_agent
get_row j s f e = rw e

module _ (id : String) (c : Clock) (s : Store) (p q : Json) (h : IsRegistry s) where
  abbrev begun_store : Store
  begun_store = log_event id agent_restarted p c (begin_recovery id c s).0

  abbrev started_store : ℕ → Store
  started_store pid =
      log_event id agent_started q c (set_running id pid c (inc_restart id c begun_store)).0

  find-begun :
      (j : String)
      → find_row agent_id j begun_store.agents ≡ (
          if id == j
          then map_option (row_begun c) (find_row agent_id j s.agents)
          else find_row agent_id j s.agents)
  find-begun j = ground (
    arith,
    (events-agents id agent_restarted p c (begin_recovery id c s).0).0,
    find-begin id j c s,
  )

  find-started :
      (pid : ℕ) (j : String)
      → find_row agent_id j (started_store pid).agents ≡ (
          if id == j
          then map_option (row_started pid c) (find_row agent_id j begun_store.agents)
          else find_row agent_id j begun_store.agents)
  find-started pid j = ground (
    arith,
    (events-agents id agent_started q c (set_running id pid c (inc_restart id c begun_store)).0).0,
    find-start id j pid c begun_store,
  )

  module _ (a : AgentRecord) (found : get_agent id s ≡ some a) where
    get-begun :
        (j : String)
        → get_agent j begun_store ≡ (if id == j then some (begun c a) else get_agent j s)
    unfolding get_agent
    get-begun j = elim (Option-cases (find_row agent_id id s.agents)) [
      | inl e ↦ ground (arith, found, e)
      | inr (r, e) ↦ ground (
        arith,
        found,
        e,
        find-begun j,
        eq_iff id j,
        record-begun r c (
            All-find agent_id (λ (r : AgentRow). status_text (parse_status r.status) ≡ r.status) id
              s.agents h.typed e),
      )
    ]

    get-started :
        (pid : ℕ) (j : String)
        → get_agent j (started_store pid)
          ≡ (if id == j then some (started pid c a) else get_agent j s)
    unfolding get_agent
    get-started pid j = elim (Option-cases (find_row agent_id id s.agents)) [
      | inl e ↦ ground (arith, found, e)
      | inr (r, e) ↦
          ground
            (arith, found, e, find-begun j, find-started pid j, eq_iff id j, record-started r pid c)
    ]

-- A restart of an agent that is found Crashed or Recovering succeeds exactly where its process
-- starts. The agent is then Running with the new pid and one restart more, and has everything else as
-- before, its id, workspace and task too; where the process does not start it is Recovering, so that
-- the restart can be tried again. Every other agent is found as before.
-- It is assumed that no two agents of the table share an id and that each has the text of a status.
pub restart_agent_lem :
    (spawn : String → Result String ℕ) (dir id : String) (c : Clock) (d : Running) (a : AgentRecord)
    → IsRegistry d.store
    → get_agent id d.store ≡ some a
    → (status_eq a.status crashed || status_eq a.status recovering) ≡ true
    → (is_ok (restart_agent spawn dir id c d).1 ≡ is_ok (spawn (repo_of dir a.workspace)))
      × ((j : String)
          → get_agent j (restart_agent spawn dir id c d).0.store ≡ (
              if id == j
              then some (restarted (spawn (repo_of dir a.workspace)) c a)
              else get_agent j d.store))
unfolding restart_agent restart_found start_again
restart_agent_lem spawn dir id c d a h found n =
    let p = restart_payload a in
    elim (Result-cases (spawn (repo_of dir a.workspace))) [
      | inl (e, k) ↦ (
        ground (arith, found, n, k),
        λ j. ground (arith, found, n, k, get-begun id c d.store p p h a found j),
      )
      | inr (pid, k) ↦ (
        ground (arith, found, n, k),
        λ j.
            ground
              (arith, found, n, k, get-started id c d.store p (start_payload pid) h a found pid j),
      )
    ]
