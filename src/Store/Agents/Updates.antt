-- ===== src/Store/Agents/Updates.antt =====
-- What an agent is after an UPDATE of its row that asks for nothing but the id.
use anti_subagent.Prelude.{
  ℕ, String, true, false, ◌≡◌, refl, some, arith, List, [], ◌∷◌, nat_eq, is_ok, map_option, Clock,
  ◌==◌, Option-cases, inl, inr, if◌then◌else◌,
}
use anti_subagent.Prelude.Table.{find_row, changed_rows, find-update}
use anti_subagent.Core.Model.{AgentStatus, AgentRecord}
use anti_subagent.Store.Db.{AgentRow, Store}
use anti_subagent.Store.Agents.{
  agent_id, any_row, update_agents, record_of, get_agent, with_status, update_status, attach_pid,
  set_workspace,
}
use anti_subagent.Store.Agents.Laws.{moved, record-status}

get-update_agents :
    (f : AgentRow → AgentRow) (g : AgentRecord → AgentRecord) (id j : String) (s : Store)
    → ((r : AgentRow) → agent_id (f r) ≡ agent_id r)
    → ((r : AgentRow) → record_of (f r) ≡ g (record_of r))
    → get_agent j (update_agents id any_row f s)
      ≡ (if id == j then map_option g (get_agent j s) else get_agent j s)
unfolding get_agent
get-update_agents f g id j s keeps same = elim (Option-cases (find_row agent_id j s.agents)) [
  | inl e ↦ ground (arith, e, find-update agent_id id j any_row f s.agents keeps)
  | inr (r, e) ↦ ground (arith, e, same r, find-update agent_id id j any_row f s.agents keeps)
]

pub get-update_status :
    (id j : String) (status : AgentStatus) (c : Clock) (s : Store)
    → get_agent j (update_status id status c s).0
      ≡ (if id == j then map_option (moved status c) (get_agent j s) else get_agent j s)
unfolding update_status
get-update_status id j status c s =
    get-update_agents (with_status status c) (moved status c) id j s (λ r. refl)
      (λ r. record-status r status c)

abbrev pub leased : String → String → Clock → AgentRecord → AgentRecord
leased lease_id path c a = record a {
  workspace = some (record { lease_id = lease_id; path = path; holder = ""; generation = 0 });
  updated_at = c.sql_now;
}

pub get-set_workspace :
    (id lease_id path j : String) (c : Clock) (s : Store)
    → get_agent j (set_workspace id lease_id path c s)
      ≡ (if id == j then map_option (leased lease_id path c) (get_agent j s) else get_agent j s)
unfolding set_workspace record_of
get-set_workspace id lease_id path j c s =
    get-update_agents
      (λ r. record r {
        workspace_lease_id = some lease_id;
        workspace_path = some path;
        updated_at = c.sql_now;
      })
      (leased lease_id path c) id j s (λ r. refl) (λ r. refl)

abbrev pub attached : ℕ → Clock → AgentRecord → AgentRecord
attached pid c a = record a { pid = some pid; updated_at = c.sql_now }

pub get-attach_pid :
    (id j : String) (pid : ℕ) (c : Clock) (s : Store)
    → get_agent j (attach_pid id pid c s)
      ≡ (if id == j then map_option (attached pid c) (get_agent j s) else get_agent j s)
unfolding attach_pid record_of
get-attach_pid id j pid c s =
    get-update_agents (λ r. record r { pid = some pid; updated_at = c.sql_now }) (attached pid c) id
      j s (λ r. refl) (λ r. refl)

changed_some :
    (id : String) (rows : List AgentRow) (r : AgentRow)
    → find_row agent_id id rows ≡ some r
    → nat_eq (changed_rows agent_id id any_row rows) 0 ≡ false
changed_some id [] r h = ground (arith, h)
changed_some id (x ∷ rows) r h = ground (arith, h, changed_some id rows r)

-- An agent that is found can be given any status.
pub update_status_ok :
    (id : String) (status : AgentStatus) (c : Clock) (s : Store) {a : AgentRecord}
    → get_agent id s ≡ some a
    → is_ok (update_status id status c s).1 ≡ true
unfolding get_agent update_status
update_status_ok id status c s {a} h = elim (Option-cases (find_row agent_id id s.agents)) [
  | inl e ↦ ground (arith, h, e)
  | inr (r, e) ↦ ground (arith, changed_some id s.agents r e)
]
