-- ===== src/Core/Governance/Handoff.antt =====
-- What the handoff from one lead to another does.
use anti_subagent.Prelude.{
  String, true, false, ◌≡◌, refl, Option, none, some, List, [], ◌∷◌, arith, Clock, ◌==◌, eq_iff,
  eq_refl, map_option, if◌then◌else◌,
}
use anti_subagent.Prelude.Table.{
  find_row, find-replace, find-update, update_rows, set_if, replace_row, delete_row,
}
use anti_subagent.Core.Model.{replaced}
use anti_subagent.Core.Agent.{AgentRecord}
use anti_subagent.Core.Agent
use anti_subagent.Core.Governance.{
  Lesson, PeerGroup, SlpOrchestrator, record_key, workspace_key, group_key, members_of, group,
  lead_record, spawn_lead, archive_lead, experience_handoff, get_agent,
}

find-delete-group :
    (k j : String) (t : List PeerGroup)
    → find_row group_key j (delete_row group_key k t)
      ≡ (if k == j then none else find_row group_key j t)
find-delete-group k j [] = ground arith
find-delete-group k j (r ∷ t) =
    ground
      (arith, find-delete-group k j t, eq_iff r.group_lead k, eq_iff r.group_lead j, eq_iff k j)

abbrev pub archived : AgentRecord → AgentRecord
archived r = record r { status = replaced }

set_all :
    (f : AgentRecord → AgentRecord) (r : Option AgentRecord)
    → set_if (λ x. true) f r ≡ map_option f r
set_all f none = refl
set_all f (some r) = refl

replaced_agents :
    (r : AgentRecord) (old j : String) (rs : List AgentRecord)
    → let after = replace_row record_key r (update_rows record_key old (λ x. true) archived rs) in
      find_row record_key j after ≡ (
        if r.agent_id == j
        then find_row record_key r.agent_id after
        else if old == j
        then map_option archived (find_row record_key j rs)
        else find_row record_key j rs)
replaced_agents r old j rs =
    let marked = update_rows record_key old (λ x. true) archived rs in
    ground (
      arith,
      find-replace record_key j r marked,
      find-replace record_key r.agent_id r marked,
      eq_refl r.agent_id,
      find-update record_key old j (λ x. true) archived rs (λ x. refl),
      set_all archived (find_row record_key j rs),
    )

module _ (c : Clock) (new old ws : String) (o : SlpOrchestrator) where
  abbrev spawned : SlpOrchestrator
  spawned = spawn_lead c new ws (archive_lead old o)

  pub handed_groups :
      (j : String)
      → members_of (
          find_row group_key j (
            replace_row group_key
              (record { group_lead = new; members = group old spawned })
              (delete_row group_key old spawned.peer_groups)))
        ≡ (if new == j then group old o else if old == j then [] else group j o)
  unfolding spawn_lead archive_lead
  handed_groups j = ground (
    arith,
    find-replace group_key j (record { group_lead = new; members = group old o })
        (delete_row group_key old o.peer_groups),
    find-delete-group old j o.peer_groups,
  )

  handed_leads :
      (w : String)
      → find_row workspace_key w spawned.leads ≡ (
          if ws == w
          then some (record { workspace = ws; lead_id = new })
          else find_row workspace_key w o.leads)
  unfolding spawn_lead archive_lead
  handed_leads w = find-replace workspace_key w (record { workspace = ws; lead_id = new }) o.leads

  handed_agents :
      (j : String)
      → find_row record_key j spawned.agents ≡ (
          if new == j
          then find_row record_key new spawned.agents
          else if old == j
          then map_option archived (find_row record_key j o.agents)
          else find_row record_key j o.agents)
  unfolding spawn_lead archive_lead Agent.new
  handed_agents j = replaced_agents (lead_record c new ws) old j o.agents

-- A handoff from one lead to another, of a fresh id, gives the peers of the old lead to the new one and leaves the old lead none,
-- enters the new lead for the workspace, and marks the old lead as Replaced; every other lead keeps its peers, every other workspace its
-- lead, and every other agent stays as it was.
pub experience_handoff_lem :
    (c : Clock) (new old ws : String) (lessons : List Lesson) (o : SlpOrchestrator)
    → (new == old) ≡ false
    → let after = (experience_handoff c new old ws lessons o).0 in
      ((j : String)
        → group j after ≡ (if new == j then group old o else if old == j then [] else group j o))
      × ((w : String)
          → find_row workspace_key w after.leads ≡ (
              if ws == w
              then some (record { workspace = ws; lead_id = new })
              else find_row workspace_key w o.leads))
      × ((j : String)
          → get_agent j after ≡ (
              if new == j
              then get_agent new after
              else if old == j
              then map_option archived (get_agent j o)
              else get_agent j o))
unfolding experience_handoff get_agent spawn_lead
experience_handoff_lem c new old ws lessons o n =
    (handed_groups c new old ws o, handed_leads c new old ws o, handed_agents c new old ws o)
