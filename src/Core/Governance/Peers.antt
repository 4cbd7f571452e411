-- ===== src/Core/Governance/Peers.antt =====
-- The peers that are listed for a lead.
use anti_subagent.Prelude.{
  if◌then◌else◌, ◌==◌, ◌∙◌, ap, String, Bool, true, ◌≡◌, refl, List, [], ◌∷◌, ◌++◌, map, arith,
  Clock, eq_iff, eq_refl, all, All, inl, inr, Option-cases,
}
use anti_subagent.Prelude.Table.{
  find_row, has_row, find-key, find-replace, find-has-row, has-row-replace, has-row-update,
  replace_row, delete_row, update_rows, All-append,
}
use anti_subagent.Core.Model.{Disposition}
use anti_subagent.Core.Agent.{AgentRecord}
use anti_subagent.Core.Agent
use anti_subagent.Core.Governance.Handoff.{archived, handed_groups}
use anti_subagent.Core.Governance.{
  Lesson, PeerGroup, SlpOrchestrator, record_key, group_key, members_of, group, lead_record,
  peer_record, new_orchestrator, spawn_supervisor, spawn_lead, spawn_peer, archive_lead,
  experience_handoff, records_of, peers_of,
}

-- The calls of the orchestrator, with the ids that they draw first.
pub data GovernanceCall : Type 0 where
  spawning_supervisor : String → String → GovernanceCall
  spawning_lead : String → String → GovernanceCall
  spawning_peer : String → String → Disposition → String → List String → String → GovernanceCall
  handing_off : String → String → String → List Lesson → GovernanceCall

unfoldable pub call :
    (List String → String) → Clock → GovernanceCall → SlpOrchestrator → SlpOrchestrator
call hash c (spawning_supervisor id ws) o = spawn_supervisor c id ws o
call hash c (spawning_lead id ws) o = spawn_lead c id ws o
call hash c (spawning_peer id lead_id d ws path task) o =
    spawn_peer hash c id lead_id d ws path task o
call hash c (handing_off id old ws lessons) o = (experience_handoff c id old ws lessons o).0

unfoldable pub calls :
    (List String → String) → List (GovernanceCall × Clock) → SlpOrchestrator → SlpOrchestrator
calls hash [] o = o
calls hash ((g, c) ∷ gs) o = calls hash gs (call hash c g o)

-- Every member of a group is an agent.
abbrev are_agents : List AgentRecord → List String → Bool
are_agents rs ids = all (λ id. has_row record_key id rs) ids

abbrev IsPeopled : List AgentRecord → List PeerGroup → Type 0
IsPeopled rs gs = All (λ (g : PeerGroup). are_agents rs g.members ≡ true) gs

-- The second agents are the first and more.
abbrev Extends : List AgentRecord → List AgentRecord → Type 0
Extends rs more =
    (id : String) → has_row record_key id rs ≡ true → has_row record_key id more ≡ true

are-agents_more :
    (rs more : List AgentRecord) (ids : List String)
    → Extends rs more
    → are_agents rs ids ≡ true
    → are_agents more ids ≡ true
are-agents_more rs more [] e h = refl
are-agents_more rs more (id ∷ ids) e h = ground (arith, e id, are-agents_more rs more ids e)

IsPeopled-more :
    (rs more : List AgentRecord) (gs : List PeerGroup)
    → Extends rs more
    → IsPeopled rs gs
    → IsPeopled more gs
IsPeopled-more rs more [] e h = tt
IsPeopled-more rs more (g ∷ gs) e h =
    (are-agents_more rs more g.members e h.0, IsPeopled-more rs more gs e h.1)

replace-Extends :
    (r : AgentRecord) (rs : List AgentRecord) → Extends rs (replace_row record_key r rs)
replace-Extends r rs id h = ground (arith, has-row-replace record_key r id rs)

IsPeopled-delete :
    (k : String) (rs : List AgentRecord) (gs : List PeerGroup)
    → IsPeopled rs gs
    → IsPeopled rs (delete_row group_key k gs)
IsPeopled-delete k rs [] h = tt
IsPeopled-delete k rs (g ∷ gs) h = ground (arith, h, IsPeopled-delete k rs gs h.1)

peopled_group :
    (lead_id : String) (rs : List AgentRecord) (gs : List PeerGroup)
    → IsPeopled rs gs
    → are_agents rs (members_of (find_row group_key lead_id gs)) ≡ true
peopled_group lead_id rs [] h = refl
peopled_group lead_id rs (g ∷ gs) h = ground (arith, h.0, peopled_group lead_id rs gs h.1)

IsPeopled-replace :
    (g : PeerGroup) (rs : List AgentRecord) (gs : List PeerGroup)
    → are_agents rs g.members ≡ true
    → IsPeopled rs gs
    → IsPeopled rs (replace_row group_key g gs)
IsPeopled-replace g rs gs h k =
    All-append group_key (λ (x : PeerGroup). are_agents rs x.members ≡ true) g
      (delete_row group_key g.group_lead gs) h (IsPeopled-delete g.group_lead rs gs k)

are-agents-append :
    (rs : List AgentRecord) (ids : List String) (id : String)
    → are_agents rs ids ≡ true
    → has_row record_key id rs ≡ true
    → are_agents rs (ids ++ id ∷ []) ≡ true
are-agents-append rs [] id h k = ground arith
are-agents-append rs (x ∷ ids) id h k = ground (arith, are-agents-append rs ids id)

abbrev Peopled : SlpOrchestrator → Type 0
Peopled o = IsPeopled o.agents o.peer_groups

peer_id :
    (hash : List String → String) (c : Clock) (id ws : String) (path : List String) (task : String)
    → (peer_record hash c id ws path task).agent_id ≡ id
unfolding Agent.new
peer_id hash c id ws path task = refl

marked-Extends :
    (old : String) (rs : List AgentRecord)
    → Extends rs (update_rows record_key old (λ x. true) archived rs)
marked-Extends old rs id h =
    ground (arith, has-row-update record_key old id (λ x. true) archived rs (λ x. refl))

call-Peopled :
    (hash : List String → String) (c : Clock) (g : GovernanceCall) (o : SlpOrchestrator)
    → Peopled o
    → Peopled (call hash c g o)
unfolding call spawn_supervisor spawn_lead spawn_peer experience_handoff archive_lead
call-Peopled hash c (spawning_supervisor id ws) o h =
    IsPeopled-more o.agents _ o.peer_groups (replace-Extends _ o.agents) h
call-Peopled hash c (spawning_lead id ws) o h =
    IsPeopled-more o.agents _ o.peer_groups (replace-Extends (lead_record c id ws) o.agents) h
call-Peopled hash c (spawning_peer id lead_id d ws path task) o h =
    let r = peer_record hash c id ws path task in
    let more = replace_row record_key r o.agents in
    let base = IsPeopled-more o.agents more o.peer_groups (replace-Extends r o.agents) h in
    let own = peer_id hash c id ws path task in
    IsPeopled-replace (record { group_lead = lead_id; members = group lead_id o ++ id ∷ [] }) more
      o.peer_groups
      (are-agents-append more (group lead_id o) id (peopled_group lead_id more o.peer_groups base)
        (ground (arith, has-row-replace record_key r id o.agents, own, eq_refl id)))
      base
call-Peopled hash c (handing_off id old ws lessons) o h =
    let marked = update_rows record_key old (λ x. true) archived o.agents in
    let more = replace_row record_key (lead_record c id ws) marked in
    let base =
      IsPeopled-more marked more o.peer_groups (replace-Extends (lead_record c id ws) marked)
        (IsPeopled-more o.agents marked o.peer_groups (marked-Extends old o.agents) h) in
    IsPeopled-replace
      (record { group_lead = id; members = members_of (find_row group_key old o.peer_groups) }) more
      (delete_row group_key old o.peer_groups) (peopled_group old more o.peer_groups base)
      (IsPeopled-delete old more o.peer_groups base)

calls-Peopled :
    (hash : List String → String) (gs : List (GovernanceCall × Clock)) (o : SlpOrchestrator)
    → Peopled o
    → Peopled (calls hash gs o)
unfolding calls
calls-Peopled hash [] o h = h
calls-Peopled hash ((g, c) ∷ gs) o h =
    calls-Peopled hash gs (call hash c g o) (call-Peopled hash c g o h)

records_named :
    (ids : List String) (o : SlpOrchestrator)
    → are_agents o.agents ids ≡ true
    → map record_key (records_of ids o) ≡ ids
unfolding records_of
records_named [] o h = refl
records_named (id ∷ ids) o h = elim (Option-cases (find_row record_key id o.agents)) [
  | inl e ↦ absurd (ground (arith, e, find-has-row record_key id o.agents e, h))
  | inr (r, e) ↦
      ground
        (arith, e, find-key record_key id o.agents e, eq_iff r.agent_id id, records_named ids o)
]

-- The peers of the leads, as the calls give them: a peer that is spawned for a lead comes last among its
-- peers, and a handoff gives all the peers of the old lead to the new one and leaves the old one none.
abbrev pub Groups : Type 0
Groups = String → List String

abbrev pub assign : GovernanceCall → Groups → Groups
assign (spawning_supervisor id ws) g x = g x
assign (spawning_lead id ws) g x = g x
assign (spawning_peer id lead_id d ws path task) g x = if lead_id == x then g x ++ id ∷ [] else g x
assign (handing_off id old ws lessons) g x = if id == x then g old else if old == x then [] else g x

unfoldable pub assigned : List (GovernanceCall × Clock) → Groups → Groups
assigned [] g = g
assigned ((a, c) ∷ gs) g = assigned gs (assign a g)

abbrev groups : SlpOrchestrator → Groups
groups o x = group x o

group-call :
    (hash : List String → String) (c : Clock) (a : GovernanceCall) (o : SlpOrchestrator)
    (x : String)
    → group x (call hash c a o) ≡ assign a (groups o) x
unfolding call spawn_supervisor spawn_lead spawn_peer experience_handoff archive_lead
group-call hash c (spawning_supervisor id ws) o x = refl
group-call hash c (spawning_lead id ws) o x = refl
group-call hash c (spawning_peer id lead_id d ws path task) o x =
    let g : PeerGroup = record { group_lead = lead_id; members = group lead_id o ++ id ∷ [] } in
    ground (arith, find-replace group_key x g o.peer_groups, eq_iff lead_id x)
group-call hash c (handing_off id old ws lessons) o x = handed_groups c id old ws o x

group-calls :
    (hash : List String → String) (gs : List (GovernanceCall × Clock)) (o : SlpOrchestrator)
    → groups (calls hash gs o) ≡ assigned gs (groups o)
unfolding calls assigned
group-calls hash [] o = refl
group-calls hash ((a, c) ∷ gs) o =
    group-calls hash gs (call hash c a o) ∙ ap (assigned gs) (λ i x. group-call hash c a o x i)

-- After any spawns and handoffs of a new orchestrator, the records that are listed for a lead are those of exactly
-- the peers that the calls give it, each as often and in the order in which they came: a spawned peer comes last
-- among its lead's, a handoff gives all the peers of the old lead to the new one, in place of those it had, and
-- leaves the old one none.
pub peers_of_lem :
    (hash : List String → String) (gs : List (GovernanceCall × Clock)) (lead_id : String)
    → map record_key (peers_of lead_id (calls hash gs new_orchestrator))
      ≡ assigned gs (λ x. []) lead_id
unfolding peers_of
peers_of_lem hash gs lead_id =
    let o = calls hash gs new_orchestrator in
    let named =
      records_named (group lead_id o) o (
        peopled_group lead_id o.agents o.peer_groups (calls-Peopled hash gs new_orchestrator tt)) in
    named ∙ ap (λ g. g lead_id) (group-calls hash gs new_orchestrator)
