-- ===== src/Core/Governance.antt =====
-- The hierarchy of supervisor, leads and peers (crates/anti-core/src/governance.rs). A hash map is a table
-- of its entries. The ids that are drawn, the hash that makes a workspace id of a path and the clock are
-- arguments.
pub mod Council
pub mod Handoff
pub mod Peers
use anti_subagent.Prelude.{
  ℕ, String, Bool, true, false, not, Option, none, some, List, [], ◌∷◌, ◌++◌, map, Result, ok,
  Clock, ◌==◌, ◌*◌, leb, length, retain, take, if◌then◌else◌,
}
use Prim.Native.String
use anti_subagent.Prelude.Table.{find_row, replace_row, delete_row, update_rows}
use anti_subagent.Core.Model.{
  Role, supervisor, lead, peer, Disposition, architect, AgentStatus, running, replaced,
}
use anti_subagent.Core.Stream.{claude}
use anti_subagent.Core.Agent.{AgentConfig, default_config, AgentRecord, new}
use anti_subagent.Core.Routing.{Complexity, default_providers, resolve_route}
use anti_subagent.Core.InfoFilter.{AgentContext, build_agent_context}

pub data LessonCategory : Type 0 where
  anti_pattern best_practice tool_preference code_style domain_knowledge : LessonCategory

pub record Lesson : Type 0 where
  pub content : String
  pub category : LessonCategory
  pub recorded_at : String

pub record HandoffResult : Type 0 where
  pub new_lead_id : String
  pub lessons_transferred : ℕ
  pub peers_reconnected : List String

pub record Proposition : Type 0 where
  pub claim : String
  pub evidence : String
  pub material : Bool

pub data Verdict : Type 0 where
  accepted : Verdict
  rejected : String → Verdict
  needs_revision : List String → Verdict

-- Entries of `leads` and of `peer_groups`.
pub record LeadEntry : Type 0 where
  pub workspace : String
  pub lead_id : String

pub record PeerGroup : Type 0 where
  pub group_lead : String
  pub members : List String

pub record SlpOrchestrator : Type 0 where
  pub agents : List AgentRecord
  pub supervisor_id : Option String
  pub leads : List LeadEntry
  pub peer_groups : List PeerGroup

abbrev pub record_key : AgentRecord → String
record_key r = r.agent_id

abbrev pub workspace_key : LeadEntry → String
workspace_key e = e.workspace

abbrev pub group_key : PeerGroup → String
group_key g = g.group_lead

abbrev pub new_orchestrator : SlpOrchestrator
new_orchestrator = record { agents = []; supervisor_id = none; leads = []; peer_groups = [] }

abbrev pub members_of : Option PeerGroup → List String
members_of none = []
members_of (some g) = g.members

-- The ids that `peer_groups` has for a lead.
abbrev pub group : String → SlpOrchestrator → List String
group lead_id o = members_of (find_row group_key lead_id o.peer_groups)

abbrev routed_config : Role → AgentConfig
routed_config role = record default_config {
  model = some (resolve_route role architect Complexity.high default_providers "claude").model;
}

abbrev lead_prompt : String
lead_prompt =
    "You are a Lead coordinator. You own this workspace's outcome. Never implement code directly — only delegate and review."

-- `workspace_id` is what `WorkspaceId::new` makes of /supervisor.
unfoldable pub spawn_supervisor : Clock → String → String → SlpOrchestrator → SlpOrchestrator
spawn_supervisor c id workspace_id o =
    let r = record (new id supervisor claude workspace_id (routed_config supervisor) c) {
      status = running;
    } in
    record o { agents = replace_row record_key r o.agents; supervisor_id = some id }

abbrev pub lead_record : Clock → String → String → AgentRecord
lead_record c id workspace_id =
    let config = record (routed_config lead) { system_prompt = some lead_prompt } in
    record (new id lead claude workspace_id config c) { status = running }

unfoldable pub spawn_lead : Clock → String → String → SlpOrchestrator → SlpOrchestrator
spawn_lead c id workspace_id o = record o {
  agents = replace_row record_key (lead_record c id workspace_id) o.agents;
  leads = replace_row workspace_key (record { workspace = workspace_id; lead_id = id }) o.leads;
}

-- The record of a peer; `components` are those of the workspace id as a path.
abbrev pub peer_record :
    (List String → String) → Clock → String → String → List String → String → AgentRecord
peer_record hash c id workspace_id components task =
    let context =
      build_agent_context hash task components
        (some "You are working with the project owner on this repository.") none in
    record (new id peer claude workspace_id
      (record default_config { system_prompt = context.peer_prompt; model = context.model }) c) {
        status = running;
      }

-- The internal state and the session's configuration that the code makes are used by nothing, and so is
-- the disposition.
unfoldable pub spawn_peer :
    (List String → String)
    → Clock
    → String
    → String
    → Disposition
    → String
    → List String
    → String
    → SlpOrchestrator
    → SlpOrchestrator
spawn_peer hash c id lead_id disposition workspace_id components task o = record o {
  agents = replace_row record_key (peer_record hash c id workspace_id components task) o.agents;
  peer_groups =
      replace_row group_key (record { group_lead = lead_id; members = group lead_id o ++ id ∷ [] })
        o.peer_groups;
}

unfoldable pub archive_lead : String → SlpOrchestrator → SlpOrchestrator
archive_lead old_lead_id o = record o {
  agents =
      update_rows record_key old_lead_id (λ r. true) (λ r. record r { status = replaced }) o.agents;
}

unfoldable pub experience_handoff :
    Clock
    → String
    → String
    → String
    → List Lesson
    → SlpOrchestrator
    → SlpOrchestrator × Result String HandoffResult
experience_handoff c new_lead_id old_lead_id workspace_id lessons o =
    let o₁ = spawn_lead c new_lead_id workspace_id (archive_lead old_lead_id o) in
    let peers = group old_lead_id o₁ in
    (
      record o₁ {
        peer_groups =
            replace_row group_key (record { group_lead = new_lead_id; members = peers })
              (delete_row group_key old_lead_id o₁.peer_groups);
      },
      ok (record {
        new_lead_id = new_lead_id;
        lessons_transferred = length lessons;
        peers_reconnected = peers;
      }),
    )

abbrev pub has_evidence : Proposition → Bool
has_evidence p = not (p.evidence == "")

-- The material propositions that are looked at.
unfoldable pub looked_at : List Proposition → List Proposition
looked_at ps = take 5 (retain (λ p. p.material) ps)

unfoldable pub council_deliberation : List Proposition → Verdict
council_deliberation ps =
    let material = looked_at ps in
    let with_evidence = length (retain has_evidence material) in
    if leb (length material) 0
    then accepted
    else if leb (length material * 2) (with_evidence * 3)
    then accepted
    else needs_revision (
        map (λ p. String.◌++◌ "Needs evidence: " p.claim)
          (retain (λ p. not (has_evidence p)) material))

unfoldable pub get_agent : String → SlpOrchestrator → Option AgentRecord
get_agent id o = find_row record_key id o.agents

-- `filter_map` over the ids of a group.
unfoldable pub records_of : List String → SlpOrchestrator → List AgentRecord
records_of [] o = []
records_of (id ∷ ids) o =
    let rest = records_of ids o in
    elim (find_row record_key id o.agents) [ none ↦ rest | some r ↦ r ∷ rest ]

unfoldable pub peers_of : String → SlpOrchestrator → List AgentRecord
peers_of lead_id o = records_of (group lead_id o) o
