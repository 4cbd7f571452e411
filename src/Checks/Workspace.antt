-- ===== src/Checks/Workspace.antt =====
-- The theorems on the hierarchy, guarded writes and locks at concrete inputs.
use Prim.Native.String
use anti_subagent.Prelude.{
  any, not, ◌||◌, String, true, false, ◌≡◌, refl, none, some, List, [], ◌∷◌, map, map_option, is_ok,
  Clock, ◌==◌, if◌then◌else◌,
}
use anti_subagent.Prelude.Table.{find_row}
use anti_subagent.Prelude.Text.{contains}
use anti_subagent.Core.Model.{engineer}
use anti_subagent.Core.Governance.{
  SlpOrchestrator, record_key, workspace_key, group, new_orchestrator, get_agent,
  experience_handoff, peers_of, Proposition,
}
use anti_subagent.Core.Governance.Handoff.{archived, experience_handoff_lem}
use anti_subagent.Core.Governance.Peers.{GovernanceCall, assigned, peers_of_lem}
use anti_subagent.Core.Governance.Peers
use anti_subagent.Core.InfoFilter.{path_text, sanitize_workspace_path}
use anti_subagent.Core.InfoFilter.Leaks.{hierarchy_words, sanitize_workspace_path_lem}
use anti_subagent.Services.Cas.{Disk, Baseline, write_if_unchanged, acquire_lock}
use anti_subagent.Services.Cas.Writes.{content_at, second_write_refused}
use anti_subagent.Services.Cas.Locks.{LockCall, held_by, lock_excludes}
use anti_subagent.Services.Cas.Locks
use anti_subagent.Checks.Data.{noon}

abbrev hash_of : List String → String
hash_of path = "7f"

abbrev spawns : List (GovernanceCall × Clock)
spawns =
    (GovernanceCall.spawning_lead "l1" "/repo", noon)
    ∷ (GovernanceCall.spawning_peer "p1" "l1" engineer "/repo" ("repo" ∷ []) "fix", noon)
    ∷ (GovernanceCall.spawning_peer "p2" "l1" engineer "/repo" ("repo" ∷ []) "test", noon)
    ∷ (GovernanceCall.handing_off "l2" "l1" "/repo" [], noon)
    ∷ []

peers_of_lem_example :
    map record_key (peers_of "l2" (Peers.calls hash_of spawns new_orchestrator))
    ≡ assigned spawns (λ x. []) "l2"
peers_of_lem_example = peers_of_lem hash_of spawns "l2"

abbrev team : SlpOrchestrator
team = record {
  agents = [];
  supervisor_id = none;
  leads = record { workspace = "/repo"; lead_id = "l1" } ∷ [];
  peer_groups = record { group_lead = "l1"; members = "p1" ∷ "p2" ∷ [] } ∷ [];
}

abbrev team_after : SlpOrchestrator
team_after = (experience_handoff noon "l2" "l1" "/repo" [] team).0

experience_handoff_lem_example :
    ((j : String)
      → group j team_after
        ≡ (if "l2" == j then group "l1" team else if "l1" == j then [] else group j team))
    × ((w : String)
        → find_row workspace_key w team_after.leads ≡ (
            if "/repo" == w
            then some (record { workspace = "/repo"; lead_id = "l2" })
            else find_row workspace_key w team.leads))
    × ((j : String)
        → get_agent j team_after ≡ (
            if "l2" == j
            then get_agent "l2" team_after
            else if "l1" == j
            then map_option archived (get_agent j team)
            else get_agent j team))
experience_handoff_lem_example = experience_handoff_lem noon "l2" "l1" "/repo" [] team refl

abbrev lead_path : List String
lead_path = "lead" ∷ "w1" ∷ []

sanitize_workspace_path_lem_example :
    (sanitize_workspace_path hash_of lead_path ≡ (
      if any (contains (path_text lead_path)) hierarchy_words
      then "lead" ∷ String.◌++◌ "w-" (hash_of lead_path) ∷ []
      else lead_path))
    × ((not (any (λ d. contains d "lead") ("lead" ∷ []))
          || contains (path_text (sanitize_workspace_path hash_of lead_path)) "lead")
        ≡ true)
sanitize_workspace_path_lem_example = sanitize_workspace_path_lem hash_of "lead" "w1" ("lead" ∷ [])

abbrev digest_of : String → String
digest_of text = String.◌++◌ "sha " text

abbrev disk : Disk
disk = record {
  files = record { path = "a.rs"; content = "old" } ∷ [];
  locks = record { directory = "/repo"; holder = "p1" } ∷ [];
}

abbrev base : Baseline
base = record { sha256 = "sha old" }

abbrev first_write : Disk
first_write = (write_if_unchanged digest_of true "a.rs" "mine" base disk).0

second_write_refused_example :
    (is_ok (write_if_unchanged digest_of true "a.rs" "theirs" base first_write).1 ≡ false)
    × (content_at "a.rs" (write_if_unchanged digest_of true "a.rs" "theirs" base first_write).0
        ≡ some "mine")
second_write_refused_example =
    second_write_refused digest_of "a.rs" "mine" "theirs" base disk refl refl

abbrev tries : List LockCall
tries = LockCall.acquiring "/repo" "p2" ∷ LockCall.releasing "/other" ∷ []

lock_excludes_example :
    (held_by "/repo" (Locks.calls tries disk) ≡ some "p1")
    × (is_ok (acquire_lock "/repo" "p3" (Locks.calls tries disk)).1 ≡ false)
lock_excludes_example = lock_excludes tries "/repo" "p1" "p3" disk refl refl

abbrev claims : List Proposition
claims =
    record { claim = "it builds"; evidence = "log"; material = true }
    ∷ record { claim = "it is fast"; evidence = ""; material = true }
    ∷ record { claim = "it is neat"; evidence = ""; material = false }
    ∷ []
