-- ===== src/Checks/Store.antt =====
-- The theorems on the store at concrete inputs.
use anti_subagent.Prelude.{
  false, ◌&&◌, ◌≡◌, refl, some, is_ok, is_none, map_option, ◌==◌, if◌then◌else◌,
}
use anti_subagent.Core.Model.{created, running, completed, crashed}
use anti_subagent.Core.Status
use anti_subagent.Core.Work.{submitted}
use anti_subagent.Store.Db.{Store, empty}
use anti_subagent.Store.Codec.{status_text, parse_status}
use anti_subagent.Store.Works.{insert_work_item, get_work_item, update_work_state}
use anti_subagent.Store.Works
use anti_subagent.Store.Works.Laws.{IsStored}
use anti_subagent.Store.Agents.{insert_agent, get_agent, transition, mark_exit, is_live_text}
use anti_subagent.Store.Agents
use anti_subagent.Store.Agents.Laws.{
  IsRegistry, kept, has_status, get-insert_agent, transition_lem, second_claim_refused,
}
use anti_subagent.Store.Agents.Laws as AgentLaws
use anti_subagent.Store.Agents.Exit.{live_agent, get-mark_exit}
use anti_subagent.Checks.Data.{noon, agent, store_of}

abbrev pub stored : Store
stored = store_of running submitted

pub stored-IsStored : IsStored stored
unfolding Works.row_of
stored-IsStored = (refl, tt)

pub stored-IsRegistry : IsRegistry stored
unfolding Agents.row_of parse_status status_text
stored-IsRegistry = record { keyed = (refl, tt); typed = (refl, tt) }

get-insert_agent_example :
    (is_ok (insert_agent (agent created) empty).1 ≡ is_none (get_agent "p1" empty))
    × (get_agent "p1" (insert_agent (agent created) empty).0 ≡ (
        if is_none (get_agent "p1" empty) && "p1" == "p1"
        then some (kept (agent created))
        else get_agent "p1" empty))
get-insert_agent_example = get-insert_agent (agent created) "p1" empty

transition_lem_example :
    (is_ok (transition "p1" running completed noon stored).1
      ≡ (Status.can_transition running completed && has_status running (get_agent "p1" stored)))
    × (get_agent "p1" (transition "p1" running completed noon stored).0 ≡ (
        if Status.can_transition running completed
          && has_status running (get_agent "p1" stored)
          && "p1" == "p1"
        then map_option (AgentLaws.moved completed noon) (get_agent "p1" stored)
        else get_agent "p1" stored))
transition_lem_example = transition_lem "p1" "p1" running completed noon stored stored-IsRegistry

second_claim_refused_example :
    is_ok
      (transition "p1" running completed noon (transition "p1" running completed noon stored).0).1
    ≡ false
unfolding transition Agents.row_of Status.check_transition Status.can_transition status_text
second_claim_refused_example =
    second_claim_refused "p1" running completed noon noon stored stored-IsRegistry refl refl

get-mark_exit_example : get_agent "p1" (mark_exit "p1" false noon stored).0 ≡ (
    if live_agent (get_agent "p1" stored) && "p1" == "p1"
    then map_option (AgentLaws.moved crashed noon) (get_agent "p1" stored)
    else get_agent "p1" stored)
get-mark_exit_example = get-mark_exit "p1" "p1" false noon stored stored-IsRegistry
