-- ===== src/Checks/Daemon.antt =====
-- The theorems on the daemon at concrete inputs.
use anti_subagent.Prelude.{
  String, true, ◌&&◌, ◌||◌, not, ◌≡◌, refl, none, some, List, [], ◌∷◌, is_ok, is_some, any,
  map_option, ◌==◌, ltb, if◌then◌else◌,
}
use anti_subagent.Core.Model.{running}
use anti_subagent.Core.Work.{
  EvidenceRef, WorkItem, pending, in_progress, submitted, verified, accepted, needs_revision,
  work_eq,
}
use anti_subagent.Core.Work
use anti_subagent.Core.Verify.{VerifyProfile, commands}
use anti_subagent.Core.Report
use anti_subagent.Store.Db.{empty}
use anti_subagent.Store.Events
use anti_subagent.Store.Codec
use anti_subagent.Store.Works.{get_work_item}
use anti_subagent.Store.Works
use anti_subagent.Store.Agents.{Processes, get_agent, is_agent_alive}
use anti_subagent.Store.Agents
use anti_subagent.Daemon.Backing.{is_pass, is_acceptance}
use anti_subagent.Daemon.Review.{parse_profile, handle_verify_work, handle_review_work}
use anti_subagent.Daemon.Review
use anti_subagent.Daemon.Review.Laws.{
  verdict_state, takes_review, reviewed, handle_verify_work_lem, handle_review_work_lem,
}
use anti_subagent.Daemon.Reports.{handle_report, or_unknown, compute_commit_diff_sha}
use anti_subagent.Daemon.Reports
use anti_subagent.Daemon.Reports.Laws.{after_report, completed_report}
use anti_subagent.Daemon.Reports.Failures.{failed_report}
use anti_subagent.Daemon.Requests.{Request, submit_work, verify_work, review_work, serve_all}
use anti_subagent.Daemon.Requests
use anti_subagent.Daemon.Requests.Evidence.{states_are_backed, empty-IsSound, serve_all-IsSound}
use anti_subagent.Daemon.Requests.Refines.{EachSteps, requests_refine, closed_items_stay}
use anti_subagent.Daemon.Lifecycle.{state_of}
use anti_subagent.Daemon.Recovery.{recover_work_items, recover_on_restart}
use anti_subagent.Daemon.Recovery
use anti_subagent.Daemon.Recovery.Items.{recovered, recover_work_items_lem}
use anti_subagent.Daemon.Recovery.Agents.{live_agents_run}
use anti_subagent.Daemon.Wire.{Env}
use anti_subagent.Checks.Data.{noon, at_noon, programs, item, agent, report}
use anti_subagent.Checks.Store.{stored, stored-IsStored, stored-IsRegistry}

-- An item is submitted, verified and accepted.
abbrev review_cycle : List (Request × Env)
review_cycle =
    (submit_work "w1" "ab" "out" 600, at_noon)
    ∷ (verify_work "w1" "build", at_noon)
    ∷ (review_work "w1" "accept" "fine", at_noon)
    ∷ []

abbrev cycled : WorkItem
cycled = record (item accepted) {
  peer_id = "cli";
  submitted_at = some "noon";
  review_deadline = some "one";
  created_at = "noon";
  updated_at = "noon";
}

cycled_found : get_work_item "w1" (serve_all review_cycle empty) ≡ some cycled
unfolding serve_all Requests.serve Review.handle_submit_work Review.handle_verify_work
    Review.handle_review_work Works.get_work_item Works.insert_work_item Works.row_of Works.item_of
    Work.new Work.transition Work.can_transition Work.submit Review.run_commands
    Review.parse_profile Events.append_event Codec.work_text Codec.parse_work_state commands
cycled_found = refl

states_are_backed_example :
    ((work_eq cycled.state submitted
          || work_eq cycled.state verified
          || work_eq cycled.state accepted)
        ≡ true
      → is_some cycled.evidence ≡ true)
    × ((work_eq cycled.state verified || work_eq cycled.state accepted) ≡ true
        → any (is_pass "w1") (serve_all review_cycle empty).event_file ≡ true)
    × (cycled.state ≡ accepted
        → any (is_acceptance "w1") (serve_all review_cycle empty).event_file ≡ true)
states_are_backed_example = states_are_backed review_cycle "w1" cycled cycled_found

requests_refine_example : EachSteps review_cycle empty
requests_refine_example = requests_refine review_cycle empty empty-IsSound

closed_items_stay_example :
    state_of "w1" (serve_all review_cycle (serve_all review_cycle empty)) ≡ some accepted
closed_items_stay_example =
    closed_items_stay review_cycle (serve_all review_cycle empty) "w1" cycled
      (serve_all-IsSound review_cycle empty empty-IsSound) cycled_found refl

submitted_found : get_work_item "w1" stored ≡ some (item submitted)
unfolding Works.get_work_item Works.row_of Works.item_of Codec.work_text Codec.parse_work_state
submitted_found = refl

handle_verify_work_lem_example :
    get_work_item "w1" (handle_verify_work "w1" "full" at_noon stored).0
    ≡ some (record (item submitted) {
      state = verdict_state programs VerifyProfile.full;
      updated_at = "noon";
    })
unfolding parse_profile
handle_verify_work_lem_example =
    handle_verify_work_lem "w1" "full" at_noon stored (item submitted) VerifyProfile.full
      submitted_found refl refl "w1"

handle_review_work_lem_example :
    get_work_item "w1" (handle_review_work "w1" "reject" "more" noon stored).0 ≡ (
      if takes_review "reject" submitted && "w1" == "w1"
      then some (reviewed "reject" "more" noon (item submitted))
      else get_work_item "w1" stored)
handle_review_work_lem_example =
    handle_review_work_lem "w1" "reject" "more" noon stored (item submitted) submitted_found "w1"

one_process : Processes
one_process = record { start_time = λ pid. none; is_pid_alive = λ pid. true }

live_agents_run_example :
    is_agent_alive one_process "p1" (recover_on_restart one_process noon stored) ≡ true
unfolding one_process Recovery.recover_on_restart get_agent Recovery.mark_dead
    Recovery.find_dead_agents Agents.list_agents Agents.record_of Codec.parse_status Agents.row_of
    Codec.status_text is_agent_alive recover_work_items Recovery.recover_items Works.list_work_items
    Recovery.recover_item Codec.parse_role Codec.parse_disposition Codec.parse_harness
    Codec.role_text Codec.disposition_text Codec.harness_text
live_agents_run_example =
    live_agents_run one_process noon stored "p1" (agent running) stored-IsRegistry refl refl

recover_work_items_lem_example :
    get_work_item "w1" (recover_work_items (agent running ∷ []) noon stored)
    ≡ map_option (recovered (agent running ∷ []) noon) (get_work_item "w1" stored)
recover_work_items_lem_example =
    recover_work_items_lem (agent running ∷ []) noon stored stored-IsStored "w1"

completed_report_example :
    (is_ok (handle_report at_noon (report "completed") stored).1
      ≡ not (work_eq submitted needs_revision))
    × ((j : String)
        → get_work_item j (handle_report at_noon (report "completed") stored).0 ≡ (
            if "w1" == j
            then some (
                after_report
                  (record {
                    sha256 = or_unknown (compute_commit_diff_sha programs "tree" "c1");
                    artifact_path = "tree";
                    produced_at = "noon";
                  })
                  noon
                  (item submitted))
            else get_work_item j stored))
unfolding Report.from_str Reports.resolve_workspace_path Reports.verify_commit_in_workspace
    Agents.get_agent Agents.row_of Agents.record_of
completed_report_example =
    completed_report at_noon (report "completed") "c1" "tree" (item submitted) stored
      stored-IsStored refl refl submitted_found refl refl refl refl

failed_report_example :
    (is_ok (handle_report at_noon (report "failed") stored).1 ≡ not (work_eq submitted in_progress))
    × ((j : String)
        → get_work_item j (handle_report at_noon (report "failed") stored).0 ≡ (
            if (work_eq submitted submitted || work_eq submitted needs_revision) && "w1" == j
            then some (record (item submitted) {
              state = if ltb 1 3 then needs_revision else pending;
              updated_at = "12:00";
            })
            else get_work_item j stored))
unfolding Report.from_str
failed_report_example =
    failed_report at_noon (report "failed") (item submitted) stored stored-IsStored refl refl
      submitted_found refl
