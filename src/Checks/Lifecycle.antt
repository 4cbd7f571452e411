-- ===== src/Checks/Lifecycle.antt =====
-- The theorems on restarts, exits and deliveries at concrete inputs.
use anti_subagent.Prelude.{
  true, ℕ, String, false, not, ◌||◌, ◌&&◌, ◌≡◌, refl, none, some, [], ◌∷◌, Result, ok, is_ok,
  map_option, pos, ◌==◌, if◌then◌else◌,
}
use anti_subagent.Prelude.Table.{has_row}
use anti_subagent.Core.Model.{stopped, crashed, running, starting, failed, peer, codex, status_eq}
use anti_subagent.Core.Work.{submitted}
use anti_subagent.Core.Dispatch.{DispatchStatus, DispatchEvent}
use anti_subagent.Store.Db.{Store, empty}
use anti_subagent.Store.Codec.{
  status_text, parse_status, role_text, parse_role, disposition_text, parse_disposition,
  harness_text, parse_harness, dispatch_text, parse_dispatch_status,
}
use anti_subagent.Store.Agents.{get_agent}
use anti_subagent.Store.Agents
use anti_subagent.Store.Agents.Laws.{IsRegistry, moved}
use anti_subagent.Store.Deliveries.{
  insert_dispatch_event, update_dispatch_status, get_dispatch_events_by_task, event_of,
}
use anti_subagent.Store.Deliveries
use anti_subagent.Store.Deliveries.Laws.{IsDelivered}
use anti_subagent.Daemon.Restart.{Running, ExitStatus, child_id, repo_of, restart_agent, reap_child}
use anti_subagent.Daemon.Restart.Laws.{restarted, restart_agent_lem}
use anti_subagent.Daemon.Restart.Reaping.{reaped, reap_child_lem}
use anti_subagent.Daemon.Spawn.{
  World, SpawnRequest, record_for, requested_role, requested_harness, spawn_peer_impl,
}
use anti_subagent.Daemon.Spawn.Laws.{after_lease, is_ok_response, spawn_peer_impl_lem}
use anti_subagent.Daemon.Wire.{Response}
use anti_subagent.Daemon.Stop.{Poll, Signals, pid_of, stop_agent}
use anti_subagent.Daemon.Stop.Laws.{was_seen_gone, stop_agent_lem}
use anti_subagent.Checks.Data.{noon, agent, store_of}
use anti_subagent.Checks.Store.{stored, stored-IsRegistry}

abbrev broken : Running
broken = record { store = store_of crashed submitted; children = [] }

broken-IsRegistry : IsRegistry broken.store
unfolding Agents.row_of parse_status status_text
broken-IsRegistry = record { keyed = (refl, tt); typed = (refl, tt) }

abbrev starts_as_nine : String → Result String ℕ
starts_as_nine dir = ok 9

restart_agent_lem_example :
    (is_ok (restart_agent starts_as_nine "/" "p1" noon broken).1
      ≡ is_ok (starts_as_nine (repo_of "/" (agent crashed).workspace)))
    × ((j : String)
        → get_agent j (restart_agent starts_as_nine "/" "p1" noon broken).0.store ≡ (
            if "p1" == j
            then some (
                restarted
                  (starts_as_nine (repo_of "/" (agent crashed).workspace))
                  noon
                  (agent crashed))
            else get_agent j broken.store))
unfolding Agents.get_agent Agents.row_of Agents.record_of status_text parse_status role_text
    parse_role disposition_text parse_disposition harness_text parse_harness
restart_agent_lem_example =
    restart_agent_lem starts_as_nine "/" "p1" noon broken (agent crashed) broken-IsRegistry refl
      refl

abbrev watched : Running
watched = record { store = stored; children = record { id = "p1"; pid = 7 } ∷ [] }

abbrev killed : ExitStatus
killed = record { code = some (pos 137); signaled = false }

reap_child_lem_example :
    (get_agent "p1" (reap_child "p1" killed noon watched).store ≡ (
      if "p1" == "p1"
      then map_option (reaped killed noon) (get_agent "p1" stored)
      else get_agent "p1" stored))
    × (has_row child_id "p1" (reap_child "p1" killed noon watched).children
        ≡ (if "p1" == "p1" then false else has_row child_id "p1" watched.children))
reap_child_lem_example = reap_child_lem "p1" "p1" killed noon watched stored-IsRegistry

abbrev sent : DispatchEvent
sent = record {
  id = "d1";
  task_id = "t1";
  peer_id = "p1";
  status = DispatchStatus.pending;
  outcome = none;
  created_at = "noon";
  updated_at = "noon";
}

abbrev delivering : Store
delivering = record empty { dispatch_events = Deliveries.row_of sent ∷ [] }

delivering-IsDelivered : IsDelivered delivering
unfolding Deliveries.row_of parse_dispatch_status dispatch_text
delivering-IsDelivered = record { keyed = (refl, tt); typed = (refl, tt) }

abbrev good_world : World
good_world = record {
  is_dir = λ path. true;
  acquire = λ repo id. ok (record { lease_id = "l2"; path = "tree2" });
  spawn_command = λ harness path. ok tt;
  spawn = λ path. ok 11;
}

abbrev new_peer : SpawnRequest
new_peer = record {
  id = "p2";
  role = "peer";
  disposition = some "scout";
  harness = "codex";
  task_path = none;
  repo = "/repo";
  parent_id = none;
}

spawn_peer_impl_lem_example :
    ((j : String)
      → get_agent j (spawn_peer_impl good_world new_peer noon broken).0.store ≡ (
          if "p2" == j
          then some (
              after_lease good_world new_peer noon
                (moved starting noon (record_for new_peer peer codex noon)))
          else get_agent j broken.store))
    × (is_ok_response (spawn_peer_impl good_world new_peer noon broken).1
        ≡ status_eq
            (after_lease good_world new_peer noon
              (moved starting noon (record_for new_peer peer codex noon))).status
            running)
    × (status_eq
            (after_lease good_world new_peer noon
              (moved starting noon (record_for new_peer peer codex noon))).status
            running
          || status_eq
              (after_lease good_world new_peer noon
                (moved starting noon (record_for new_peer peer codex noon))).status
              failed
        ≡ true)
unfolding Agents.get_agent Agents.row_of requested_role requested_harness
spawn_peer_impl_lem_example =
    spawn_peer_impl_lem good_world new_peer noon broken peer codex refl refl refl refl refl

abbrev answering : Poll
answering = record { exited = false; answers = true }

-- The process ignores SIGTERM and ends with SIGKILL.
abbrev stubborn : Signals
stubborn = record {
  kill_sent = true;
  term_sent = true;
  first = answering ∷ [];
  second = answering ∷ record { exited = true; answers = true } ∷ [];
  answers_last = false;
}

abbrev with_pid : Running
with_pid = record {
  store = record empty { agents = Agents.row_of (record (agent running) { pid = some 7 }) ∷ [] };
  children = record { id = "p1"; pid = 7 } ∷ [];
}

abbrev after_stop : Running × Response
after_stop = stop_agent (λ pid. stubborn) false "p1" noon with_pid

stop_agent_lem_example :
    ((not (is_ok_response after_stop.1)
        || was_seen_gone (has_row child_id "p1" with_pid.children) stubborn)
      ≡ true)
    × ((is_ok_response after_stop.1 || stubborn.answers_last) ≡ true)
    × (get_agent "p1" after_stop.0.store ≡ (
        if is_ok_response after_stop.1 && "p1" == "p1"
        then map_option (moved stopped noon) (get_agent "p1" with_pid.store)
        else get_agent "p1" with_pid.store))
    × (has_row child_id "p1" after_stop.0.children
        ≡ (if "p1" == "p1" then false else has_row child_id "p1" with_pid.children))
unfolding pid_of Agents.get_agent Agents.row_of Agents.record_of
stop_agent_lem_example = stop_agent_lem (λ pid. stubborn) false "p1" "p1" noon with_pid 7 refl
