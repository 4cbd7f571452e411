-- ===== src/Checks/Manager.antt =====
-- The theorems on the manager of agents and on the requests' refinement at concrete inputs.
use anti_subagent.Prelude.{◌≡◌, refl, none, some, List, [], ◌∷◌, ok, err}
use anti_subagent.Core.Model.{running, blocked, completed, peer, engineer}
use anti_subagent.Core.Stream.{claude}
use anti_subagent.Core.Agent.{AgentRecord, default_config, SpawnRequest}
use anti_subagent.Core.Agent
use anti_subagent.Core.Status
use anti_subagent.Services.Manager.{
  Serde, written, refused, io, empty_manager, get, load, update_status,
}
use anti_subagent.Services.Manager
use anti_subagent.Services.Manager.Durable.{
  spawning, updating, pidding, Occasion, run, get-load, refused_write_diverges,
}
use anti_subagent.Services.Manager.Durable
use anti_subagent.Services.Manager.Lifecycle.{view, view_run, run_refines}
use anti_subagent.Checks.Data.{noon}

abbrev wanted : SpawnRequest
wanted = record {
  role = peer;
  disposition = some engineer;
  provider = claude;
  workspace_id = "ws-1";
  config = default_config;
  parent_id = some "lead";
}

abbrev worker : AgentRecord
worker = record {
  agent_id = "p1";
  parent_id = some "lead";
  role = peer;
  disposition = some engineer;
  provider = claude;
  workspace_id = "ws-1";
  status = running;
  persistence_handle = none;
  config = default_config;
  pid = some 7;
  created_at = "noon";
  last_activity_at = "noon";
  archived_at = none;
  restart_count = 0;
}

-- A file for this one record.
abbrev serde : Serde
serde = record { to_string_pretty = λ r. "worker"; from_str = λ text. some worker }

abbrev day : List Occasion
day =
    record { call = spawning "p1" wanted; clock = noon; writes = written }
    ∷ record { call = updating "p1" running; clock = noon; writes = written }
    ∷ record { call = pidding "p1" 7; clock = noon; writes = written }
    ∷ record { call = updating "p1" blocked; clock = noon; writes = written }
    ∷ []

worker_found : get "p1" (run serde day empty_manager) ≡ ok worker
unfolding get run Durable.apply_call update_status Manager.set_pid Manager.spawn Agent.transition
    Status.can_transition_to Agent.new Manager.save
worker_found = refl

get-load_example :
    (worker.agent_id ≡ "p1")
    × (load serde "ws-1" "p1" (run serde day empty_manager).storage ≡ ok (some worker))
get-load_example = get-load serde day "p1" worker refl refl worker_found

refused_write_diverges_example :
    ((update_status serde refused noon "p1" completed (run serde day empty_manager)).1 ≡ err io)
    × (get "p1" (update_status serde refused noon "p1" completed (run serde day empty_manager)).0
        ≡ ok (record worker { status = completed; last_activity_at = "noon" }))
    × (load serde "ws-1" "p1"
          (update_status serde refused noon "p1" completed (run serde day empty_manager)).0.storage
        ≡ ok (some worker))
unfolding Status.can_transition_to
refused_write_diverges_example =
    refused_write_diverges serde day noon "p1" completed worker refl refl worker_found refl

run_refines_example : view (run serde day empty_manager) ≡ view_run day (view empty_manager)
run_refines_example = run_refines serde day empty_manager
