-- ===== src/Checks/Buses.antt =====
-- The theorems on the bus and the loops at concrete inputs.
use anti_subagent.Prelude.{
  String, Bool, true, false, ◌≡◌, refl, none, some, List, [], ◌∷◌, pos, length, is_ok, Clock,
}
use anti_subagent.Daemon.Wire.{Output}
use anti_subagent.Services.Bus.{OrchestratorEvent, new_bus, subscribe, queues}
use anti_subagent.Services.Bus.Delivery.{BusCall, calls, emitted_for, get_elem?, subscribe-calls}
use anti_subagent.Services.Loops.{
  LoopRequest, LoopService, VerifyCheckResult, loop_of, halted, get, stop,
}
use anti_subagent.Services.Loops.Laws.{
  LoopCall, runs, stop_lem, ended_loop_stays, run_verify_check_lem,
}
use anti_subagent.Services.Loops.Laws
use anti_subagent.Checks.Data.{noon}

abbrev traffic : List BusCall
traffic =
    BusCall.emitting (OrchestratorEvent.agent_failed "p2" "lost")
    ∷ BusCall.subscribing "p1"
    ∷ BusCall.emitting (OrchestratorEvent.agent_message "p1" "done")
    ∷ BusCall.emitting (OrchestratorEvent.handoff_requested "p1" "p2" "full")
    ∷ BusCall.emitting (OrchestratorEvent.agent_archived "p1")
    ∷ []

subscribe-calls_example :
    get_elem? (queues "p1" (calls traffic (subscribe "p1" new_bus))) (length (queues "p1" new_bus))
    ≡ some (emitted_for "p1" traffic)
subscribe-calls_example = subscribe-calls traffic "p1" new_bus

abbrev wish : LoopRequest
wish = record {
  name = none;
  prompt = "fix it";
  verify_checks = [];
  verify_prompt = none;
  sleep_ms = 0;
  max_iterations = none;
}

abbrev looping : LoopService
looping = record { loops = loop_of noon "1a2b3c4d" wish ∷ []; persisted = [] }

abbrev halted_loop : LoopService
halted_loop = record { loops = halted noon (loop_of noon "1a2b3c4d" wish) ∷ []; persisted = [] }

abbrev more : List (LoopCall × Bool × Clock)
more =
    (LoopCall.creating "1a2b3c4d" wish, true, noon)
    ∷ (LoopCall.stopping "1a2b3c4d", false, noon)
    ∷ []

ended_loop_stays_example :
    (get "1a2b3c4d" (Laws.calls more halted_loop)
      ≡ some (halted noon (loop_of noon "1a2b3c4d" wish)))
    × (is_ok (stop true noon "1a2b3c4d" (Laws.calls more halted_loop)).1 ≡ false)
unfolding get
ended_loop_stays_example =
    ended_loop_stays more true noon "1a2b3c4d" halted_loop
      (halted noon (loop_of noon "1a2b3c4d" wish)) refl refl

abbrev shell : String → Output
shell command = Output.exited false (some (pos 2)) "out" "bad"

abbrev check_result : VerifyCheckResult
check_result = record {
  command = "make";
  exit_code = pos 2;
  passed = false;
  stdout = "out";
  stderr = "bad";
  started_at = "noon";
  completed_at = "noon";
}
