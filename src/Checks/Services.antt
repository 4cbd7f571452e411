-- ===== src/Checks/Services.antt =====
-- The theorems on the scheduler and on the waiting at concrete inputs.
use anti_subagent.Prelude.{
  ◌+◌, suc, true, ◌≡◌, refl, some, List, [], ◌∷◌, arith, is_some, ltb, length, concat,
}
use anti_subagent.Core.Model.{running, completed}
use anti_subagent.Store.Db.{empty}
use anti_subagent.Core.Model
use anti_subagent.Store.Codec
use anti_subagent.Store.Events
use anti_subagent.Store.Agents
use anti_subagent.Services.Scheduler
use anti_subagent.Services.Cycles.Schedules
use anti_subagent.Services.Scheduler.{Task, DagGraph, Schedule, Scheduler, build_schedule}
use anti_subagent.Services.Scheduler.Waves.{build_schedule_ends}
use anti_subagent.Services.Scheduler.Order.{runs_in_order}
use anti_subagent.Services.Scheduler.Count.{build_schedule_lem}
use anti_subagent.Services.Cycles.{has_cycle}
use anti_subagent.Services.Cycles.Schedules.{has_cycle-build_schedule}
use anti_subagent.Daemon.Waiting.{Polls, unanswered, status_at, wait_agent}
use anti_subagent.Daemon.Waiting.Laws.{busy_log_waits_on}
use anti_subagent.Services.Wait.{Rounds, wait_for_status}
use anti_subagent.Services.Wait.Laws.{
  has_ended, IsAnswered, wait_for_status_ends, wait_for_status_lem,
}
use anti_subagent.Checks.Data.{agent}

-- `c` waits for `a` and `b`; `d` and `e` wait for each other.
abbrev five : List Task
five =
    record { id = "c"; needs = "a" ∷ "b" ∷ [] }
    ∷ record { id = "a"; needs = [] }
    ∷ record { id = "b"; needs = "a" ∷ [] }
    ∷ record { id = "d"; needs = "e" ∷ [] }
    ∷ record { id = "e"; needs = "d" ∷ [] }
    ∷ []

abbrev busy_five : Scheduler
busy_five = record {
  graph = record { dependencies = five; dependents = [] };
  resource_monitor = record { max_concurrent_peers = 2; current_peers = 0 };
}

abbrev plan : Schedule
plan = record {
  parallel_groups = ("a" ∷ []) ∷ ("b" ∷ []) ∷ ("c" ∷ []) ∷ [];
  total_tasks = 5;
  unscheduled = "d" ∷ "e" ∷ [];
}

planned : build_schedule busy_five ≡ some plan
unfolding build_schedule Scheduler.build_waves Scheduler.next_wave Scheduler.ready_tasks
    Scheduler.has
planned = refl

build_schedule_ends_example : is_some (build_schedule busy_five) ≡ true
build_schedule_ends_example = build_schedule_ends busy_five

build_schedule_lem_example :
    (runs_in_order 2 busy_five.graph [] plan.parallel_groups ≡ true)
    × (length (concat plan.parallel_groups) + length plan.unscheduled ≡ plan.total_tasks)
    × (plan.total_tasks ≡ length five)
build_schedule_lem_example =
    build_schedule_lem busy_five plan (refl, (refl, (refl, (refl, (refl, tt))))) planned

has_cycle-build_schedule_example :
    has_cycle busy_five.graph ≡ some (ltb 0 (length plan.unscheduled))
unfolding Schedules.is_known
has_cycle-build_schedule_example =
    has_cycle-build_schedule busy_five plan (refl, (refl, (refl, (refl, (refl, tt))))) refl
      (omega arith) planned

-- The clock is late from the third round on.
abbrev calm : Rounds
calm = record {
  read = λ n. record empty { agents = Agents.row_of (agent running) ∷ [] };
  late = λ n. ltb 2 n;
}

wait_for_status_ends_example : has_ended (wait_for_status 4 calm empty "p1" completed) ≡ true
wait_for_status_ends_example = wait_for_status_ends 4 3 calm empty "p1" completed refl (omega arith)

wait_for_status_lem_example :
    IsAnswered calm "p1" completed (wait_for_status 6 calm empty "p1" completed)
wait_for_status_lem_example = wait_for_status_lem 6 calm empty "p1" completed

-- Every round finds one event more, and the clock is late from the first.
abbrev busy : Polls
busy = record {
  store = λ n. record empty { agents = Agents.row_of (agent running) ∷ []; event_seq = suc n };
  late = λ n. true;
}

busy_log_waits_on_example : wait_agent 9 busy "p1" completed ≡ unanswered
unfolding Events.current_sequence status_at Agents.get_agent Agents.row_of Agents.record_of
    Codec.parse_status Codec.status_text Model.is_terminal
busy_log_waits_on_example =
    busy_log_waits_on 9 busy "p1" completed (λ k. refl) (λ k. ground arith) refl
