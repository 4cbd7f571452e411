-- ===== src/Services/Scheduler.antt =====
-- The scheduler of tasks (crates/anti-daemon/src/scheduler.rs). The map of the dependencies is the list
-- of its entries in the order of their iteration, and a set of ids a list. The loop of build_schedule
-- has fuel, one more than there are tasks.
pub mod Waves
pub mod Order
pub mod Count
pub mod Complete
use anti_subagent.Prelude.{
  ℕ, zero, suc, ◌+◌, ◌-◌, String, Bool, true, false, ◌&&◌, ◌||◌, not, Option, none, some, List, [],
  ◌∷◌, ◌++◌, map, ◌==◌, ltb, length, any, all, retain, take, map_option, if◌then◌else◌,
}
use anti_subagent.Prelude.Table.{find_row, replace_row}

pub record Task : Type 0 where
  pub id : String
  pub needs : List String

abbrev pub task_id : Task → String
task_id t = t.id

-- An entry of `dependents`.
pub record Dependent : Type 0 where
  pub on : String
  pub waiting : List String

abbrev pub dependent_on : Dependent → String
dependent_on d = d.on

pub record DagGraph : Type 0 where
  pub dependencies : List Task
  pub dependents : List Dependent

-- HashSet::contains.
unfoldable pub has : String → List String → Bool
has x [] = false
has x (y ∷ ys) = (x == y) || has x ys

abbrev waiting_for : String → List Dependent → List String
waiting_for dep ds = elim (find_row dependent_on dep ds) [ none ↦ [] | some d ↦ d.waiting ]

-- The loop over the dependencies in add_task: `entry(dep).or_default().push(id)`.
add_dependents : String → List String → List Dependent → List Dependent
add_dependents id [] ds = ds
add_dependents id (dep ∷ deps) ds =
    add_dependents id deps
      (replace_row dependent_on (record { on = dep; waiting = waiting_for dep ds ++ id ∷ [] }) ds)

unfoldable pub add_task : String → List String → DagGraph → DagGraph
unfolding add_dependents
add_task id deps g = record {
  dependencies = replace_row task_id (record { id = id; needs = deps }) g.dependencies;
  dependents = add_dependents id deps g.dependents;
}

abbrev pub is_ready : List String → Task → Bool
is_ready completed t = not (has t.id completed) && all (λ d. has d completed) t.needs

unfoldable pub ready_tasks : DagGraph → List String → List String
ready_tasks g completed = map task_id (retain (is_ready completed) g.dependencies)

pub record ResourceMonitor : Type 0 where
  pub max_concurrent_peers : ℕ
  pub current_peers : ℕ

unfoldable pub can_spawn : ResourceMonitor → Bool
can_spawn m = ltb m.current_peers m.max_concurrent_peers

unfoldable pub peer_started : ResourceMonitor → ResourceMonitor
peer_started m = record m { current_peers = m.current_peers + 1 }

unfoldable pub peer_finished : ResourceMonitor → ResourceMonitor
peer_finished m = record m { current_peers = m.current_peers - 1 }

pub record Schedule : Type 0 where
  pub parallel_groups : List (List String)
  pub total_tasks : ℕ
  pub unscheduled : List String

pub record Scheduler : Type 0 where
  pub graph : DagGraph
  pub resource_monitor : ResourceMonitor

-- What the loop leaves: the groups and the completed tasks.
abbrev pub Waves : Type 0
Waves = List (List String) × List String

abbrev pub with_wave : List String → Waves → Waves
with_wave wave w = (wave ∷ w.0, w.1)

unfoldable pub next_wave : ℕ → DagGraph → List String → List String
next_wave max g completed = take max (ready_tasks g completed)

-- The loop of build_schedule; none where the fuel is used up. An empty `ready` gives an empty wave, so
-- that one test stands for the two.
unfoldable pub build_waves : ℕ → ℕ → DagGraph → List String → Option Waves
build_waves zero max g completed = none
build_waves (suc fuel) max g completed = elim (next_wave max g completed) [
  | [] ↦ some ([], completed)
  | id ∷ ids ↦ map_option (with_wave (id ∷ ids)) (build_waves fuel max g (completed ++ id ∷ ids))
]

abbrev pub is_unfinished : List String → Task → Bool
is_unfinished completed t = not (has t.id completed)

abbrev pub schedule_of : List Task → Waves → Schedule
schedule_of tasks w = record {
  parallel_groups = w.0;
  total_tasks = length tasks;
  unscheduled = map task_id (retain (is_unfinished w.1) tasks);
}

unfoldable pub build_schedule : Scheduler → Option Schedule
build_schedule s = map_option (schedule_of s.graph.dependencies) (
    build_waves (suc (length s.graph.dependencies)) s.resource_monitor.max_concurrent_peers s.graph
      [])
