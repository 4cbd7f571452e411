-- ===== src/Services/Scheduler/Count.antt =====
-- The groups and the unscheduled tasks together are the tasks.
use anti_subagent.Prelude.{
  ℕ, zero, suc, ◌+◌, String, Bool, true, false, ◌&&◌, not, ◌≡◌, refl, ap, some, List, [], ◌∷◌, ◌++◌,
  map, arith, ◌==◌, eq_iff, length, length-append, all, retain, concat, inl, inr,
}
use mathlib.Core.List.{append-nil, append_assoc}
use anti_subagent.Prelude.Table.{has_row, IsKeyed, has-row-find}
use anti_subagent.Services.Scheduler.{
  Task, task_id, DagGraph, Waves, Schedule, Scheduler, has, next_wave, build_waves, schedule_of,
  is_unfinished, build_schedule,
}
use anti_subagent.Services.Scheduler.Waves.{has-append, unfinished}
use anti_subagent.Services.Scheduler.Order.{
  can_run, distinct, runs_in_order, wave_fits, build_waves_round, build_waves-zero, map_option-some,
  waves_in_order,
}

has_one : (x y : String) → has x (y ∷ []) ≡ (x == y)
unfolding has
has_one x y = ground arith

unfinished_absent :
    (completed : List String) (id : String) (ts : List Task)
    → has_row task_id id ts ≡ false
    → unfinished (completed ++ id ∷ []) ts ≡ unfinished completed ts
unfinished_absent completed id [] h = refl
unfinished_absent completed id (t ∷ ts) h =
    ground (
      arith,
      unfinished_absent completed id ts,
      has-append t.id completed (id ∷ []),
      has_one t.id id,
    )

unfinished_one :
    (completed : List String) (id : String) (ts : List Task)
    → IsKeyed task_id ts
    → has_row task_id id ts ≡ true
    → has id completed ≡ false
    → unfinished completed ts ≡ suc (unfinished (completed ++ id ∷ []) ts)
unfinished_one completed id [] k h n = absurd (cc h)
unfinished_one completed id (t ∷ ts) k h n = ground (
  arith,
  unfinished_one completed id ts k.1,
  unfinished_absent completed id ts,
  has-append t.id completed (id ∷ []),
  has_one t.id id,
  k.0,
  eq_iff t.id id,
)

-- A task that is not completed.
abbrev is_open : List Task → List String → String → Bool
is_open ts completed id = has_row task_id id ts && not (has id completed)

open_apart :
    (ts : List Task) (completed : List String) (x : String) (ids : List String)
    → has x ids ≡ false
    → all (is_open ts completed) ids ≡ true
    → all (is_open ts (completed ++ x ∷ [])) ids ≡ true
unfolding has
open_apart ts completed x [] n h = refl
open_apart ts completed x (id ∷ ids) n h = ground (
  arith,
  open_apart ts completed x ids,
  has-append id completed (x ∷ []),
  has_one id x,
  eq_iff x id,
  eq_iff id x,
)

unfinished_wave :
    (ts : List Task) (completed ids : List String)
    → IsKeyed task_id ts
    → all (is_open ts completed) ids ≡ true
    → distinct ids ≡ true
    → unfinished completed ts ≡ length ids + unfinished (completed ++ ids) ts
unfolding distinct
unfinished_wave ts completed [] k h d = rw (append-nil completed) (omega arith)
unfinished_wave ts completed (id ∷ ids) k h d = ground (
  arith,
  unfinished_one completed id ts k,
  unfinished_wave ts (completed ++ id ∷ []) ids k,
  open_apart ts completed id ids,
  append_assoc completed (id ∷ []) ids,
)

can_run_open :
    (g : DagGraph) (completed ids : List String)
    → all (can_run g completed) ids ≡ true
    → all (is_open g.dependencies completed) ids ≡ true
unfolding can_run
can_run_open g completed [] h = refl
can_run_open g completed (id ∷ ids) h =
    ground (arith, can_run_open g completed ids, has-row-find task_id id g.dependencies)

module _ (max : ℕ) (g : DagGraph) (k : IsKeyed task_id g.dependencies) where
  waves_counted :
      (fuel : ℕ) (completed : List String) (w : Waves)
      → build_waves fuel max g completed ≡ some w
      → unfinished completed g.dependencies ≡ length (concat w.0) + unfinished w.1 g.dependencies
  waves_counted zero completed w h = absurd (cc (h, build_waves-zero max g completed))
  waves_counted (suc fuel) completed w h = elim (build_waves_round fuel max g completed w h) [
    | inl (e, f) ↦ rw f (omega arith)
    | inr (v, e, f) ↦ ground (
      arith,
      f,
      waves_counted fuel (completed ++ next_wave max g completed) v e,
      unfinished_wave g.dependencies completed (next_wave max g completed) k
          (can_run_open g completed (next_wave max g completed)
            (ground (arith, wave_fits max g completed k)))
          (ground (arith, wave_fits max g completed k)),
      length-append (next_wave max g completed) (concat v.0),
    )
  ]

unfinished_all : (ts : List Task) → unfinished [] ts ≡ length ts
unfolding has
unfinished_all [] = refl
unfinished_all (t ∷ ts) = ground (arith, unfinished_all ts)

length-map-id : (ts : List Task) → length (map task_id ts) ≡ length ts
length-map-id [] = refl
length-map-id (t ∷ ts) = ap suc (length-map-id ts)

-- The groups of a schedule can run one after another: no group has more tasks than the limit, a task
-- stands in one group at most and once, it is a task of the graph, and each of its dependencies stands in an earlier
-- group. The tasks of the groups and the unscheduled ones are together as many as the graph has. The
-- tasks have distinct ids.
pub build_schedule_lem :
    (s : Scheduler) (r : Schedule)
    → IsKeyed task_id s.graph.dependencies
    → build_schedule s ≡ some r
    → (runs_in_order s.resource_monitor.max_concurrent_peers s.graph [] r.parallel_groups ≡ true)
      × (length (concat r.parallel_groups) + length r.unscheduled ≡ r.total_tasks)
      × (r.total_tasks ≡ length s.graph.dependencies)
unfolding build_schedule
build_schedule_lem s r k h =
    let max = s.resource_monitor.max_concurrent_peers in
    let tasks = s.graph.dependencies in
    let (w, e, f) =
      map_option-some (schedule_of tasks) (build_waves (suc (length tasks)) max s.graph []) h in
    rw f (
      waves_in_order max s.graph k (suc (length tasks)) [] w e,
      omega (
        arith,
        waves_counted max s.graph k (suc (length tasks)) [] w e,
        unfinished_all tasks,
        length-map-id (retain (is_unfinished w.1) tasks),
      ),
      refl,
    )
