-- ===== src/Services/Scheduler/Waves.antt =====
-- The loop of build_schedule ends.
use anti_subagent.Prelude.{
  ℕ, zero, suc, ◌≤◌, ◌<◌, String, true, ◌||◌, ◌≡◌, refl, Option, none, some, List, [], ◌∷◌, ◌++◌,
  map, arith, eq_iff, eq_refl, length, length-retain, is_some, retain, take, inl, inr, List-cases,
  map_option,
}
use anti_subagent.Services.Scheduler.{
  Task, task_id, DagGraph, Scheduler, has, is_ready, ready_tasks, next_wave, with_wave, build_waves,
  schedule_of, is_unfinished, build_schedule,
}

pub has-append : (x : String) (ys zs : List String) → has x (ys ++ zs) ≡ (has x ys || has x zs)
unfolding has
has-append x [] zs = refl
has-append x (y ∷ ys) zs = ground (arith, has-append x ys zs)

pub has-take : (x : String) (n : ℕ) (ys : List String) → has x (take n ys) ≡ true → has x ys ≡ true
unfolding has
has-take x zero ys h = absurd (cc h)
has-take x (suc n) [] h = h
has-take x (suc n) (y ∷ ys) h = ground (arith, has-take x n ys)

abbrev pub unfinished : List String → List Task → ℕ
unfinished completed tasks = length (retain (is_unfinished completed) tasks)

unfinished_less :
    (completed more : List String) (tasks : List Task)
    → unfinished (completed ++ more) tasks ≤ unfinished completed tasks
unfinished_less completed more [] = omega arith
unfinished_less completed more (t ∷ ts) =
    ground (arith, unfinished_less completed more ts, has-append t.id completed more)

unfinished_drops :
    (completed more : List String) (id : String) (tasks : List Task)
    → has id (map task_id (retain (is_ready completed) tasks)) ≡ true
    → has id more ≡ true
    → unfinished (completed ++ more) tasks < unfinished completed tasks
unfolding has
unfinished_drops completed more id [] h k = absurd (cc h)
unfinished_drops completed more id (t ∷ ts) h k = ground (
  arith,
  unfinished_drops completed more id ts,
  unfinished_less completed more ts,
  has-append t.id completed more,
  eq_iff id t.id,
)

wave_is_ready :
    (max : ℕ) (g : DagGraph) (completed ids : List String) (id : String)
    → next_wave max g completed ≡ id ∷ ids
    → has id (map task_id (retain (is_ready completed) g.dependencies)) ≡ true
unfolding has ready_tasks next_wave
wave_is_ready max g completed ids id e =
    has-take id max (map task_id (retain (is_ready completed) g.dependencies))
      (ground (arith, e, eq_refl id))

has_head : (id : String) (ids : List String) → has id (id ∷ ids) ≡ true
unfolding has
has_head id ids = ground (arith, eq_refl id)

module _ (fuel max : ℕ) (g : DagGraph) (completed : List String) where
  pub build_waves_stop :
      next_wave max g completed ≡ [] → build_waves (suc fuel) max g completed ≡ some ([], completed)
  unfolding build_waves
  build_waves_stop e = rw (build_waves, e) refl

  pub build_waves_go :
      (id : String) (ids : List String)
      → next_wave max g completed ≡ id ∷ ids
      → build_waves (suc fuel) max g completed
        ≡ map_option (with_wave (id ∷ ids)) (build_waves fuel max g (completed ++ id ∷ ids))
  unfolding build_waves
  build_waves_go id ids e = rw (build_waves, e) refl

is_some-map {ℓ κ} :
    {A : Type ℓ} {B : Type κ} (f : A → B) (o : Option A) → is_some (map_option f o) ≡ is_some o
is_some-map f none = refl
is_some-map f (some a) = refl

build_waves_enough :
    (fuel max : ℕ) (g : DagGraph) (completed : List String)
    → unfinished completed g.dependencies < fuel
    → is_some (build_waves fuel max g completed) ≡ true
build_waves_enough zero max g completed h = absurd (omega arith)
build_waves_enough (suc fuel) max g completed h = elim (List-cases (next_wave max g completed)) [
  | inl e ↦ rw (build_waves_stop fuel max g completed e) refl
  | inr (id, ids, e) ↦ ground (
    arith,
    build_waves_go fuel max g completed id ids e,
    is_some-map (with_wave (id ∷ ids)) (build_waves fuel max g (completed ++ id ∷ ids)),
    build_waves_enough fuel max g (completed ++ id ∷ ids),
    unfinished_drops completed (id ∷ ids) id g.dependencies
        (wave_is_ready max g completed ids id e),
    has_head id ids,
  )
]

-- The loop of build_schedule ends, whatever the tasks, their dependencies and the limit: with fuel for
-- one round more than there are tasks it gives a schedule.
pub build_schedule_ends : (s : Scheduler) → is_some (build_schedule s) ≡ true
unfolding build_schedule
build_schedule_ends s = ground (
  arith,
  build_waves_enough (suc (length s.graph.dependencies)) s.resource_monitor.max_concurrent_peers
      s.graph [],
  length-retain (is_unfinished []) s.graph.dependencies,
  is_some-map (schedule_of s.graph.dependencies) (
      build_waves (suc (length s.graph.dependencies)) s.resource_monitor.max_concurrent_peers
        s.graph []),
)
