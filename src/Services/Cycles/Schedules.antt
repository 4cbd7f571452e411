-- ===== src/Services/Cycles/Schedules.antt =====
-- A circle is found exactly where the scheduler leaves tasks out.
use anti_subagent.Prelude.{
  suc, ◌<◌, String, Bool, true, false, ◌&&◌, ◌≡◌, refl, sym, ap, some, List, [], ◌∷◌, map, arith,
  ◌==◌, eq_iff, length, all, retain, All, ltb, lt→ltb, inl, inr, Option-cases, Bool-cases,
}
use mathlib.Core.Path.{subst}
use anti_subagent.Prelude.Table.{find_row, has_row, find-has-row, find-key, IsKeyed, All-find}
use anti_subagent.Services.Scheduler.{
  Task, task_id, DagGraph, Schedule, Scheduler, has, build_waves, schedule_of, is_unfinished,
  build_schedule,
}
use anti_subagent.Services.Scheduler.Order.{map_option-some, waves_final}
use anti_subagent.Services.Scheduler.Complete.{
  Stuck, nobody_ready, no_next_wave, nothing_unfinished, every_row,
}
use anti_subagent.Services.Cycles.{needs_of, has_cycle}
use anti_subagent.Services.Cycles.Ends.{has_cycle_ends, no_needs}
use anti_subagent.Services.Cycles.Waiting.{needs_of_found, Closed, circle_waits}
use anti_subagent.Services.Cycles.Sound.{Reaches, Sorted, Means, has_cycle-Means}

-- Every dependency is a task of the graph.
unfoldable pub is_known : List Task → List Task → Bool
is_known tasks [] = true
is_known tasks (t ∷ ts) = all (λ d. has_row task_id d tasks) t.needs && is_known tasks ts

module _ (g : DagGraph) (completed : List String) where
  abbrev Known : Task → Type 0
  Known t = all (λ d. has_row task_id d g.dependencies) t.needs ≡ true

  Known-rows : (ts : List Task) → is_known g.dependencies ts ≡ true → All Known ts
  unfolding is_known
  Known-rows [] h = tt
  Known-rows (t ∷ ts) h = (ground arith, Known-rows ts (ground arith))

  needs_completed :
      (left needs : List String)
      → ((d : String)
          → has d left ≡ true
          → has_row task_id d g.dependencies ≡ true
          → has d completed ≡ true)
      → all (λ d. has d left) needs ≡ true
      → all (λ d. has_row task_id d g.dependencies) needs ≡ true
      → all (λ d. has d completed) needs ≡ true
  needs_completed left [] h a k = refl
  needs_completed left (d ∷ ds) h a k = ground (arith, h d, needs_completed left ds h)

  Sorted-completed :
      All (Stuck completed) g.dependencies
      → is_known g.dependencies g.dependencies ≡ true
      → (left : List String) → Sorted g left
      → (id : String) → has id left ≡ true
      → has_row task_id id g.dependencies ≡ true
      → has id completed ≡ true
  unfolding has
  Sorted-completed stuck known [] o id h r = absurd (cc h)
  Sorted-completed stuck known (x ∷ xs) o id h r = elim (Bool-cases (id == x)) [
    | inr n ↦ Sorted-completed stuck known xs o.1 id (ground arith) r
    | inl y ↦ elim (Option-cases (find_row task_id id g.dependencies)) [
      | inl e ↦ absurd (cc (r, find-has-row task_id id g.dependencies e))
      | inr (t, e) ↦ ground (
        arith,
        o.0,
        needs_of_found g id t e,
        eq_iff id x,
        eq_iff t.id id,
        find-key task_id id g.dependencies e,
        All-find task_id (Stuck completed) id g.dependencies stuck e,
        needs_completed xs t.needs (λ d h₁ r₁. Sorted-completed stuck known xs o.1 d h₁ r₁),
        All-find task_id Known id g.dependencies (Known-rows g.dependencies known) e,
      )
    ]
  ]

reach_first :
    (g : DagGraph) (x y : String) → Reaches g x y → (d : String) × (has d (needs_of g x) ≡ true)
reach_first g x y (Reaches.step h) = (y, h)
reach_first g x y (Reaches.more {b} r h) = reach_first g x b r

row_of_found :
    (x : String) (t : Task) (ts : List Task)
    → find_row task_id x ts ≡ some t
    → has_row task_id x ts ≡ true
row_of_found x t [] e = absurd (cc e)
row_of_found x t (r ∷ ts) e = ground (arith, row_of_found x t ts)

nothing_has : (x : String) → has x [] ≡ false
unfolding has
nothing_has x = refl

nothing-Closed : (g : DagGraph) → Closed g []
nothing-Closed g x d h k = absurd (cc (h, nothing_has x))

covered :
    (left : List String) (ts : List Task)
    → all (λ d. has d left) (map task_id ts) ≡ true
    → (id : String) → has_row task_id id ts ≡ true
    → has id left ≡ true
covered left [] a id h = absurd (cc h)
covered left (t ∷ ts) a id h = elim (Bool-cases (t.id == id)) [
  | inl y ↦ ground (arith, eq_iff t.id id)
  | inr n ↦ covered left ts (ground arith) id (ground arith)
]

circle_is_task :
    (g : DagGraph) (x d : String)
    → has d (needs_of g x) ≡ true
    → has_row task_id x g.dependencies ≡ true
circle_is_task g x d h = elim (Option-cases (find_row task_id x g.dependencies)) [
  | inl e ↦ absurd (cc (h, no_needs g x e, nothing_has d))
  | inr (t, e) ↦ row_of_found x t g.dependencies e
]

left_out :
    (completed : List String) (x : String) (ts : List Task)
    → has_row task_id x ts ≡ true
    → has x completed ≡ false
    → 0 < length (map task_id (retain (is_unfinished completed) ts))
left_out completed x [] h n = absurd (cc h)
left_out completed x (t ∷ ts) h n = ground (arith, left_out completed x ts, eq_iff t.id x)

-- The search for a circle and the scheduler agree: has_cycle answers true exactly where build_schedule
-- leaves tasks out. The tasks have distinct ids and depend on tasks of the graph only, and the limit is
-- not 0.
pub has_cycle-build_schedule :
    (s : Scheduler) (r : Schedule)
    → IsKeyed task_id s.graph.dependencies
    → is_known s.graph.dependencies s.graph.dependencies ≡ true
    → 0 < s.resource_monitor.max_concurrent_peers
    → build_schedule s ≡ some r
    → has_cycle s.graph ≡ some (ltb 0 (length r.unscheduled))
unfolding build_schedule
has_cycle-build_schedule s r k known p h =
    let max = s.resource_monitor.max_concurrent_peers in
    let tasks = s.graph.dependencies in
    let (w, e, f) =
      map_option-some (schedule_of tasks) (build_waves (suc (length tasks)) max s.graph []) h in
    elim (Option-cases (has_cycle s.graph)) [
      | inl o ↦ absurd (cc (o, has_cycle_ends s.graph))
      | inr (true, o) ↦
          let (x, circle) = subst (Means s.graph) o (has_cycle-Means s.graph) in
          let (d, first) = reach_first s.graph x x circle in
          rw (o, f)
            (ap some (
              sym (
                lt→ltb 0 (length (schedule_of tasks w).unscheduled) (
                  left_out w.1 x tasks (circle_is_task s.graph x d first) (
                    circle_waits max s.graph k x circle (suc (length tasks)) [] w e
                      (nothing-Closed s.graph) (nothing_has x))))))
      | inr (false, o) ↦
          let (left, sorted, covers) = subst (Means s.graph) o (has_cycle-Means s.graph) in
          let stuck = nobody_ready w.1 tasks (
            no_next_wave max s.graph w.1 p
              (waves_final max s.graph k (suc (length tasks)) [] w e).0) in
          rw
            (
              o,
              f,
              nothing_unfinished w.1 tasks (
                  every_row (λ (id : String). has id w.1 ≡ true) tasks tasks
                    (λ id here.
                      Sorted-completed s.graph w.1 stuck known left sorted id
                        (covered left tasks covers id here) here)
                    (λ id here. here)),
            )
            refl
    ]
