-- ===== src/Services/Scheduler/Complete.antt =====
-- Tasks whose dependencies go round in no circle are all scheduled.
use anti_subagent.Prelude.{
  ℕ, zero, suc, ◌<◌, String, Bool, true, false, ◌&&◌, ◌≡◌, refl, some, List, [], ◌∷◌, map, arith,
  eq_iff, eq_refl, length, all, retain, take, All, ltb, ltb→lt, inl, inr, Option-cases, Bool-cases,
}
use anti_subagent.Prelude.Table.{find_row, has_row, find-has-row, find-key, IsKeyed, All-find}
use anti_subagent.Services.Scheduler.{
  Task, task_id, DagGraph, Schedule, Scheduler, has, is_ready, ready_tasks, next_wave, build_waves,
  schedule_of, is_unfinished, build_schedule,
}
use anti_subagent.Services.Scheduler.Order.{map_option-some, waves_final}

-- A numbering of the ids under which every dependency is a task of a lower number: the tasks go round
-- in no circle and depend on tasks of the graph only.
unfoldable pub is_ranked : (String → ℕ) → List Task → List Task → Bool
is_ranked rank tasks [] = true
is_ranked rank tasks (t ∷ ts) =
    all (λ d. has_row task_id d tasks && ltb (rank d) (rank t.id)) t.needs
    && is_ranked rank tasks ts

abbrev pub Stuck : List String → Task → Type 0
Stuck completed t = is_ready completed t ≡ false

pub nobody_ready :
    (completed : List String) (ts : List Task)
    → map task_id (retain (is_ready completed) ts) ≡ []
    → All (Stuck completed) ts
nobody_ready completed [] e = tt
nobody_ready completed (t ∷ ts) e = elim (Bool-cases (is_ready completed t)) [
  | inl y ↦ absurd (cc (rw y at e))
  | inr n ↦ (n, nobody_ready completed ts (rw n at e))
]

take_nothing {ℓ} : {A : Type ℓ} (n : ℕ) (xs : List A) → 0 < n → take n xs ≡ [] → xs ≡ []
take_nothing zero xs h e = absurd (omega arith)
take_nothing (suc n) [] h e = refl
take_nothing (suc n) (x ∷ xs) h e = absurd (cc e)

module _ (rank : String → ℕ) (g : DagGraph) (completed : List String) where
  abbrev Ranked : Task → Type 0
  Ranked t = all (λ d. has_row task_id d g.dependencies && ltb (rank d) (rank t.id)) t.needs ≡ true

  needs_met :
      (n : ℕ) (id : String) (needs : List String)
      → ((d : String)
          → has_row task_id d g.dependencies ≡ true
          → rank d < n
          → has d completed ≡ true)
      → all (λ d. has_row task_id d g.dependencies && ltb (rank d) (rank id)) needs ≡ true
      → rank id < suc n
      → all (λ d. has d completed) needs ≡ true
  needs_met n id [] ih h b = refl
  needs_met n id (d ∷ ds) ih h b =
      ground (arith, ih d, needs_met n id ds ih, ltb→lt (rank d) (rank id))

  Ranked-needs : (ts : List Task) → is_ranked rank g.dependencies ts ≡ true → All Ranked ts
  unfolding is_ranked
  Ranked-needs [] h = tt
  Ranked-needs (t ∷ ts) h = (ground arith, Ranked-needs ts (ground arith))

  ranked_completed :
      All (Stuck completed) g.dependencies
      → is_ranked rank g.dependencies g.dependencies ≡ true
      → (n : ℕ) (id : String) → has_row task_id id g.dependencies ≡ true
      → rank id < n
      → has id completed ≡ true
  ranked_completed stuck r zero id h b = absurd (omega arith)
  ranked_completed stuck r (suc n) id h b =
      elim (Option-cases (find_row task_id id g.dependencies)) [
        | inl e ↦ absurd (cc (h, find-has-row task_id id g.dependencies e))
        | inr (t, e) ↦ ground (
          arith,
          All-find task_id (Stuck completed) id g.dependencies stuck e,
          needs_met n t.id t.needs (ranked_completed stuck r n)
              (All-find task_id Ranked id g.dependencies (Ranked-needs g.dependencies r) e),
          eq_iff t.id id,
          find-key task_id id g.dependencies e,
        )
      ]

pub no_next_wave :
    (max : ℕ) (g : DagGraph) (completed : List String)
    → 0 < max
    → next_wave max g completed ≡ []
    → map task_id (retain (is_ready completed) g.dependencies) ≡ []
unfolding next_wave ready_tasks
no_next_wave max g completed p e =
    take_nothing max (map task_id (retain (is_ready completed) g.dependencies)) p e

pub nothing_unfinished :
    (completed : List String) (ts : List Task)
    → All (λ (t : Task). has t.id completed ≡ true) ts
    → map task_id (retain (is_unfinished completed) ts) ≡ []
nothing_unfinished completed [] h = refl
nothing_unfinished completed (t ∷ ts) h = ground (arith, h.0, nothing_unfinished completed ts h.1)

pub every_row {κ} :
    (P : String → Type κ) (whole ts : List Task)
    → ((id : String) → has_row task_id id whole ≡ true → P id)
    → ((id : String) → has_row task_id id ts ≡ true → has_row task_id id whole ≡ true)
    → All (λ (t : Task). P t.id) ts
every_row P whole [] h sub = tt
every_row P whole (t ∷ ts) h sub = (
  h t.id (sub t.id (ground (arith, eq_refl t.id))),
  every_row P whole ts h (λ id e. sub id (ground (arith, e))),
)

-- Every task is scheduled where the tasks can be numbered so that each depends on tasks of a lower number only, and the limit is not 0.
pub ranked_all_scheduled :
    (rank : String → ℕ) (s : Scheduler) (r : Schedule)
    → IsKeyed task_id s.graph.dependencies
    → is_ranked rank s.graph.dependencies s.graph.dependencies ≡ true
    → 0 < s.resource_monitor.max_concurrent_peers
    → build_schedule s ≡ some r
    → r.unscheduled ≡ []
unfolding build_schedule
ranked_all_scheduled rank s r k a p h =
    let max = s.resource_monitor.max_concurrent_peers in
    let tasks = s.graph.dependencies in
    let (w, e, f) =
      map_option-some (schedule_of tasks) (build_waves (suc (length tasks)) max s.graph []) h in
    let stuck =
      nobody_ready w.1 tasks (
        no_next_wave max s.graph w.1 p (waves_final max s.graph k (suc (length tasks)) [] w e).0) in
    rw f (
      nothing_unfinished w.1 tasks (
        every_row (λ (id : String). has id w.1 ≡ true) tasks tasks
          (λ id here.
            ranked_completed rank s.graph w.1 stuck a (suc (rank id)) id here (omega arith))
          (λ id here. here)))
