-- ===== src/Services/Cycles/Waiting.antt =====
-- No task of a circle is ever ready.
use anti_subagent.Prelude.{
  ℕ, zero, suc, String, Bool, true, false, ◌≡◌, refl, some, List, [], ◌∷◌, ◌++◌, arith, eq_iff, all,
  inl, inr, Option-cases, Bool-cases,
}
use anti_subagent.Prelude.Table.{find_row, IsKeyed}
use anti_subagent.Services.Scheduler.{Task, task_id, DagGraph, Waves, has, next_wave, build_waves}
use anti_subagent.Services.Scheduler.Waves.{has-append}
use anti_subagent.Services.Scheduler.Order.{can_run, wave_fits, build_waves_round, build_waves-zero}
use anti_subagent.Services.Cycles.{needs_of}
use anti_subagent.Services.Cycles.Sound.{Reaches}

pub needs_of_found :
    (g : DagGraph) (id : String) (t : Task)
    → find_row task_id id g.dependencies ≡ some t
    → needs_of g id ≡ t.needs
unfolding needs_of
needs_of_found g id t e = rw (needs_of, e) refl

-- Completed tasks have their dependencies completed.
abbrev pub Closed : DagGraph → List String → Type 0
Closed g completed =
    (x d : String) → has x completed ≡ true → has d (needs_of g x) ≡ true → has d completed ≡ true

all-has :
    (p : String → Bool) (xs : List String) (x : String)
    → all p xs ≡ true
    → has x xs ≡ true
    → p x ≡ true
unfolding has
all-has p [] x a h = absurd (cc h)
all-has p (y ∷ ys) x a h = ground (arith, all-has p ys x, eq_iff x y)

can_run_needs :
    (g : DagGraph) (completed : List String) (x d : String)
    → can_run g completed x ≡ true
    → has d (needs_of g x) ≡ true
    → (has x completed ≡ false) × (has d completed ≡ true)
unfolding can_run
can_run_needs g completed x d c h = elim (Option-cases (find_row task_id x g.dependencies)) [
  | inl e ↦ absurd (ground (arith, e))
  | inr (t, e) ↦ ground (arith, e, needs_of_found g x t e, all-has (λ d. has d completed) t.needs d)
]

wave-Closed :
    (g : DagGraph) (completed ids : List String)
    → all (can_run g completed) ids ≡ true
    → Closed g completed
    → Closed g (completed ++ ids)
wave-Closed g completed ids a c x d h k = ground (
  arith,
  has-append x completed ids,
  has-append d completed ids,
  c x d,
  all-has (can_run g completed) ids x a,
  can_run_needs g completed x d,
)

-- What a completed task reaches is completed.
reach_completed :
    (g : DagGraph) (completed : List String) (x y : String)
    → ((d : String) → has d (needs_of g x) ≡ true → has d completed ≡ true)
    → Closed g completed
    → Reaches g x y
    → has y completed ≡ true
reach_completed g completed x y n c (Reaches.step h) = n y h
reach_completed g completed x y n c (Reaches.more {b} r h) =
    c b y (reach_completed g completed x b n c r) h

module _ (max : ℕ) (g : DagGraph) (k : IsKeyed task_id g.dependencies) (x : String)
    (circle : Reaches g x x) where
  wave_avoids :
      (completed ids : List String)
      → all (can_run g completed) ids ≡ true
      → Closed g completed
      → has x completed ≡ false
      → has x (completed ++ ids) ≡ false
  wave_avoids completed ids a c n = elim (Bool-cases (has x ids)) [
    | inr out ↦ ground (arith, has-append x completed ids)
    | inl here ↦ absurd (
        cc (
          n,
          reach_completed g completed x x
              (λ d h.
                (can_run_needs g completed x d (all-has (can_run g completed) ids x a here) h).1)
              c circle,
        ))
  ]

  pub circle_waits :
      (fuel : ℕ) (completed : List String) (w : Waves)
      → build_waves fuel max g completed ≡ some w
      → Closed g completed
      → has x completed ≡ false
      → has x w.1 ≡ false
  circle_waits zero completed w h c n = absurd (cc (h, build_waves-zero max g completed))
  circle_waits (suc fuel) completed w h c n = elim (build_waves_round fuel max g completed w h) [
    | inl (e, f) ↦ rw f n
    | inr (v, e, f) ↦
        let runs : all (can_run g completed) (next_wave max g completed) ≡ true =
          ground (arith, wave_fits max g completed k) in
        rw f (
          circle_waits fuel (completed ++ next_wave max g completed) v e
            (wave-Closed g completed (next_wave max g completed) runs c)
            (wave_avoids completed (next_wave max g completed) runs c n))
  ]
