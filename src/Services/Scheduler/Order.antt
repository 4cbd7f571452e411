-- ===== src/Services/Scheduler/Order.antt =====
-- What the groups of a schedule are.
use anti_subagent.Prelude.{
  ℕ, zero, suc, String, Bool, true, false, ◌&&◌, not, ◌≡◌, refl, sym, ◌∙◌, Option, none, some, List,
  [], ◌∷◌, ◌++◌, map, arith, eq_iff, length, length-take, all, retain, take, leb, concat, All, ◌⊎◌,
  inl, inr, List-cases, map_option,
}
use mathlib.Core.List.{append-nil, append_assoc}
use mathlib.Core.Option.{some-injective}
use anti_subagent.Prelude.Table.{find_row, has_row, IsKeyed, keyed_found}
use anti_subagent.Services.Scheduler.{
  Task, task_id, DagGraph, Waves, has, is_ready, ready_tasks, next_wave, with_wave, build_waves,
}
use anti_subagent.Services.Scheduler.Waves.{has-take, build_waves_stop, build_waves_go}

-- A task of the graph that is not completed, with every dependency completed.
unfoldable pub can_run : DagGraph → List String → String → Bool
can_run g completed id = not (has id completed) && elim (find_row task_id id g.dependencies) [
  | none ↦ false
  | some t ↦ all (λ d. has d completed) t.needs
]

unfoldable pub distinct : List String → Bool
distinct [] = true
distinct (x ∷ xs) = not (has x xs) && distinct xs

-- Groups that can run one after another, at most max tasks at a time, where some tasks are completed
-- before the first.
unfoldable pub runs_in_order : ℕ → DagGraph → List String → List (List String) → Bool
runs_in_order max g completed [] = true
runs_in_order max g completed (w ∷ ws) =
    all (can_run g completed) w
    && distinct w
    && leb (length w) max
    && runs_in_order max g (completed ++ w) ws

all-take :
    (p : String → Bool) (n : ℕ) (xs : List String) → all p xs ≡ true → all p (take n xs) ≡ true
all-take p zero xs h = refl
all-take p (suc n) [] h = refl
all-take p (suc n) (x ∷ xs) h = ground (arith, all-take p n xs)

not_has-take :
    (x : String) (n : ℕ) (xs : List String) → has x xs ≡ false → has x (take n xs) ≡ false
not_has-take x n xs h = ground (arith, has-take x n xs)

distinct-take : (n : ℕ) (xs : List String) → distinct xs ≡ true → distinct (take n xs) ≡ true
unfolding distinct
distinct-take zero xs h = refl
distinct-take (suc n) [] h = refl
distinct-take (suc n) (x ∷ xs) h = ground (arith, distinct-take n xs, not_has-take x n xs)

ready_can_run :
    (g : DagGraph) (completed : List String) (ts : List Task)
    → All (λ (t : Task). find_row task_id t.id g.dependencies ≡ some t) ts
    → all (can_run g completed) (map task_id (retain (is_ready completed) ts)) ≡ true
unfolding can_run
ready_can_run g completed [] h = refl
ready_can_run g completed (t ∷ ts) h = ground (arith, h.0, ready_can_run g completed ts h.1)

not_has-retain :
    (p : Task → Bool) (x : String) (ts : List Task)
    → has_row task_id x ts ≡ false
    → has x (map task_id (retain p ts)) ≡ false
unfolding has
not_has-retain p x [] h = refl
not_has-retain p x (t ∷ ts) h = ground (arith, not_has-retain p x ts, eq_iff x t.id, eq_iff t.id x)

distinct-retain :
    (p : Task → Bool) (ts : List Task)
    → IsKeyed task_id ts
    → distinct (map task_id (retain p ts)) ≡ true
unfolding distinct
distinct-retain p [] k = refl
distinct-retain p (t ∷ ts) k =
    ground (arith, distinct-retain p ts k.1, not_has-retain p t.id ts, k.0)

pub wave_fits :
    (max : ℕ) (g : DagGraph) (completed : List String)
    → IsKeyed task_id g.dependencies
    → (all (can_run g completed) (next_wave max g completed)
        && distinct (next_wave max g completed)
        && leb (length (next_wave max g completed)) max)
      ≡ true
unfolding next_wave ready_tasks
wave_fits max g completed k =
    let ready = map task_id (retain (is_ready completed) g.dependencies) in
    ground (
      arith,
      all-take (can_run g completed) max ready
          (ready_can_run g completed g.dependencies (keyed_found task_id g.dependencies k)),
      distinct-take max ready (distinct-retain (is_ready completed) g.dependencies k),
      length-take max ready,
    )

pub map_option-some {ℓ κ} :
    {A : Type ℓ} {B : Type κ} (f : A → B) (o : Option A) {b : B}
    → map_option f o ≡ some b
    → (a : A) × (o ≡ some a) × (b ≡ f a)
map_option-some f none {b} h = absurd (cc h)
map_option-some f (some a) {b} h = (a, refl, sym (some-injective (f a) b h))

-- One round of the loop, read backwards.
pub build_waves_round :
    (fuel max : ℕ) (g : DagGraph) (completed : List String) (w : Waves)
    → build_waves (suc fuel) max g completed ≡ some w
    → ((next_wave max g completed ≡ []) × (w ≡ ([], completed)))
      ⊎ ((v : Waves) × (build_waves fuel max g (completed ++ next_wave max g completed) ≡ some v)
          × (w ≡ with_wave (next_wave max g completed) v))
build_waves_round fuel max g completed w h = elim (List-cases (next_wave max g completed)) [
  | inl e ↦ inl (
    e,
    sym (some-injective ([], completed) w (sym (build_waves_stop fuel max g completed e) ∙ h)),
  )
  | inr (id, ids, e) ↦ inr (
      rw e (
        map_option-some (with_wave (id ∷ ids)) _
          (sym (build_waves_go fuel max g completed id ids e) ∙ h)))
]

pub build_waves-zero :
    (max : ℕ) (g : DagGraph) (completed : List String) → build_waves zero max g completed ≡ none
unfolding build_waves
build_waves-zero max g completed = refl

module _ (max : ℕ) (g : DagGraph) (k : IsKeyed task_id g.dependencies) where
  pub waves_in_order :
      (fuel : ℕ) (completed : List String) (w : Waves)
      → build_waves fuel max g completed ≡ some w
      → runs_in_order max g completed w.0 ≡ true
  unfolding runs_in_order
  waves_in_order zero completed w h = absurd (cc (h, build_waves-zero max g completed))
  waves_in_order (suc fuel) completed w h = elim (build_waves_round fuel max g completed w h) [
    | inl (e, f) ↦ rw f refl
    | inr (v, e, f) ↦ ground (
      arith,
      f,
      wave_fits max g completed k,
      waves_in_order fuel (completed ++ next_wave max g completed) v e,
    )
  ]

  pub waves_final :
      (fuel : ℕ) (completed : List String) (w : Waves)
      → build_waves fuel max g completed ≡ some w
      → (next_wave max g w.1 ≡ []) × (w.1 ≡ completed ++ concat w.0)
  waves_final zero completed w h = absurd (cc (h, build_waves-zero max g completed))
  waves_final (suc fuel) completed w h = elim (build_waves_round fuel max g completed w h) [
    | inl (e, f) ↦ rw f (e, sym (append-nil completed))
    | inr (v, e, f) ↦
        let rest = waves_final fuel (completed ++ next_wave max g completed) v e in
        rw f (rest.0, rest.1 ∙ append_assoc completed (next_wave max g completed) (concat v.0))
  ]
