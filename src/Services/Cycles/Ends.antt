-- ===== src/Services/Cycles/Ends.antt =====
-- The search for a circle ends.
use anti_subagent.Prelude.{
  ℕ, zero, suc, ◌≤◌, ◌<◌, String, Bool, true, false, ◌≡◌, refl, none, some, List, [], ◌∷◌, map,
  arith, eq_iff, length, length-retain, leb, is_some, inl, inr, Bool-cases, Option-cases,
}
use anti_subagent.Prelude.Table.{find_row}
use anti_subagent.Services.Scheduler.{Task, task_id, DagGraph, has, is_unfinished}
use anti_subagent.Services.Scheduler.Waves.{unfinished}
use anti_subagent.Services.Cycles.{
  Sets, Found, enter, leave, leaving, search_all, needs_of, dfs, answer_of, empty_sets, has_cycle,
}

visited_less :
    (node : String) (visited : List String) (ts : List Task)
    → unfinished (node ∷ visited) ts ≤ unfinished visited ts
unfolding has
visited_less node visited [] = omega arith
visited_less node visited (t ∷ ts) = ground (arith, visited_less node visited ts)

visited_drops :
    (node : String) (visited : List String) (ts : List Task) (t : Task)
    → find_row task_id node ts ≡ some t
    → has node visited ≡ false
    → unfinished (node ∷ visited) ts < unfinished visited ts
unfolding has
visited_drops node visited [] t e h = absurd (cc e)
visited_drops node visited (x ∷ ts) t e h =
    ground (arith, visited_drops node visited ts t, visited_less node visited ts, eq_iff x.id node)

-- A result, and no fewer nodes visited than before.
abbrev ends : List Task → ℕ → Found → Bool
ends ts n none = false
ends ts n (some (b, s)) = leb (unfinished s.visited ts) n

module _ (ts : List Task) where
  ends_leave :
      (node : String) (n : ℕ) (r : Found) → ends ts n r ≡ true → ends ts n (leaving node r) ≡ true
  unfolding leave
  ends_leave node n none h = h
  ends_leave node n (some (true, s)) h = h
  ends_leave node n (some (false, s)) h = h

  weaken : (m n : ℕ) (r : Found) → m ≤ n → ends ts m r ≡ true → ends ts n r ≡ true
  weaken m n none l h = h
  weaken m n (some (b, s)) l h = ground arith

  search_ends :
      (n : ℕ) (f : String → Sets → Found) (deps : List String) (s : Sets)
      → ((d : String) (s₁ : Sets)
          → unfinished s₁.visited ts ≤ n
          → ends ts (unfinished s₁.visited ts) (f d s₁) ≡ true)
      → unfinished s.visited ts ≤ n
      → ends ts n (search_all f deps s) ≡ true
  unfolding search_all
  search_ends n f [] s h b = ground arith
  search_ends n f (d ∷ ds) s h b = elim (Option-cases (f d s)) [
    | inl e ↦ absurd (cc (rw e at (h d s b)))
    | inr ((true, s₁), e) ↦ ground (arith, e, h d s b)
    | inr ((false, s₁), e) ↦ ground (arith, e, h d s b, search_ends n f ds s₁ h)
  ]

pub no_needs :
    (g : DagGraph) (node : String)
    → find_row task_id node g.dependencies ≡ none
    → needs_of g node ≡ []
unfolding needs_of
no_needs g node e = rw (needs_of, e) refl

-- The three branches of a call.
module _ (fuel : ℕ) (g : DagGraph) (node : String) (s : Sets) where
  pub dfs_found : has node s.stack ≡ true → dfs (suc fuel) g node s ≡ some (true, s)
  unfolding dfs
  dfs_found y = rw (dfs, y) refl

  pub dfs_known :
      has node s.stack ≡ false
      → has node s.visited ≡ true
      → dfs (suc fuel) g node s ≡ some (false, s)
  unfolding dfs
  dfs_known n v = rw (dfs, n, v) refl

  pub dfs_open :
      has node s.stack ≡ false
      → has node s.visited ≡ false
      → dfs (suc fuel) g node s
        ≡ leaving node (search_all (dfs fuel g) (needs_of g node) (enter node s))
  unfolding dfs search_all
  dfs_open n v = rw (dfs, n, v) refl

pub search_nothing : (f : String → Sets → Found) (s : Sets) → search_all f [] s ≡ some (false, s)
unfolding search_all
search_nothing f s = refl

enter_visited : (node : String) (s : Sets) → (enter node s).visited ≡ node ∷ s.visited
unfolding enter
enter_visited node s = refl

dfs-ends :
    (fuel : ℕ) (g : DagGraph) (node : String) (s : Sets)
    → unfinished s.visited g.dependencies < fuel
    → ends g.dependencies (unfinished s.visited g.dependencies) (dfs fuel g node s) ≡ true
dfs-ends zero g node s h = absurd (omega arith)
dfs-ends (suc fuel) g node s h = elim (Bool-cases (has node s.stack)) [
  | inl y ↦ rw (dfs_found fuel g node s y) (ground arith)
  | inr n ↦ elim (Bool-cases (has node s.visited)) [
    | inl v ↦ rw (dfs_known fuel g node s n v) (ground arith)
    | inr w ↦ elim (Option-cases (find_row task_id node g.dependencies)) [
      | inl e ↦
          rw
            (
              dfs_open fuel g node s n w,
              no_needs g node e,
              search_nothing (dfs fuel g) (enter node s),
            )
            (ends_leave g.dependencies node (unfinished s.visited g.dependencies)
              (some (false, enter node s))
              (ground (arith, enter_visited node s, visited_less node s.visited g.dependencies)))
      | inr (t, e) ↦
          let n₁ = unfinished (enter node s).visited g.dependencies in
          let less = visited_drops node s.visited g.dependencies t e w in
          rw (dfs_open fuel g node s n w) (
            ends_leave g.dependencies node (unfinished s.visited g.dependencies)
              (search_all (dfs fuel g) (needs_of g node) (enter node s))
              (weaken g.dependencies n₁ (unfinished s.visited g.dependencies)
                (search_all (dfs fuel g) (needs_of g node) (enter node s))
                (ground (arith, less, enter_visited node s))
                (search_ends g.dependencies n₁ (dfs fuel g) (needs_of g node) (enter node s)
                  (λ d s₁ b.
                    dfs-ends fuel g d s₁ (ground (arith, b, h, less, enter_visited node s)))
                  (omega arith))))
    ]
  ]
]

ends_answer :
    (ts : List Task) (n : ℕ) (r : Found) → ends ts n r ≡ true → is_some (answer_of r) ≡ true
ends_answer ts n none h = h
ends_answer ts n (some (b, s)) h = refl

-- The search for a circle ends, whatever the tasks and their dependencies: with fuel for two more than
-- there are tasks it gives an answer.
pub has_cycle_ends : (g : DagGraph) → is_some (has_cycle g) ≡ true
unfolding has_cycle
has_cycle_ends g =
    let n = length g.dependencies in
    let r = search_all (dfs (suc (suc n)) g) (map task_id g.dependencies) empty_sets in
    ends_answer g.dependencies n r (
      search_ends g.dependencies n (dfs (suc (suc n)) g) (map task_id g.dependencies) empty_sets
        (λ d s b. dfs-ends (suc (suc n)) g d s (omega arith))
        (length-retain (is_unfinished []) g.dependencies))
