-- ===== src/Services/Cycles/Sound.antt =====
-- What the answer of the search means.
use anti_subagent.Prelude.{
  ℕ, zero, suc, String, Bool, true, false, ◌||◌, ◌≡◌, refl, sym, ◌∙◌, Option, none, some, List, [],
  ◌∷◌, map, arith, ◌==◌, eq_iff, eq_refl, length, all, inl, inr, Bool-cases,
}
use mathlib.Core.Path.{subst}
use anti_subagent.Services.Scheduler.{task_id, DagGraph, has}
use anti_subagent.Services.Cycles.{
  Sets, Found, enter, leave, remove_from, leaving, search_all, needs_of, dfs, answer_of, empty_sets,
  has_cycle,
}
use anti_subagent.Services.Cycles.Ends.{dfs_found, dfs_known, dfs_open}

-- One task depends on another, over one step or more.
pub data Reaches (g : DagGraph) (a : String) : String → Type 0 where
  step : {b : String} → has b (needs_of g a) ≡ true → Reaches g a b
  more : {b c : String} → Reaches g a b → has c (needs_of g b) ≡ true → Reaches g a c

-- A list of nodes, each of which depends on later ones of the list only.
abbrev pub Sorted : DagGraph → List String → Type 0
Sorted g [] = Unit {0}
Sorted g (x ∷ xs) = (all (λ d. has d xs) (needs_of g x) ≡ true) × Sorted g xs

-- The nodes that are visited and left, in the order of leaving.
record Black (g : DagGraph) (s : Sets) (left : List String) : Type 0 where
  split_by : (x : String) → has x s.visited ≡ (has x s.stack || has x left)
  sorted : Sorted g left

-- After a call that found nothing the stack is as before, and the targets are left.
record Done (g : DagGraph) (stack left targets : List String) (s : Sets) : Type 0 where
  after : List String
  black : Black g s after
  kept : s.stack ≡ stack
  grows : (x : String) → has x left ≡ true → has x after ≡ true
  covers : all (λ d. has d after) targets ≡ true

abbrev Post : DagGraph → List String → List String → List String → Found → Type 0
Post g stack left targets none = Unit {0}
Post g stack left targets (some (true, s)) = (x : String) × Reaches g x x
Post g stack left targets (some (false, s)) = Done g stack left targets s

abbrev Comes : DagGraph → Sets → String → Type 0
Comes g s d = (x : String) → has x s.stack ≡ true → Reaches g x d

abbrev Sounds : DagGraph → (String → Sets → Found) → Type 0
Sounds g f =
    (d : String) (s : Sets) (left : List String)
    → Black g s left
    → Comes g s d
    → Post g s.stack left (d ∷ []) (f d s)

all_grows :
    (xs ys ds : List String)
    → ((x : String) → has x xs ≡ true → has x ys ≡ true)
    → all (λ d. has d xs) ds ≡ true
    → all (λ d. has d ys) ds ≡ true
all_grows xs ys [] h a = refl
all_grows xs ys (d ∷ ds) h a = ground (arith, h d, all_grows xs ys ds h)

has_here : (d : String) (ds : List String) → has d (d ∷ ds) ≡ true
unfolding has
has_here d ds = ground (arith, eq_refl d)

has_there : (x d : String) (ds : List String) → has x ds ≡ true → has x (d ∷ ds) ≡ true
unfolding has
has_there x d ds h = ground arith

module _ (g : DagGraph) where
  then_rest :
      (st left : List String) (d : String) (ds : List String) (s₁ : Sets)
      → (e : Done g st left (d ∷ []) s₁) (r : Found) → Post g s₁.stack e.after ds r
      → Post g st left (d ∷ ds) r
  then_rest st left d ds s₁ e none p = tt
  then_rest st left d ds s₁ e (some (true, s)) p = p
  then_rest st left d ds s₁ e (some (false, s)) p = record {
    after = p.after;
    black = p.black;
    kept = p.kept ∙ e.kept;
    grows = λ x h. p.grows x (e.grows x h);
    covers = ground (arith, all_grows e.after p.after (d ∷ []) p.grows e.covers, p.covers);
  }

  search_sound :
      (f : String → Sets → Found) (deps : List String) (s : Sets) (left : List String)
      → Sounds g f
      → Black g s left
      → ((d : String) → has d deps ≡ true → Comes g s d)
      → Post g s.stack left deps (search_all f deps s)
  unfolding search_all
  search_sound f [] s left h b c = record {
    after = left;
    black = b;
    kept = refl;
    grows = λ x e. e;
    covers = refl;
  }
  search_sound f (d ∷ ds) s left h b c =
      go (f d s) (h d s left b (c d (has_here d ds)))
        (λ s₁ l₁ b₁ c₁. search_sound f ds s₁ l₁ h b₁ c₁)
    where
      go :
          (r : Found)
          → Post g s.stack left (d ∷ []) r
          → ((s₁ : Sets) (l₁ : List String)
              → Black g s₁ l₁
              → ((d₁ : String) → has d₁ ds ≡ true → Comes g s₁ d₁)
              → Post g s₁.stack l₁ ds (search_all f ds s₁))
          → Post g s.stack left (d ∷ ds) (elim r [
            | none ↦ none
            | some (true, s₁) ↦ some (true, s₁)
            | some (false, s₁) ↦ search_all f ds s₁
          ])
      go none p rest = tt
      go (some (true, s₁)) p rest = p
      go (some (false, s₁)) p rest = then_rest s.stack left d ds s₁ p (search_all f ds s₁) (
          rest s₁ p.after p.black (λ d₁ e x k.
            c d₁ (has_there d₁ d ds e) x (subst (λ (q : List String). has x q ≡ true) p.kept k)))

remove_absent : (d : String) (xs : List String) → has d xs ≡ false → remove_from d xs ≡ xs
unfolding remove_from has
remove_absent d [] h = refl
remove_absent d (x ∷ xs) h = ground (arith, remove_absent d xs)

remove_pushed : (d : String) (xs : List String) → has d xs ≡ false → remove_from d (d ∷ xs) ≡ xs
unfolding remove_from
remove_pushed d xs h = ground (arith, eq_refl d, remove_absent d xs h)

has_either : (x d : String) (ds : List String) → has x (d ∷ ds) ≡ ((x == d) || has x ds)
unfolding has
has_either x d ds = refl

module _ (g : DagGraph) (d : String) (s : Sets) (left : List String)
    (out : has d s.stack ≡ false) where
  enter-Black : Black g s left → Black g (enter d s) left
  unfolding enter
  enter-Black b = record {
    split_by = λ x. ground (arith, b.split_by x, has_either x d s.visited, has_either x d s.stack);
    sorted = b.sorted;
  }

  enter-Comes : Comes g s d → (d₁ : String) → has d₁ (needs_of g d) ≡ true → Comes g (enter d s) d₁
  unfolding enter
  enter-Comes c d₁ e x h = elim (Bool-cases (x == d)) [
    | inl y ↦
        subst (λ (z : String). Reaches g z d₁) (sym (ground (arith, eq_iff x d))) (Reaches.step e)
    | inr n ↦ Reaches.more (c x (ground (arith, has_either x d s.stack))) e
  ]

  leave-Post :
      (r : Found)
      → Post g (enter d s).stack left (needs_of g d) r
      → Post g s.stack left (d ∷ []) (leaving d r)
  unfolding leave enter
  leave-Post none p = tt
  leave-Post (some (true, s₁)) p = p
  leave-Post (some (false, s₁)) p =
      let back : remove_from d s₁.stack ≡ s.stack = rw p.kept (remove_pushed d s.stack out) in
      record {
        after = d ∷ p.after;
        black = record {
          split_by = λ x. ground (
            arith,
            back,
            p.kept,
            p.black.split_by x,
            has_either x d s.stack,
            has_either x d p.after,
          );
          sorted = (p.covers, p.black.sorted);
        };
        kept = back;
        grows = λ x h. has_there x d p.after (p.grows x h);
        covers = ground (arith, has_here d p.after);
      }

dfs-zero : (g : DagGraph) (d : String) (s : Sets) → dfs zero g d s ≡ none
unfolding dfs
dfs-zero g d s = refl

dfs_sound : (fuel : ℕ) (g : DagGraph) → Sounds g (dfs fuel g)
dfs_sound zero g d s left b c = rw (dfs-zero g d s) tt
dfs_sound (suc fuel) g d s left b c = elim (Bool-cases (has d s.stack)) [
  | inl y ↦ rw (dfs_found fuel g d s y) (d, c d y)
  | inr n ↦ elim (Bool-cases (has d s.visited)) [
    | inl v ↦ rw (dfs_known fuel g d s n v) record {
      after = left;
      black = b;
      kept = refl;
      grows = λ x h. h;
      covers = ground (arith, b.split_by d);
    }
    | inr w ↦ rw (dfs_open fuel g d s n w) (
        leave-Post g d s left n (search_all (dfs fuel g) (needs_of g d) (enter d s)) (
          search_sound g (dfs fuel g) (needs_of g d) (enter d s) left (dfs_sound fuel g)
            (enter-Black g d s left n b) (enter-Comes g d s left n c)))
  ]
]

-- What the answer of has_cycle says: true, and some task depends on itself; false, and the tasks
-- stand in a list in which each depends on later ones only.
abbrev pub Means : DagGraph → Option Bool → Type 0
Means g none = Unit {0}
Means g (some true) = (x : String) × Reaches g x x
Means g (some false) =
    (left : List String) × Sorted g left
    × (all (λ d. has d left) (map task_id g.dependencies) ≡ true)

nothing-Black : (g : DagGraph) → Black g empty_sets []
unfolding has
nothing-Black g = record { split_by = λ x. refl; sorted = tt }

nothing-Comes : (g : DagGraph) (d : String) → Comes g empty_sets d
unfolding has
nothing-Comes g d x h = absurd (cc h)

pub has_cycle-Means : (g : DagGraph) → Means g (has_cycle g)
unfolding has_cycle
has_cycle-Means g =
    go
      (search_all (dfs (suc (suc (length g.dependencies))) g) (map task_id g.dependencies)
        empty_sets)
      (search_sound g (dfs (suc (suc (length g.dependencies))) g) (map task_id g.dependencies)
        empty_sets [] (dfs_sound (suc (suc (length g.dependencies))) g) (nothing-Black g)
        (λ d e. nothing-Comes g d))
  where
    go : (r : Found) → Post g [] [] (map task_id g.dependencies) r → Means g (answer_of r)
    go none p = tt
    go (some (true, s)) p = p
    go (some (false, s)) p = (p.after, p.black.sorted, p.covers)
