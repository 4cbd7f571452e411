-- ===== src/Services/Cycles.antt =====
-- The search for a circle of dependencies (crates/anti-daemon/src/scheduler.rs). The search has fuel: a
-- call that opens another is at a task that was not visited, so that two more than there are tasks is enough.
pub mod Ends
pub mod Sound
pub mod Waiting
pub mod Schedules
use anti_subagent.Prelude.{
  ℕ, zero, suc, String, Bool, true, false, Option, none, some, List, [], ◌∷◌, map, ◌==◌, length,
  if◌then◌else◌,
}
use anti_subagent.Prelude.Table.{find_row}
use anti_subagent.Services.Scheduler.{Task, task_id, DagGraph, has}

-- The two sets of the search.
pub record Sets : Type 0 where
  pub visited : List String
  pub stack : List String

-- HashSet::remove.
unfoldable pub remove_from : String → List String → List String
remove_from x [] = []
remove_from x (y ∷ ys) = let rest = remove_from x ys in if x == y then rest else y ∷ rest

unfoldable pub enter : String → Sets → Sets
enter node s = record { visited = node ∷ s.visited; stack = node ∷ s.stack }

unfoldable pub leave : String → Sets → Sets
leave node s = record s { stack = remove_from node s.stack }

-- What a call gives, none where the fuel is used up.
abbrev pub Found : Type 0
Found = Option (Bool × Sets)

-- `if f(dep) { return true; }` for each element; also the loop over the keys.
unfoldable pub search_all : (String → Sets → Found) → List String → Sets → Found
search_all f [] s = some (false, s)
search_all f (dep ∷ deps) s = elim (f dep s) [
  | none ↦ none
  | some (true, s₁) ↦ some (true, s₁)
  | some (false, s₁) ↦ search_all f deps s₁
]

abbrev pub leaving : String → Found → Found
leaving node none = none
leaving node (some (true, s)) = some (true, s)
leaving node (some (false, s)) = some (false, leave node s)

unfoldable pub needs_of : DagGraph → String → List String
needs_of g node = elim (find_row task_id node g.dependencies) [ none ↦ [] | some t ↦ t.needs ]

unfoldable pub dfs : ℕ → DagGraph → String → Sets → Found
dfs zero g node s = none
dfs (suc fuel) g node s =
    if has node s.stack
    then some (true, s)
    else if has node s.visited
    then some (false, s)
    else leaving node (search_all (dfs fuel g) (needs_of g node) (enter node s))

abbrev pub answer_of : Found → Option Bool
answer_of none = none
answer_of (some (b, s)) = some b

abbrev pub empty_sets : Sets
empty_sets = record { visited = []; stack = [] }

unfoldable pub has_cycle : DagGraph → Option Bool
has_cycle g =
    answer_of (
      search_all (dfs (suc (suc (length g.dependencies))) g) (map task_id g.dependencies)
        empty_sets)
