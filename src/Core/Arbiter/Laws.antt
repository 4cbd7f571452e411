-- ===== src/Core/Arbiter/Laws.antt =====
-- What a ranking is.
use anti_subagent.Prelude.{
  ℕ, ltb, leb, Bool, true, ◌&&◌, ◌||◌, ◌≡◌, ◌∙◌, refl, List, [], ◌∷◌, arith, nat_eq, all, retain,
  if◌then◌else◌,
}
use anti_subagent.Core.Arbiter.{
  ArbiterOption, Risk, Effort, risk_code, effort_code, ranks_up_to, insert, sort_by_key, rank,
}

-- The rubric: the risk decides, and among options of one risk the effort, and less of either is better.
abbrev pub place : Risk → Effort → ℕ
place Risk.low Effort.small = 1
place Risk.low Effort.medium = 2
place Risk.low Effort.large = 3
place Risk.medium Effort.small = 4
place Risk.medium Effort.medium = 5
place Risk.medium Effort.large = 6
place Risk.high Effort.small = 7
place Risk.high Effort.medium = 8
place Risk.high Effort.large = 9

-- No option has a worse place than one that follows it.
unfoldable pub is_ranked : List ArbiterOption → Bool
is_ranked [] = true
is_ranked (o ∷ os) =
    all (λ p. leb (place o.risk o.effort) (place p.risk p.effort)) os && is_ranked os

-- The options of one risk and one effort.
unfoldable pub is_rated : Risk → Effort → ArbiterOption → Bool
is_rated r e o =
    nat_eq (risk_code r) (risk_code o.risk) && nat_eq (effort_code e) (effort_code o.effort)

place_codes :
    (r t : Risk) (e f : Effort)
    → leb (place r e) (place t f) ≡ (
        ltb (risk_code r) (risk_code t)
        || (nat_eq (risk_code r) (risk_code t) && leb (effort_code e) (effort_code f)))
place_codes r t e f = ground arith

ranks_place :
    (a b : ArbiterOption) → ranks_up_to a b ≡ leb (place a.risk a.effort) (place b.risk b.effort)
unfolding ranks_up_to
ranks_place a b = rw (place_codes a.risk b.risk a.effort b.effort) refl

all_ranks :
    (a : ArbiterOption) (os : List ArbiterOption)
    → all (ranks_up_to a) os ≡ all (λ p. leb (place a.risk a.effort) (place p.risk p.effort)) os
all_ranks a [] = refl
all_ranks a (o ∷ os) = ground (arith, all_ranks a os, ranks_place a o)

ranks_total : (a b : ArbiterOption) → (ranks_up_to a b || ranks_up_to b a) ≡ true
unfolding ranks_up_to
ranks_total a b = ground arith

ranks_trans :
    (a b c : ArbiterOption)
    → ranks_up_to a b ≡ true
    → ranks_up_to b c ≡ true
    → ranks_up_to a c ≡ true
unfolding ranks_up_to
ranks_trans a b c h k = ground arith

all_trans :
    (a b : ArbiterOption) (os : List ArbiterOption)
    → ranks_up_to a b ≡ true
    → all (ranks_up_to b) os ≡ true
    → all (ranks_up_to a) os ≡ true
all_trans a b [] h k = refl
all_trans a b (o ∷ os) h k = ground (arith, all_trans a b os h, ranks_trans a b o h)

all-insert :
    (a o : ArbiterOption) (os : List ArbiterOption)
    → all (ranks_up_to a) (insert o os) ≡ (ranks_up_to a o && all (ranks_up_to a) os)
unfolding insert
all-insert a o [] = ground arith
all-insert a o (x ∷ xs) = ground (arith, all-insert a o xs)

-- Each option ranks up to all that follow it, by the key of the code.
unfoldable is_sorted : List ArbiterOption → Bool
is_sorted [] = true
is_sorted (o ∷ os) = all (ranks_up_to o) os && is_sorted os

is_ranked-is_sorted : (os : List ArbiterOption) → is_ranked os ≡ is_sorted os
unfolding is_ranked is_sorted
is_ranked-is_sorted [] = refl
is_ranked-is_sorted (o ∷ os) = rw (is_ranked-is_sorted os, all_ranks o os) refl

insert-sorted :
    (o : ArbiterOption) (os : List ArbiterOption)
    → is_sorted os ≡ true
    → is_sorted (insert o os) ≡ true
unfolding is_sorted insert
insert-sorted o [] h = refl
insert-sorted o (x ∷ xs) h =
    ground (arith, insert-sorted o xs, all_trans o x xs, all-insert x o xs, ranks_total o x)

rated_ranks :
    (r : Risk) (e : Effort) (a b : ArbiterOption)
    → is_rated r e a ≡ true
    → is_rated r e b ≡ true
    → ranks_up_to a b ≡ true
unfolding ranks_up_to is_rated
rated_ranks r e a b h k = ground arith

retain-insert :
    (r : Risk) (e : Effort) (o : ArbiterOption) (os : List ArbiterOption)
    → retain (is_rated r e) (insert o os)
      ≡ (if is_rated r e o then o ∷ retain (is_rated r e) os else retain (is_rated r e) os)
unfolding insert
retain-insert r e o [] = refl
retain-insert r e o (x ∷ xs) = ground (arith, retain-insert r e o xs, rated_ranks r e o x)

sort-sorted : (os : List ArbiterOption) → is_sorted (sort_by_key os) ≡ true
unfolding sort_by_key is_sorted
sort-sorted [] = refl
sort-sorted (o ∷ os) = insert-sorted o (sort_by_key os) (sort-sorted os)

retain-sort :
    (r : Risk) (e : Effort) (os : List ArbiterOption)
    → retain (is_rated r e) (sort_by_key os) ≡ retain (is_rated r e) os
unfolding sort_by_key
retain-sort r e [] = refl
retain-sort r e (o ∷ os) = ground (arith, retain-insert r e o (sort_by_key os), retain-sort r e os)

-- In a ranking no option has a worse place in the rubric than one that follows it, and the options of one
-- risk and one effort are those that were given, as often and in the order in which they were given; the
-- caller's list is the ranking too.
pub rank_lem :
    (os : List ArbiterOption)
    → (is_ranked (rank os).1 ≡ true)
      × ((r : Risk) (e : Effort) → retain (is_rated r e) (rank os).1 ≡ retain (is_rated r e) os)
      × ((rank os).0 ≡ (rank os).1)
unfolding rank
rank_lem os =
    (is_ranked-is_sorted (sort_by_key os) ∙ sort-sorted os, λ r e. retain-sort r e os, refl)
