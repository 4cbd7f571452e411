-- ===== src/Core/Arbiter.antt =====
-- The ranking of options (crates/anti-core/src/arbiter.rs). `sort_by_key` is the standard library's stable
-- sort, here by insertion.
pub mod Laws
use anti_subagent.Prelude.{
  ℕ, String, Bool, true, false, ◌&&◌, ◌||◌, List, [], ◌∷◌, ltb, leb, nat_eq, if◌then◌else◌,
}

pub data Risk : Type 0 where
  low medium high : Risk

pub data Effort : Type 0 where
  small medium large : Effort

pub record ArbiterOption : Type 0 where
  pub id : String
  pub desc : String
  pub risk : Risk
  pub effort : Effort

-- `as u8`.
abbrev pub risk_code : Risk → ℕ
risk_code Risk.low = 0
risk_code Risk.medium = 1
risk_code Risk.high = 2

abbrev pub effort_code : Effort → ℕ
effort_code Effort.small = 0
effort_code Effort.medium = 1
effort_code Effort.large = 2

-- The order of the pairs of codes.
unfoldable pub ranks_up_to : ArbiterOption → ArbiterOption → Bool
ranks_up_to a b =
    ltb (risk_code a.risk) (risk_code b.risk)
    || (nat_eq (risk_code a.risk) (risk_code b.risk)
        && leb (effort_code a.effort) (effort_code b.effort))

unfoldable pub insert : ArbiterOption → List ArbiterOption → List ArbiterOption
insert o [] = o ∷ []
insert o (x ∷ xs) = let rest = insert o xs in if ranks_up_to o x then o ∷ x ∷ xs else x ∷ rest

unfoldable pub sort_by_key : List ArbiterOption → List ArbiterOption
sort_by_key [] = []
sort_by_key (o ∷ os) = insert o (sort_by_key os)

-- The sorted options, which the caller's list is too, and the copy that is returned.
unfoldable pub rank : List ArbiterOption → List ArbiterOption × List ArbiterOption
rank options = (sort_by_key options, sort_by_key options)
