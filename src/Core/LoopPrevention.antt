-- ===== src/Core/LoopPrevention.antt =====
-- The ledger of rejections that finds a loop (crates/anti-core/src/loopprev.rs). A map from a task node
-- and a revision is a function; a missing entry of `rejects` is the empty list. Times are seconds
-- since 1970, and `now - t <= w` is written `now <= t + w`.
pub mod Laws
use anti_subagent.Prelude.{
  ℕ, ◌+◌, String, Bool, true, false, ◌&&◌, Option, none, some, List, [], ◌∷◌, ◌++◌, ◌==◌, nat_eq,
  leb, ltb, length, retain, if◌then◌else◌,
}

abbrev pub window_secs : ℕ
window_secs = 3600

abbrev pub trigger_threshold : ℕ
trigger_threshold = 3

abbrev pub cooldown_secs : ℕ
cooldown_secs = 600

pub record LoopPrevention : Type 0 where
  pub rejects : String → ℕ → List ℕ
  pub last_trigger : String → ℕ → Option ℕ

abbrev pub empty_ledger : LoopPrevention
empty_ledger = record { rejects = λ task revision. []; last_trigger = λ task revision. none }

abbrev pub is_key : String → ℕ → String → ℕ → Bool
is_key task revision t r = task == t && nat_eq revision r

abbrev or_now : Option ℕ → ℕ → ℕ
or_now none clock = clock
or_now (some at) clock = at

-- `parse` is `DateTime::parse_from_rfc3339(…).timestamp()`, `clock` the time that is taken where the
-- text is no time.
unfoldable pub record_reject :
    (String → Option ℕ) → ℕ → String → ℕ → String → LoopPrevention → LoopPrevention
record_reject parse clock task revision at_rfc3339 l =
    let now = or_now (parse at_rfc3339) clock in
    record l {
      rejects = λ t r.
          if is_key task revision t r
          then retain (λ at. leb now (at + window_secs)) (l.rejects t r ++ now ∷ [])
          else l.rejects t r;
    }

unfoldable pub count_in_window : String → ℕ → LoopPrevention → ℕ
count_in_window task revision l = length (l.rejects task revision)

-- Within the cooldown of the last trigger.
abbrev pub is_cooling : ℕ → Option ℕ → Bool
is_cooling now none = false
is_cooling now (some last) = ltb now (last + cooldown_secs)

unfoldable pub should_escalate : ℕ → String → ℕ → LoopPrevention → LoopPrevention × Bool
should_escalate now task revision l =
    if leb (count_in_window task revision l) trigger_threshold
    then (l, false)
    else if is_cooling now (l.last_trigger task revision)
    then (l, false)
    else (
      record l {
        last_trigger = λ t r. if is_key task revision t r then some now else l.last_trigger t r;
      },
      true,
    )
