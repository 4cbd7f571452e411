-- ===== src/Checks/Core.antt =====
-- The theorems on the types of anti-core at concrete inputs.
use anti_subagent.Prelude.{◌+◌, ◌≤◌, ◌≡◌, ◌⊎◌, List, [], ◌∷◌}
use anti_subagent.Core.Work.{in_progress, rejected, exhausted, new}
use anti_subagent.Core.Work.Laws.{
  WorkOp, rejecting, submitting, transitioning, run, rejections, revision_counts_rejections,
}
use anti_subagent.Checks.Data.{noon, proof_ref}

-- Submitted and rejected three times.
abbrev life : List WorkOp
life =
    transitioning in_progress noon
    ∷ submitting proof_ref 600 noon
    ∷ rejecting "lead" "a" noon
    ∷ submitting proof_ref 600 noon
    ∷ rejecting "lead" "b" noon
    ∷ submitting proof_ref 600 noon
    ∷ rejecting "lead" "c" noon
    ∷ []

revision_counts_rejections_example :
    ((run (new "w1" "p1" noon) life).revision ≡ 1 + rejections (new "w1" "p1" noon) life)
    × (rejections (new "w1" "p1" noon) life ≤ 3)
    × (rejections (new "w1" "p1" noon) life ≡ 3
        → ((run (new "w1" "p1" noon) life).state ≡ rejected)
          ⊎ ((run (new "w1" "p1" noon) life).state ≡ exhausted))
revision_counts_rejections_example = revision_counts_rejections "w1" "p1" noon life
