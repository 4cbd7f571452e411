-- ===== src/Checks/Decisions.antt =====
-- The theorems on routing, ranking and capsules at concrete inputs.
use Prim.Native.String.{◌++◌}
use anti_subagent.Prelude.{String, true, ◌≡◌, refl, List, [], ◌∷◌, retain}
use anti_subagent.Core.Arbiter.{ArbiterOption, Risk, Effort, rank}
use anti_subagent.Core.Arbiter.Laws.{is_ranked, is_rated, rank_lem}
use anti_subagent.Core.Capsule.{CapsuleInput, render_head, render_capsule}
use anti_subagent.Core.Capsule
use anti_subagent.Core.Capsule.Laws.{with_events, IsCut, render_capsule_lem}

abbrev choices : List ArbiterOption
choices =
    record { id = "fast"; desc = ""; risk = Risk.high; effort = Effort.small }
    ∷ record { id = "solid"; desc = ""; risk = Risk.low; effort = Effort.large }
    ∷ record { id = "neat"; desc = ""; risk = Risk.low; effort = Effort.small }
    ∷ record { id = "quick"; desc = ""; risk = Risk.high; effort = Effort.small }
    ∷ []

rank_lem_example :
    (is_ranked (rank choices).1 ≡ true)
    × ((r : Risk) (e : Effort)
        → retain (is_rated r e) (rank choices).1 ≡ retain (is_rated r e) choices)
    × ((rank choices).0 ≡ (rank choices).1)
rank_lem_example = rank_lem choices

abbrev view_of_p1 : CapsuleInput
view_of_p1 = record {
  peer_id = "p1";
  task = "fix";
  work_items = [];
  recent_events = "started" ∷ "stopped" ∷ [];
}

abbrev head_of_p1 : String
head_of_p1 = "# ANTI CAPSULE — peer p1\n## TASK\nfix\n## WORK ITEMS\n"

render_capsule_lem_example :
    IsCut
      (with_events ("started" ∷ "stopped" ∷ []) (head_of_p1 ++ "## RECENT EVENTS\n"))
      (head_of_p1 ++ "## RECENT EVENTS\nstarted\nstopped\n")
unfolding render_head render_capsule Capsule.render_events
render_capsule_lem_example =
    render_capsule_lem (λ n. "1") view_of_p1 head_of_p1
      (head_of_p1 ++ "## RECENT EVENTS\nstarted\nstopped\n") "started" ("stopped" ∷ []) refl refl
      refl
