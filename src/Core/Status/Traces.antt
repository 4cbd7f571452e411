-- ===== src/Core/Status/Traces.antt =====
-- Sequences of agent statuses that follow the table of statemachine.rs, and how that table relates
-- to the one of agent.rs.
use mathlib.Core.List.{Memᴰ}
use anti_subagent.Prelude.{
  Bool, true, false, ◌&&◌, ◌≡◌, refl, sym, ◌⊎◌, ◌↔◌, inl, inr, List, [], ◌∷◌, arith,
}
use anti_subagent.Core.Model.{
  AgentStatus, created, starting, running, failed, crashed, recovering, replaced, is_terminal,
}
use anti_subagent.Core.Status.{can_transition, can_transition_to}

-- Each status in turn is reached from the one before it.
unfoldable pub follows : AgentStatus → List AgentStatus → Bool
follows s [] = true
follows s (t ∷ ts) = can_transition s t && follows t ts

unfoldable pub final_status : AgentStatus → List AgentStatus → AgentStatus
final_status s [] = s
final_status s (t ∷ ts) = final_status t ts

step-terminal : (s t : AgentStatus) → is_terminal s ≡ true → can_transition s t ≡ true → t ≡ s
unfolding is_terminal can_transition
step-terminal s t h e = ground arith

-- Whatever statuses follow a terminal one in the table, the agent ends in that terminal status.
pub terminal_absorbs :
    (s : AgentStatus) (ts : List AgentStatus)
    → is_terminal s ≡ true
    → follows s ts ≡ true
    → final_status s ts ≡ s
unfolding follows final_status
terminal_absorbs s [] h f = refl
terminal_absorbs s (t ∷ ts) h f = ground (arith, step-terminal s t, terminal_absorbs t ts)

-- The statuses that an agent can have before its first crash.
uncrashed : AgentStatus → Bool
uncrashed crashed = false
uncrashed recovering = false
uncrashed replaced = false
uncrashed _ = true

step-uncrashed :
    (s t : AgentStatus)
    → uncrashed s ≡ true
    → can_transition s t ≡ true
    → (t ≡ crashed) ⊎ (uncrashed t ≡ true)
unfolding uncrashed can_transition
step-uncrashed s t h e = ground arith

crash_before :
    (s : AgentStatus) (ts : List AgentStatus)
    → uncrashed s ≡ true
    → follows s ts ≡ true
    → uncrashed (final_status s ts) ≡ false
    → Memᴰ crashed ts
unfolding follows final_status
crash_before s [] h f l = ground arith
crash_before s (t ∷ ts) h f l = elim (step-uncrashed s t h (ground arith)) [
  | inl e ↦ Memᴰ.head (sym e)
  | inr e ↦ Memᴰ.tail (crash_before t ts e (ground arith) l)
]

-- An agent that is replaced by steps of the table, from its creation on, has crashed before.
pub replaced_needs_crash :
    (ts : List AgentStatus)
    → follows created ts ≡ true
    → final_status created ts ≡ replaced
    → Memᴰ crashed ts
unfolding uncrashed
replaced_needs_crash ts f e = crash_before created ts refl f (ground arith)

-- The table of agent.rs allows two steps that the table of statemachine.rs does not, and only these: a
-- failed agent starts again, and a running one is replaced.
pub agent_table_excess :
    (s t : AgentStatus)
    → ((can_transition_to s t ≡ true) × (can_transition s t ≡ false))
      ↔ (((s ≡ failed) × (t ≡ starting)) ⊎ ((s ≡ running) × (t ≡ replaced)))
unfolding can_transition can_transition_to
agent_table_excess s t = ground arith
