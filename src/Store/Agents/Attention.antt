-- ===== src/Store/Agents/Attention.antt =====
-- What the attention flag of an agent is after it was raised.
use anti_subagent.Prelude.{
  String, true, ◌≡◌, refl, some, arith, map_option, Clock, ◌==◌, Option-cases, inl, inr,
  if◌then◌else◌,
}
use anti_subagent.Prelude.Table.{find_row, find-update}
use anti_subagent.Core.Model.{AttentionReason, AgentRecord}
use anti_subagent.Store.Codec.{reason_text}
use anti_subagent.Store.Codec.RoundTrips.{parse-reason}
use anti_subagent.Store.Db.{AgentRow, Store}
use anti_subagent.Store.Agents.{agent_id, record_of, attention_of, get_agent, set_attention}

-- The agent with the flag up.
abbrev pub flagged : AttentionReason → Clock → AgentRecord → AgentRecord
flagged reason c a = record a {
  attention = record { requires_attention = true; reason = some reason; timestamp = some c.now };
  updated_at = c.sql_now;
}

record-flagged :
    (r : AgentRow) (reason : AttentionReason) (c : Clock)
    → record_of (record r {
      requires_attention = 1;
      attention_reason = some (reason_text reason);
      attention_timestamp = some c.now;
      updated_at = c.sql_now;
    })
      ≡ flagged reason c (record_of r)
unfolding record_of attention_of
record-flagged r reason c = ground (arith, parse-reason reason)

-- Raising the flag changes the agent with the id, and no other.
pub get-set_attention :
    (id j : String) (reason : AttentionReason) (c : Clock) (s : Store)
    → get_agent j (set_attention id reason c s)
      ≡ (if id == j then map_option (flagged reason c) (get_agent j s) else get_agent j s)
unfolding get_agent set_attention
get-set_attention id j reason c s = elim (Option-cases (find_row agent_id j s.agents)) [
  | inl e ↦ ground (
    arith,
    e,
    find-update agent_id id j (λ (r : AgentRow). true)
        (λ r. record r {
          requires_attention = 1;
          attention_reason = some (reason_text reason);
          attention_timestamp = some c.now;
          updated_at = c.sql_now;
        })
        s.agents (λ r. refl),
  )
  | inr (r, e) ↦ ground (
    arith,
    e,
    find-update agent_id id j (λ (r : AgentRow). true)
        (λ r. record r {
          requires_attention = 1;
          attention_reason = some (reason_text reason);
          attention_timestamp = some c.now;
          updated_at = c.sql_now;
        })
        s.agents (λ r. refl),
    record-flagged r reason c,
  )
]
