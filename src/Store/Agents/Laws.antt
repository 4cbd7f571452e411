-- ===== src/Store/Agents/Laws.antt =====
-- What an agent is after each operation of the registry, and the invariant of its table.
use anti_subagent.Prelude.{
  String, Bool, true, false, ◌&&◌, ◌≡◌, refl, ap, Option, none, some, arith, is_ok, is_none,
  map_option, Clock, ◌==◌, eq_iff, eq_refl, Option-cases, inl, inr, All, if◌then◌else◌,
}
use anti_subagent.Prelude.Table.{
  find_row, IsKeyed, find-append, find-update, changed-find, update-IsKeyed, has-row-find,
  find-has-row, All-find, All-update,
}
use anti_subagent.Core.Model.{
  AgentStatus, status_eq, finished, Disposition, WorkspaceLease, AttentionReason, AttentionState,
  no_attention, AgentRecord,
}
use anti_subagent.Core.Status.{can_transition, check_transition}
use anti_subagent.Store.Codec.{
  status_text, parse_status, disposition_text, reason_text, parse_disposition, parse_reason,
}
use anti_subagent.Store.Codec.RoundTrips.{
  parse-role, parse-disposition, parse-harness, parse-reason, parse-status, status_text_eq,
}
use anti_subagent.Store.Db.{AgentRow, Store}
use anti_subagent.Store.Agents.{
  agent_id, reason_or_finished, update_agents, record_of, row_of, insert_agent, get_agent,
  transition, with_status,
}

-- Keys are unique, and every status is the text of a status.
pub record IsRegistry (s : Store) : Type 0 where
  pub keyed : IsKeyed agent_id s.agents
  pub typed : All (λ (r : AgentRow). status_text (parse_status r.status) ≡ r.status) s.agents

abbrev pub or_finished : Option AttentionReason → AttentionReason
or_finished o = elim o [ none ↦ finished | some r ↦ r ]

-- An attention flag as the columns keep it: a flag that is down has no reason and no time, and one
-- that is up has a reason, Finished where it had none.
abbrev pub kept_attention : AttentionState → AttentionState
kept_attention a =
    if a.requires_attention
    then record {
      requires_attention = true;
      reason = some (or_finished a.reason);
      timestamp = a.timestamp;
    }
    else no_attention

abbrev pub kept_lease : WorkspaceLease → WorkspaceLease
kept_lease w = record w { holder = ""; generation = 0 }

-- What is left of a record after it went through the table: all but the holder and the generation of
-- the workspace lease, and parts of an attention flag.
abbrev pub kept : AgentRecord → AgentRecord
kept a = record a {
  workspace = map_option kept_lease a.workspace;
  attention = kept_attention a.attention;
}

kept_disposition :
    (o : Option Disposition) → map_option parse_disposition (map_option disposition_text o) ≡ o
kept_disposition none = refl
kept_disposition (some d) = ap some (parse-disposition d)

kept_reason :
    (o : Option AttentionReason)
    → parse_reason (reason_or_finished (map_option reason_text o)) ≡ or_finished o
unfolding parse_reason
kept_reason none = refl
kept_reason (some r) = parse-reason r

record-row : (a : AgentRecord) → record_of (row_of a) ≡ kept a
unfolding record_of row_of
record-row a = ground (
  arith,
  parse-role a.role,
  kept_disposition a.disposition,
  parse-harness a.harness,
  parse-status a.status,
  kept_reason a.attention.reason,
)

id-row : (a : AgentRecord) → (row_of a).id ≡ a.id
unfolding row_of
id-row a = refl

-- Registering an agent succeeds exactly where its id is free, and then a lookup gives the kept record
-- under its id and under another id what it gave before.
pub get-insert_agent :
    (a : AgentRecord) (j : String) (s : Store)
    → (is_ok (insert_agent a s).1 ≡ is_none (get_agent a.id s))
      × (get_agent j (insert_agent a s).0
          ≡ (if is_none (get_agent a.id s) && a.id == j then some (kept a) else get_agent j s))
unfolding insert_agent get_agent
get-insert_agent a j s = ground (
  arith,
  find-append agent_id j (row_of a) s.agents,
  has-row-find agent_id a.id s.agents,
  find-has-row agent_id a.id s.agents,
  id-row a,
  record-row a,
  eq_iff a.id j,
)

pub record-status :
    (r : AgentRow) (to : AgentStatus) (c : Clock)
    → record_of (with_status to c r) ≡ record (record_of r) { status = to; updated_at = c.sql_now }
unfolding record_of
record-status r to c = ground (arith, parse-status to)

-- A row's status has the text of `from` exactly where the record that is read has `from`.
text_status :
    (r : AgentRow) (from : AgentStatus)
    → status_text (parse_status r.status) ≡ r.status
    → (r.status == status_text from) ≡ status_eq (record_of r).status from
unfolding record_of
text_status r from h = rw (← h, parse-status, status_text_eq)

abbrev pub has_status : AgentStatus → Option AgentRecord → Bool
has_status t none = false
has_status t (some a) = status_eq a.status t

abbrev pub moved : AgentStatus → Clock → AgentRecord → AgentRecord
moved to c a = record a { status = to; updated_at = c.sql_now }

transition_absent :
    (id j : String) (from to : AgentStatus) (c : Clock) (s : Store)
    → IsRegistry s
    → find_row agent_id id s.agents ≡ none
    → (is_ok (transition id from to c s).1 ≡ false)
      × (get_agent j (transition id from to c s).0 ≡ get_agent j s)
      × (get_agent id s ≡ none)
unfolding transition get_agent check_transition
transition_absent id j from to c s h e =
    let holds = λ (r : AgentRow). r.status == status_text from in
    ground (
      arith,
      changed-find agent_id id holds s.agents h.keyed,
      find-update agent_id id j holds (with_status to c) s.agents (λ r. refl),
      eq_iff id j,
    )

transition_found :
    (id j : String) (from to : AgentStatus) (c : Clock) (s : Store) (r : AgentRow)
    → IsRegistry s
    → find_row agent_id id s.agents ≡ some r
    → (is_ok (transition id from to c s).1
        ≡ (can_transition from to && status_eq (record_of r).status from))
      × (get_agent j (transition id from to c s).0 ≡ (
          if can_transition from to && status_eq (record_of r).status from && id == j
          then some (moved to c (record_of r))
          else get_agent j s))
      × (get_agent id s ≡ some (record_of r))
unfolding transition get_agent check_transition
transition_found id j from to c s r h e =
    let holds = λ (r : AgentRow). r.status == status_text from in
    ground (
      arith,
      changed-find agent_id id holds s.agents h.keyed,
      find-update agent_id id j holds (with_status to c) s.agents (λ r. refl),
      eq_iff id j,
      text_status r from (
          All-find agent_id (λ (r : AgentRow). status_text (parse_status r.status) ≡ r.status) id
            s.agents h.typed e),
      record-status r to c,
    )

-- The optimistic lock: `transition` succeeds exactly where the table allows the step and the agent is
-- found with the expected status. It then changes the status and the time of that agent alone; where
-- it fails, every lookup gives what it gave before.
-- It is assumed that no two agents of the table share an id and that each has the text of a status.
pub transition_lem :
    (id j : String) (from to : AgentStatus) (c : Clock) (s : Store)
    → IsRegistry s
    → (is_ok (transition id from to c s).1
        ≡ (can_transition from to && has_status from (get_agent id s)))
      × (get_agent j (transition id from to c s).0 ≡ (
          if can_transition from to && has_status from (get_agent id s) && id == j
          then map_option (moved to c) (get_agent j s)
          else get_agent j s))
transition_lem id j from to c s h = elim (Option-cases (find_row agent_id id s.agents)) [
  | inl e ↦ ground (arith, transition_absent id j from to c s h e)
  | inr (r, e) ↦ ground (arith, transition_found id j from to c s r h e, eq_iff id j)
]

pub typed-status :
    (to : AgentStatus) (c : Clock) (r : AgentRow)
    → status_text (parse_status r.status) ≡ r.status
    → status_text (parse_status (with_status to c r).status) ≡ (with_status to c r).status
typed-status to c r h = ap status_text (parse-status to)

pub update-IsRegistry :
    (id : String) (g : AgentRow → Bool) (to : AgentStatus) (c : Clock) (s : Store)
    → IsRegistry s
    → IsRegistry (update_agents id g (with_status to c) s)
update-IsRegistry id g to c s h = record {
  keyed = update-IsKeyed agent_id id g (with_status to c) s.agents (λ r. refl) h.keyed;
  typed =
      All-update agent_id (λ (r : AgentRow). status_text (parse_status r.status) ≡ r.status) id g
        (with_status to c) s.agents (typed-status to c) h.typed;
}

pub transition-IsRegistry :
    (id : String) (from to : AgentStatus) (c : Clock) (s : Store)
    → IsRegistry s
    → IsRegistry (transition id from to c s).0
unfolding transition
transition-IsRegistry id from to c s h =
    ground (arith, update-IsRegistry id (λ (r : AgentRow). r.status == status_text from) to c s h)

status_eq_trans :
    (a b c : AgentStatus) → status_eq a b ≡ true → status_eq a c ≡ true → status_eq b c ≡ true
status_eq_trans a b c h k = ground arith

-- Two claims of one step: once a step to another status has succeeded, the same claim is refused, so
-- of two concurrent callers at most one gets the agent.
-- It is assumed that no two agents of the table share an id and that each has the text of a status.
pub second_claim_refused :
    (id : String) (from to : AgentStatus) (c d : Clock) (s : Store)
    → IsRegistry s
    → status_eq from to ≡ false
    → is_ok (transition id from to c s).1 ≡ true
    → is_ok (transition id from to d (transition id from to c s).0).1 ≡ false
second_claim_refused id from to c d s h n k = ground (
  arith,
  transition_lem id id from to c s h,
  transition_lem id id from to d (transition id from to c s).0
      (transition-IsRegistry id from to c s h),
  eq_refl id,
)
