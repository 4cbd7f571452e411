-- ===== src/Checks/Ledgers.antt =====
-- The theorems on leases, sessions, rejections and contracts at concrete inputs.
use anti_subagent.Prelude.{false, ◌≡◌, refl, none, some, List, [], ◌∷◌, arith, retain}
use anti_subagent.Core.Events.{null}
use anti_subagent.Core.Authority.{AuthorityLease}
use anti_subagent.Core.Authority.Laws.{acquiring, releasing, checking, run, held_is_exclusive}
use anti_subagent.Core.Stream.{codex, tool_call_start}
use anti_subagent.Core.Tracker.{handle_event}
use anti_subagent.Core.Tracker.Guard.{is_violation, due, violations_reported}
use anti_subagent.Core.LoopPrevention.{
  empty_ledger, record_reject, count_in_window, should_escalate,
}
use anti_subagent.Core.LoopPrevention.Laws.{
  LedgerOp, recording, asking, recorded, escalations_apart, three_do_not_escalate,
}
use anti_subagent.Core.LoopPrevention.Laws as Ledger

abbrev held : AuthorityLease
held = record {
  owner = some "a";
  lease_id = some "l1";
  leased_until = some "2026-02-01";
  stale = false;
  stale_reason = none;
}

held_is_exclusive_example :
    run (acquiring "b" "l2" "2027" ∷ checking "2026-01-01" ∷ releasing "b" ∷ []) held ≡ held
held_is_exclusive_example =
    held_is_exclusive (acquiring "b" "l2" "2027" ∷ checking "2026-01-01" ∷ releasing "b" ∷ []) held
      "a" "2026-02-01" refl refl refl refl

violations_reported_example :
    retain is_violation (handle_event codex (tool_call_start "c1" "spawn_agent" null) []).1
    ≡ due (tool_call_start "c1" "spawn_agent" null)
violations_reported_example = violations_reported codex (tool_call_start "c1" "spawn_agent" null) []

-- Four rejections within one hour.
abbrev four : List LedgerOp
four = recording "t" 1 10 ∷ recording "t" 1 20 ∷ recording "t" 1 30 ∷ recording "t" 1 40 ∷ []

escalations_apart_example :
    (should_escalate 500 "t" 1 (
      Ledger.run
        (recording "t" 1 90 ∷ asking 100 "t" 1 ∷ [])
        (should_escalate 50 "t" 1 (Ledger.run four empty_ledger)).0)).1
    ≡ false
unfolding Ledger.run Ledger.apply record_reject count_in_window should_escalate
escalations_apart_example =
    escalations_apart (Ledger.run four empty_ledger) "t" 1 50 500
      (recording "t" 1 90 ∷ asking 100 "t" 1 ∷ []) refl refl (omega arith)
