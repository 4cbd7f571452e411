-- ===== src/Core/Contract/Laws.antt =====
-- What the contracts of the dispositions promise.
use anti_subagent.Prelude.{Bool, true, false, not, ◌≡◌, refl, is_ok, all}
use anti_subagent.Core.Model.{Disposition, engineer, reviewer, proof_auditor}
use anti_subagent.Core.Contract.{check_tool, check_self_approve, check_evidence, contract_for}

-- The disposition of a peer that may change files.
abbrev pub is_writer : Disposition → Bool
is_writer engineer = true
is_writer _ = false

-- The dispositions that review the work of others.
abbrev pub is_auditor : Disposition → Bool
is_auditor reviewer = true
is_auditor proof_auditor = true
is_auditor _ = false

-- No disposition may approve its own work; every tool that a contract allows passes its check; an edit
-- passes for the engineer alone; and evidence is asked of the reviewer and the proof auditor alone.
pub contract_for_lem :
    (d : Disposition)
    → (is_ok (check_self_approve (contract_for d)) ≡ false)
      × (all (λ t. is_ok (check_tool (contract_for d) t)) (contract_for d).allowed_tools ≡ true)
      × (is_ok (check_tool (contract_for d) "edit") ≡ is_writer d)
      × (is_ok (check_evidence (contract_for d)) ≡ not (is_auditor d))
unfolding contract_for check_tool check_self_approve check_evidence
contract_for_lem engineer = (refl, refl, refl, refl)
contract_for_lem _ = (refl, refl, refl, refl)
