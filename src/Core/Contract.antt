-- ===== src/Core/Contract.antt =====
-- The contracts of the dispositions (crates/anti-core/src/disposition.rs) and their check
-- (`handle_check_disposition` of crates/anti-daemon/src/main.rs).
pub mod Laws
use anti_subagent.Prelude.{
  ℕ, String, Bool, true, false, not, List, [], ◌∷◌, Result, ok, err, any, ◌==◌, if◌then◌else◌,
}
use anti_subagent.Prelude.Text.{contains}
use anti_subagent.Core.Model.{
  Disposition, engineer, architect, reviewer, scout, proof_auditor, shadow,
}

pub record DispositionContract : Type 0 where
  pub name : Disposition
  pub allowed_tools : List String
  pub denied_tools : List String
  pub can_approve_own_work : Bool
  pub requires_evidence : Bool
  pub max_concurrent : ℕ

pub data DispositionError : Type 0 where
  tool_denied : String → Disposition → DispositionError
  self_approval_denied : Disposition → DispositionError
  evidence_required : Disposition → DispositionError
  max_concurrent_reached : ℕ → Disposition → DispositionError
  unknown : String → DispositionError

unfoldable pub check_tool : DispositionContract → String → Result DispositionError (Unit {0})
check_tool c tool =
    if any (λ denied. contains tool denied) c.denied_tools
    then err (tool_denied tool c.name)
    else ok tt

unfoldable pub check_self_approve : DispositionContract → Result DispositionError (Unit {0})
check_self_approve c =
    if not c.can_approve_own_work then err (self_approval_denied c.name) else ok tt

unfoldable pub check_evidence : DispositionContract → Result DispositionError (Unit {0})
check_evidence c = if c.requires_evidence then err (evidence_required c.name) else ok tt

unfoldable pub contract_for : Disposition → DispositionContract
contract_for engineer = record {
  name = engineer;
  allowed_tools = "read" ∷ "write" ∷ "edit" ∷ "bash" ∷ "grep" ∷ "glob" ∷ [];
  denied_tools = "approve_own_work" ∷ [];
  can_approve_own_work = false;
  requires_evidence = false;
  max_concurrent = 5;
}
contract_for architect = record {
  name = architect;
  allowed_tools = "read" ∷ "grep" ∷ "glob" ∷ [];
  denied_tools = "write" ∷ "edit" ∷ "bash" ∷ [];
  can_approve_own_work = false;
  requires_evidence = false;
  max_concurrent = 2;
}
contract_for reviewer = record {
  name = reviewer;
  allowed_tools = "read" ∷ "grep" ∷ "glob" ∷ "bash" ∷ [];
  denied_tools = "write" ∷ "edit" ∷ [];
  can_approve_own_work = false;
  requires_evidence = true;
  max_concurrent = 3;
}
contract_for scout = record {
  name = scout;
  allowed_tools = "read" ∷ "grep" ∷ "glob" ∷ [];
  denied_tools = "write" ∷ "edit" ∷ "bash" ∷ [];
  can_approve_own_work = false;
  requires_evidence = false;
  max_concurrent = 3;
}
contract_for proof_auditor = record {
  name = proof_auditor;
  allowed_tools = "read" ∷ "grep" ∷ "glob" ∷ "bash" ∷ [];
  denied_tools = "write" ∷ "edit" ∷ [];
  can_approve_own_work = false;
  requires_evidence = true;
  max_concurrent = 2;
}
contract_for shadow = record {
  name = shadow;
  allowed_tools = "read" ∷ [];
  denied_tools = "write" ∷ "edit" ∷ "bash" ∷ "grep" ∷ "glob" ∷ [];
  can_approve_own_work = false;
  requires_evidence = false;
  max_concurrent = 1;
}
