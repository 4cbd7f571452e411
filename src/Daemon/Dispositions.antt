-- ===== src/Daemon/Dispositions.antt =====
-- The check of a tool against a disposition: `handle_check_disposition` of
-- crates/anti-daemon/src/main.rs.
use anti_subagent.Prelude.{
  String, true, false, ◌||◌, Option, none, some, Result, ok, err, ◌==◌, if◌then◌else◌,
}
use anti_subagent.Core.Model.{
  Disposition, engineer, architect, reviewer, scout, proof_auditor, shadow,
}
use anti_subagent.Core.Contract.{DispositionError, check_tool, contract_for}
use anti_subagent.Core.Events.{bool, str, obj, end, field}
use anti_subagent.Daemon.Wire.{Response, ok_response, err_response}

unfoldable pub disposition_of : String → Option Disposition
disposition_of s =
    if s == "engineer"
    then some engineer
    else if s == "architect"
    then some architect
    else if s == "reviewer"
    then some reviewer
    else if s == "scout"
    then some scout
    else if s == "proof_auditor" || s == "proofauditor"
    then some proof_auditor
    else if s == "shadow"
    then some shadow
    else none

-- The last clause is the arm of every other error.
answer : String → String → Result DispositionError (Unit {0}) → Response
answer disposition tool (ok _) = ok_response (
    obj (
      field "disposition" (str disposition)
        (field "tool" (str tool) (field "allowed" (bool true) end))))
answer disposition tool (err (DispositionError.tool_denied t d)) = ok_response (
    obj (
      field "disposition" (str disposition) (
        field "tool" (str tool) (
          field "allowed" (bool false)
            (field "reason" (str "tool denied for this disposition") end)))))
answer disposition tool (err _) = err_response "disposition"

unfoldable pub handle_check_disposition : String → String → Response
unfolding answer
handle_check_disposition disposition tool = elim (disposition_of disposition) [
  | none ↦ err_response "invalid"
  | some d ↦ answer disposition tool (check_tool (contract_for d) tool)
]
