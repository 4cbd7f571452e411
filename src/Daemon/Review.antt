-- ===== src/Daemon/Review.antt =====
-- The requests of the review cycle: `handle_submit_work`, `handle_review_work` and
-- `handle_verify_work` of crates/anti-daemon/src/main.rs.
pub mod Laws
pub mod Sound
pub mod Steps
use Prim.Native.String
use Prim.Native.String.{slice, len}
use anti_subagent.Prelude.{
  ℕ, ℤ, negsuc, String, Bool, true, false, not, ◌&&◌, Option, none, some, List, [], ◌∷◌, ◌++◌,
  Result, ok, err, Clock, ◌==◌, starts_with, length, if◌then◌else◌,
}
use anti_subagent.Prelude.Text.{contains}
use anti_subagent.Core.Work.{
  WorkItemState, in_progress, submitted, verified, accepted, EvidenceRef, WorkItem, new, Outcome,
  work_eq,
}
use anti_subagent.Core.Work
use anti_subagent.Core.Verify.{
  VerifyProfile, commands, pass, fail, Diagnostic, VerificationResult, new_result,
}
use anti_subagent.Core.Events.{
  Json, null, num, str, obj, end, field, json_str, work_submitted, work_accepted, work_rejected,
  work_verified,
}
use anti_subagent.Store.Db.{Store}
use anti_subagent.Store.Codec.{work_text}
use anti_subagent.Store.Events.{log_event}
use anti_subagent.Store.Works.{insert_work_item, get_work_item}
use anti_subagent.Daemon.Wire.{Response, ok_response, err_response, Output, Tools, Env}

-- The payloads of the four events.
abbrev submit_payload : String → String → WorkItem → Json
submit_payload sha256 artifact_path w = obj (
    field "sha256" (str sha256) (
      field "artifact_path" (str artifact_path)
        (field "review_deadline" (json_str w.review_deadline) end)))

abbrev accept_payload : String → Json
accept_payload note = obj (field "note" (str note) end)

abbrev reject_payload : String → WorkItem → Json
reject_payload note w = obj (field "note" (str note) (field "revision" (num w.revision) end))

abbrev status_name : Bool → String
status_name true = "Pass"
status_name false = "Fail"

-- `format!("{:?}", profile)`; the quotes and escapes of a name are left out.
abbrev profile_name : VerifyProfile → String
profile_name VerifyProfile.full = "Full"
profile_name VerifyProfile.check = "Check"
profile_name VerifyProfile.test = "Test"
profile_name VerifyProfile.build = "Build"
profile_name (VerifyProfile.named n) = String.◌++◌ "Named(" (String.◌++◌ n ")")

abbrev verdict_payload : Bool → VerificationResult → Json
verdict_payload all_pass r = obj (
    field "status" (str (status_name all_pass)) (
      field "profile" (str (profile_name r.profile))
        (field "diagnostics_count" (num (length r.diagnostics)) end)))

-- `w.submit(…)?`, then the save and the event.
submit_item : String → String → String → ℕ → Clock → WorkItem → Store → Store × Response
submit_item id sha256 artifact_path review_timeout_secs c w s =
    let evidence : EvidenceRef = record {
      sha256 = sha256;
      artifact_path = artifact_path;
      produced_at = c.now;
    } in
    let (w', outcome) = Work.submit w evidence review_timeout_secs c in
    elim outcome [
      | err e ↦ (s, err_response "transition")
      | ok _ ↦ (
        log_event id work_submitted (submit_payload sha256 artifact_path w') c
            (insert_work_item w' s),
        ok_response (
            obj (
              field "id" (str id) (
                field "state" (str "Submitted")
                  (field "review_deadline" (json_str w'.review_deadline) end)))),
      )
    ]

-- A new item is created for an unknown id.
unfoldable pub handle_submit_work : String → String → String → ℕ → Clock → Store → Store × Response
unfolding submit_item
handle_submit_work id sha256 artifact_path review_timeout_secs c s = elim (get_work_item id s) [
  | some w ↦ submit_item id sha256 artifact_path review_timeout_secs c w s
  | none ↦
      let (w, outcome) = Work.transition (new id "cli" c) in_progress c in
      elim outcome [
        | err e ↦ (s, err_response "transition")
        | ok _ ↦ submit_item id sha256 artifact_path review_timeout_secs c w s
      ]
]

accept_item : String → String → Clock → WorkItem → Store → Store × Response
accept_item id note c w s =
    if not (work_eq w.state verified)
    then (s, err_response "precondition")
    else let (w', outcome) = Work.transition w accepted c in
      elim outcome [
        | err e ↦ (s, err_response "transition")
        | ok _ ↦ (
          log_event id work_accepted (accept_payload note) c (insert_work_item w' s),
          ok_response (obj (field "id" (str id) (field "state" (str "Accepted") end))),
        )
      ]

reject_item : String → String → Clock → WorkItem → Store → Store × Response
reject_item id note c w s =
    let (w', outcome) = Work.reject w "lead" note c in
    elim outcome [
      | err e ↦ (s, err_response "transition")
      | ok _ ↦ (
        log_event id work_rejected (reject_payload note w') c (insert_work_item w' s),
        ok_response (
            obj (
              field "id" (str id) (
                field "state" (str (work_text w'.state))
                  (field "revision" (num w'.revision) end)))),
      )
    ]

unfoldable pub handle_review_work : String → String → String → Clock → Store → Store × Response
unfolding accept_item reject_item
handle_review_work id verdict note c s = elim (get_work_item id s) [
  | none ↦ (s, err_response "not_found")
  | some w ↦
      if verdict == "accept"
      then accept_item id note c w s
      else if verdict == "reject"
      then reject_item id note c w s
      else (s, err_response "invalid")
]

unfoldable pub parse_profile : String → Option VerifyProfile
parse_profile s =
    if s == "full"
    then some VerifyProfile.full
    else if s == "check"
    then some VerifyProfile.check
    else if s == "test"
    then some VerifyProfile.test
    else if s == "build"
    then some VerifyProfile.build
    else if starts_with s "named:"
    then some (VerifyProfile.named (slice s 6 (len s)))
    else none

-- `code().unwrap_or(-1)`.
abbrev exit_code : Option ℤ → ℤ
exit_code none = negsuc 0
exit_code (some c) = c

keep_output : String → String → ℤ → VerificationResult → VerificationResult
keep_output cmd text code r =
    if contains cmd "test"
    then record r { test_output = some text; test_exit_code = some code }
    else if contains cmd "build"
    then record r { build_output = some text; build_exit_code = some code }
    else r

-- One round of the loop over `profile.commands()`; `all_pass` is the first part.
run_command : Tools → String → Bool × VerificationResult → Bool × VerificationResult
unfolding keep_output
run_command t cmd (all_pass, r) = elim (t.cargo cmd) [
  | Output.failed e ↦
      (false, record r { diagnostics = r.diagnostics ++ Diagnostic.not_executed cmd e ∷ [] })
  | Output.exited success code stdout stderr ↦
      let r' = keep_output cmd (String.◌++◌ stdout (String.◌++◌ "\n" stderr)) (exit_code code) r in
      if not success
      then (
        false,
        record r' {
          diagnostics = r'.diagnostics ++ Diagnostic.exited cmd (exit_code code) stderr ∷ [];
        },
      )
      else (all_pass, r')
]

unfoldable pub run_commands :
    Tools → List String → Bool × VerificationResult → Bool × VerificationResult
unfolding run_command
run_commands t [] acc = acc
run_commands t (cmd ∷ cmds) acc = run_commands t cmds (run_command t cmd acc)

-- The diagnostics of the answer are left out.
commit_verdict :
    String → String → Clock → Bool → VerificationResult → WorkItem → Store → Store × Response
commit_verdict id profile_str c all_pass r w s =
    let (w', outcome) = Work.transition w (if all_pass then verified else submitted) c in
    elim outcome [
      | err e ↦ (s, err_response "transition")
      | ok _ ↦ (
        log_event id work_verified (verdict_payload all_pass r) c (insert_work_item w' s),
        ok_response (
            obj (
              field "id" (str id) (
                field "status" (str (status_name all_pass)) (
                  field "state" (str (work_text w'.state))
                    (field "profile" (str profile_str) end))))),
      )
    ]

-- What git says of HEAD and of the tree goes into the result and into no answer; it is left out.
unfoldable pub handle_verify_work : String → String → Env → Store → Store × Response
unfolding commit_verdict
handle_verify_work id profile_str e s = elim (get_work_item id s) [
  | none ↦ (s, err_response "not_found")
  | some w ↦
      if not (work_eq w.state submitted)
      then (s, err_response "precondition")
      else elim (parse_profile profile_str) [
        | none ↦ (s, err_response "invalid")
        | some profile ↦
            let (all_pass, r) =
              run_commands e.tools (commands profile) (true, new_result profile e.clock) in
            commit_verdict id profile_str e.clock all_pass r w s
      ]
]
