-- ===== src/Core/Report.antt =====
-- What a peer reports (crates/anti-core/src/report.rs).
use anti_subagent.Prelude.{ℕ, List, map, String, Bool, true, false, Result, ok, err, if◌then◌else◌}
use anti_subagent.Prelude.Text.{codes, lower_code, lower_eq}

pub data ReportStatus : Type 0 where
  completed failed progress question : ReportStatus

-- The texts that the errors carry are their arguments, that of `invalid_status` by its code points; `store` and `transition_failed` keep the text
-- of another error, which is left out.
pub data ReportError : Type 0 where
  invalid_status : List ℕ → ReportError
  invalid_task_id : String → ReportError
  task_not_found : String → ReportError
  task_not_assigned : String → ReportError
  commit_required : ReportError
  commit_not_found : String → ReportError
  transition_failed : ReportError
  store : ReportError

unfoldable pub from_str : String → Result ReportError ReportStatus
from_str s =
    if lower_eq s "completed"
    then ok completed
    else if lower_eq s "failed"
    then ok failed
    else if lower_eq s "progress"
    then ok progress
    else if lower_eq s "question"
    then ok question
    else err (invalid_status (map lower_code (codes s)))

unfoldable pub requires_commit : ReportStatus → Bool
requires_commit completed = true
requires_commit _ = false
