-- ===== src/Daemon/Requests.antt =====
-- The requests of the work-item protocol, as the daemon serves them one after another
-- (the arms SubmitWork, ReviewWork, VerifyWork and ReportTask of `handle` in
-- crates/anti-daemon/src/main.rs).
pub mod Evidence
pub mod Refines
use anti_subagent.Prelude.{ℕ, String, List, [], ◌∷◌}
use anti_subagent.Store.Db.{Store}
use anti_subagent.Daemon.Wire.{Response, Env}
use anti_subagent.Daemon.Review.{handle_submit_work, handle_review_work, handle_verify_work}
use anti_subagent.Daemon.Reports.{ReportTask, handle_report_task}

pub data Request : Type 0 where
  submit_work : String → String → String → ℕ → Request
  review_work : String → String → String → Request
  verify_work : String → String → Request
  report_task : ReportTask → Request

unfoldable pub serve : Request → Env → Store → Store × Response
serve (submit_work id sha256 artifact_path review_timeout_secs) e s =
    handle_submit_work id sha256 artifact_path review_timeout_secs e.clock s
serve (review_work id verdict note) e s = handle_review_work id verdict note e.clock s
serve (verify_work id profile) e s = handle_verify_work id profile e s
serve (report_task r) e s = handle_report_task e r s

-- The daemon's store after requests in turn, each with the clock and the programs as they are then.
unfoldable pub serve_all : List (Request × Env) → Store → Store
serve_all [] s = s
serve_all ((r, e) ∷ rs) s = serve_all rs (serve r e s).0
