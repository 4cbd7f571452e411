-- ===== src/Core/Verify.antt =====
-- Verification profiles and results (crates/anti-core/src/work.rs).
use anti_subagent.Prelude.{ℤ, String, Option, none, List, [], ◌∷◌, Clock}

pub data VerifyProfile : Type 0 where
  full check test build : VerifyProfile
  named : String → VerifyProfile

unfoldable pub commands : VerifyProfile → List String
commands full =
    "cargo fmt --check" ∷ "cargo clippy -- -D warnings" ∷ "cargo test" ∷ "cargo build" ∷ []
commands check = "cargo fmt --check" ∷ "cargo clippy -- -D warnings" ∷ "cargo test" ∷ []
commands test = "cargo test" ∷ []
commands build = "cargo build" ∷ []
commands (named name) = []

pub data VerifyStatus : Type 0 where
  pass fail incomplete : VerifyStatus

-- An entry of `diagnostics`, by the parameters of its text.
pub data Diagnostic : Type 0 where
  exited : String → ℤ → String → Diagnostic
  not_executed : String → String → Diagnostic

pub record VerificationResult : Type 0 where
  pub status : VerifyStatus
  pub profile : VerifyProfile
  pub test_output : Option String
  pub test_exit_code : Option ℤ
  pub build_output : Option String
  pub build_exit_code : Option ℤ
  pub diagnostics : List Diagnostic
  pub git_diff : Option String
  pub git_sha : Option String
  pub timestamp : String

unfoldable pub new_result : VerifyProfile → Clock → VerificationResult
new_result profile c = record {
  status = incomplete;
  profile = profile;
  test_output = none;
  test_exit_code = none;
  build_output = none;
  build_exit_code = none;
  diagnostics = [];
  git_diff = none;
  git_sha = none;
  timestamp = c.now;
}
