-- ===== src/Daemon/Wire.antt =====
-- The answers of the daemon, and what it learns from outside during one request.
use anti_subagent.Prelude.{ℤ, String, Bool, Option, List, Clock}
use anti_subagent.Core.Events.{Json}

-- `Response::ok` with its value, and `Response::err` with its code; the message is left out.
pub data Response : Type 0 where
  ok_response : Json → Response
  err_response : String → Response

-- What `std::process::Command::output` gives: `failed` where the program does not start.
pub data Output : Type 0 where
  failed : String → Output
  exited : Bool → Option ℤ → String → String → Output

-- The programs that a request runs, and the digest of sha2. Each is given by the whole command.
pub record Tools : Type 0 where
  pub cargo : String → Output
  pub git : List String → Output
  pub sha256 : String → String

pub record Env : Type 0 where
  pub clock : Clock
  pub tools : Tools
