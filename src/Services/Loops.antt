-- ===== src/Services/Loops.antt =====
-- The loops of a worker and its checks (crates/anti-daemon/src/loop_service.rs). The id that is drawn, the
-- clock and whether the file system takes the file are arguments; a slice inside a character panics, which
-- is none.
pub mod Laws
use Prim.Native.String.{slice, len}
use text.Mathlib.Text.{is_char_boundary}
use anti_subagent.Prelude.{
  ℕ, ℤ, pos, String, Bool, true, false, Option, none, some, List, [], ◌∷◌, ◌++◌, Result, ok, err,
  Clock, ◌==◌, leb, retain, if◌then◌else◌,
}
use anti_subagent.Prelude.Table.{find_row}
use anti_subagent.Daemon.Wire.{Output}

abbrev pub max_verify_output_bytes : ℕ
max_verify_output_bytes = 65536

pub data LoopStatus : Type 0 where
  running succeeded failed stopped : LoopStatus

pub record VerifyCheckResult : Type 0 where
  pub command : String
  pub exit_code : ℤ
  pub passed : Bool
  pub stdout : String
  pub stderr : String
  pub started_at : String
  pub completed_at : String

pub record VerifyPromptResult : Type 0 where
  pub passed : Bool
  pub reason : String
  pub verifier_agent_id : Option String
  pub started_at : String
  pub completed_at : String

pub record LoopLogEntry : Type 0 where
  pub seq : ℕ
  pub text : String
  pub created_at : String

pub record LoopIteration : Type 0 where
  pub index : ℕ
  pub worker_agent_id : Option String
  pub verifier_agent_id : Option String
  pub status : LoopStatus
  pub verify_checks : List VerifyCheckResult
  pub verify_prompt : Option VerifyPromptResult
  pub logs : List LoopLogEntry

pub record LoopRecord : Type 0 where
  pub id : String
  pub name : Option String
  pub prompt : String
  pub verify_checks : List String
  pub verify_prompt : Option String
  pub sleep_ms : ℕ
  pub max_iterations : Option ℕ
  pub max_time_ms : Option ℕ
  pub status : LoopStatus
  pub created_at : String
  pub updated_at : String
  pub iterations : List LoopIteration
  pub logs : List LoopLogEntry
  pub next_log_seq : ℕ
  pub active_iteration : Option ℕ

abbrev pub loop_key : LoopRecord → String
loop_key l = l.id

-- The loops in memory, and those of loops.json.
pub record LoopService : Type 0 where
  pub loops : List LoopRecord
  pub persisted : List LoopRecord

pub data LoopError : Type 0 where
  not_found already_terminal : LoopError

abbrev pub new_service : List LoopRecord → LoopService
new_service file = record { loops = []; persisted = file }

unfoldable pub persist : Bool → List LoopRecord → List LoopRecord → List LoopRecord
persist writes all old = if writes then all else old

-- What a caller asks of a new loop.
pub record LoopRequest : Type 0 where
  pub name : Option String
  pub prompt : String
  pub verify_checks : List String
  pub verify_prompt : Option String
  pub sleep_ms : ℕ
  pub max_iterations : Option ℕ

abbrev pub loop_of : Clock → String → LoopRequest → LoopRecord
loop_of c id q = record {
  id = id;
  name = q.name;
  prompt = q.prompt;
  verify_checks = q.verify_checks;
  verify_prompt = q.verify_prompt;
  sleep_ms = q.sleep_ms;
  max_iterations = q.max_iterations;
  max_time_ms = none;
  status = LoopStatus.running;
  created_at = c.now;
  updated_at = c.now;
  iterations = [];
  logs = [];
  next_log_seq = 1;
  active_iteration = none;
}

unfoldable pub create : Bool → Clock → String → LoopRequest → LoopService → LoopService × LoopRecord
create writes c id q s =
    let rec = loop_of c id q in
    let all = s.loops ++ rec ∷ [] in
    (record { loops = all; persisted = persist writes all s.persisted }, rec)

unfoldable pub get : String → LoopService → Option LoopRecord
get id s = find_row loop_key id s.loops

abbrev pub is_running : LoopStatus → Bool
is_running LoopStatus.running = true
is_running LoopStatus.succeeded = false
is_running LoopStatus.failed = false
is_running LoopStatus.stopped = false

abbrev pub halted : Clock → LoopRecord → LoopRecord
halted c l = record l { status = LoopStatus.stopped; updated_at = c.now }

-- `loops[pos]` with `pos` the position of the first loop of the id.
unfoldable pub halt_first : Clock → String → List LoopRecord → List LoopRecord
halt_first c id [] = []
halt_first c id (l ∷ ls) =
    let rest = halt_first c id ls in if l.id == id then halted c l ∷ ls else l ∷ rest

unfoldable pub stop :
    Bool → Clock → String → LoopService → LoopService × Result LoopError LoopRecord
stop writes c id s = elim (find_row loop_key id s.loops) [
  | none ↦ (s, err LoopError.not_found)
  | some l ↦
      if is_running l.status
      then (
        record {
          loops = halt_first c id s.loops;
          persisted = persist writes (halt_first c id s.loops) s.persisted;
        },
        ok (halted c l),
      )
      else (s, err LoopError.already_terminal)
]

unfoldable pub logs : String → ℕ → LoopService → Result LoopError (List LoopLogEntry × ℕ)
logs id cursor s = elim (find_row loop_key id s.loops) [
  | none ↦ err LoopError.not_found
  | some l ↦ ok (retain (λ (e : LoopLogEntry). leb cursor e.seq) l.logs, l.next_log_seq)
]

unfoldable pub cap_output : String → Option String
cap_output text =
    if leb (len text) max_verify_output_bytes
    then some text
    else if is_char_boundary text max_verify_output_bytes
    then some (slice text 0 max_verify_output_bytes)
    else none

abbrev code_or_one : Option ℤ → ℤ
code_or_one none = pos 1
code_or_one (some n) = n

-- `run` runs a command with sh.
unfoldable pub run_verify_check : (String → Output) → Clock → String → Option VerifyCheckResult
run_verify_check run c command = elim (run command) [
  | Output.failed e ↦ some (record {
    command = command;
    exit_code = pos 127;
    passed = false;
    stdout = "";
    stderr = e;
    started_at = c.now;
    completed_at = c.now;
  })
  | Output.exited success code out errors ↦ elim (cap_output out) [
    | none ↦ none
    | some stdout ↦ elim (cap_output errors) [
      | none ↦ none
      | some stderr ↦ some (record {
        command = command;
        exit_code = code_or_one code;
        passed = success;
        stdout = stdout;
        stderr = stderr;
        started_at = c.now;
        completed_at = c.now;
      })
    ]
  ]
]
