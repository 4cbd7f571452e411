-- ===== src/Daemon/Restart.antt =====
-- The supervised restart of an agent and the end of its process: `restart_agent` and
-- `reap_children` of crates/anti-daemon/src/main.rs. The wait before the restart and the log file of
-- the process are left out.
pub mod Laws
pub mod Reaping
use anti_subagent.Prelude.{
  ℕ, ℤ, pos, negsuc, String, Bool, true, false, ◌&&◌, ◌||◌, not, Option, none, some, List, [], ◌∷◌,
  ◌++◌, Result, ok, err, Clock, map_option, ◌==◌, leb, nat_eq, add_u32, if◌then◌else◌,
}
use anti_subagent.Prelude.Table.{delete_row, replace_row}
use anti_subagent.Core.Model.{
  AgentStatus, crashed, recovering, WorkspaceLease, AgentRecord, AttentionReason, finished, error,
  status_eq,
}
use anti_subagent.Core.Events.{
  Json, null, bool, num, str, obj, end, field, json_str, json_int, agent_restarted, agent_started,
  peer_crashed,
}
use anti_subagent.Store.Db.{Store}
use anti_subagent.Store.Events.{log_event}
use anti_subagent.Store.Agents.{
  get_agent, begin_recovery, inc_restart, set_running, mark_exit, set_attention,
}

-- `HashMap<String, Child>`: an id and the process it stands for.
pub record Child : Type 0 where
  pub id : String
  pub pid : ℕ

abbrev pub child_id : Child → String
child_id k = k.id

pub record Running : Type 0 where
  pub store : Store
  pub children : List Child

pub data RestartError : Type 0 where
  not_found : RestartError
  cannot_restart : AgentStatus → RestartError
  spawn_failed : String → RestartError

abbrev pub repo_of : String → Option WorkspaceLease → String
repo_of current_dir none = current_dir
repo_of current_dir (some w) = w.path

abbrev start_payload : ℕ → Json
start_payload pid = obj (field "pid" (num pid) (field "restart" (bool true) end))

abbrev restart_payload : AgentRecord → Json
restart_payload a = obj (field "restart_count" (num (add_u32 a.restart_count 1)) end)

-- Where the process was started.
start_again : String → ℕ → Clock → Running → Running
start_again id pid c d = record {
  store =
      log_event id agent_started (start_payload pid) c
        (set_running id pid c (inc_restart id c d.store)).0;
  children = replace_row child_id (record { id = id; pid = pid }) d.children;
}

-- `spawn` starts claude in a directory and gives the pid or an error.
restart_found :
    (String → Result String ℕ)
    → String
    → String
    → Clock
    → AgentRecord
    → Running
    → Running × Result RestartError ℕ
unfolding start_again
restart_found spawn current_dir id c a d =
    let s₁ = (begin_recovery id c d.store).0 in
    let d' : Running = record {
      store = log_event id agent_restarted (restart_payload a) c s₁;
      children = d.children;
    } in
    if status_eq a.status crashed || status_eq a.status recovering
    then elim (spawn (repo_of current_dir a.workspace)) [
      | err e ↦ (d', err (spawn_failed e))
      | ok pid ↦ (start_again id pid c d', ok pid)
    ]
    else (d, err (cannot_restart a.status))

unfoldable pub restart_agent :
    (String → Result String ℕ) → String → String → Clock → Running → Running × Result RestartError ℕ
unfolding restart_found
restart_agent spawn current_dir id c d = elim (get_agent id d.store) [
  | none ↦ (d, err not_found)
  | some a ↦ restart_found spawn current_dir id c a d
]

-- What `try_wait` says of a child: still running, or its exit code and whether a signal ended it.
pub record ExitStatus : Type 0 where
  pub code : Option ℤ
  pub signaled : Bool

-- `code.unwrap_or(1) <= 2`.
abbrev code_passes : Option ℤ → Bool
code_passes none = true
code_passes (some (pos n)) = leb n 2
code_passes (some (negsuc n)) = true

unfoldable pub exits_ok : ExitStatus → Bool
exits_ok e = not e.signaled && code_passes e.code

abbrev is_137 : Option ℤ → Bool
is_137 none = false
is_137 (some (pos n)) = nat_eq n 137
is_137 (some (negsuc n)) = false

abbrev crash_reason : ExitStatus → String
crash_reason e =
    if e.signaled then "killed-by-signal" else if is_137 e.code then "killed" else "crashed"

crash_payload : ExitStatus → Option WorkspaceLease → Clock → Json
crash_payload e lease c =
    let evidence = obj (
      field "timestamp" (str c.now) (
        field "process_exit_code" (json_int e.code) (field "reason" (str (crash_reason e)) end))) in
    obj (
      field "exit_code" (json_int e.code) (
        field "killed_by_signal" (bool e.signaled) (
          field "workspace_lease_id"
            (json_str (map_option (λ (w : WorkspaceLease). w.lease_id) lease))
            (field "workspace_path" (json_str (map_option (λ (w : WorkspaceLease). w.path) lease))
              (field "crash_evidence" evidence end)))))

abbrev lease_of : Option AgentRecord → Option WorkspaceLease
lease_of none = none
lease_of (some a) = a.workspace

-- One dead child: the second loop of `reap_children`.
unfoldable pub reap_child : String → ExitStatus → Clock → Running → Running
unfolding crash_payload
reap_child id e c d =
    let lease = lease_of (get_agent id d.store) in
    let s₁ = (mark_exit id (exits_ok e) c d.store).0 in
    let s₂ = set_attention id (if exits_ok e then finished else error) c s₁ in
    record {
      store =
          if not (exits_ok e) then log_event id peer_crashed (crash_payload e lease c) c s₂ else s₂;
      children = delete_row child_id id d.children;
    }

-- The children that have ended, in the order in which they are found.
unfoldable pub reap_dead : List (String × ExitStatus) → Clock → Running → Running
reap_dead [] c d = d
reap_dead ((id, e) ∷ dead) c d = reap_dead dead c (reap_child id e c d)

ended : (String → Option ExitStatus) → List Child → List (String × ExitStatus)
ended try_wait [] = []
ended try_wait (k ∷ ks) = elim (try_wait k.id) [
  | none ↦ ended try_wait ks
  | some e ↦ (k.id, e) ∷ ended try_wait ks
]

unfoldable pub reap_children : (String → Option ExitStatus) → Clock → Running → Running
unfolding ended
reap_children try_wait c d = reap_dead (ended try_wait d.children) c d
