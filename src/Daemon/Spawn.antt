-- ===== src/Daemon/Spawn.antt =====
-- The start of an agent: `spawn_peer_impl` of crates/anti-daemon/src/main.rs. The task that is written
-- to the process is left out.
pub mod Laws
use Prim.Native.String
use anti_subagent.Prelude.{
  ℕ, String, Bool, true, false, ◌||◌, ◌&&◌, not, Option, none, some, List, [], ◌∷◌, Result, ok, err,
  map_option, Clock, ◌==◌, all, leb, nat_eq, if◌then◌else◌,
}
use anti_subagent.Prelude.Text.{codes}
use anti_subagent.Prelude.Table.{replace_row}
use anti_subagent.Core.Model.{
  Role, supervisor, lead, peer, Disposition, engineer, architect, reviewer, scout, proof_auditor,
  shadow, Harness, claude, codex, open_code, sleep, created, starting, failed, running,
  no_attention, AgentRecord,
}
use anti_subagent.Core.Events.{
  Json, num, str, obj, end, field, agent_registered, agent_started, agent_failed,
}
use anti_subagent.Store.Db.{Store}
use anti_subagent.Store.Events.{log_event}
use anti_subagent.Store.Agents.{insert_agent, update_status, attach_pid, set_workspace}
use anti_subagent.Daemon.Wire.{Response, ok_response, err_response}
use anti_subagent.Daemon.Restart.{Child, child_id, Running}

-- A worktree of the pool.
pub record Worktree : Type 0 where
  pub lease_id : String
  pub path : String

-- The file system, the pool of worktrees and the programs: `is_dir`, `Treehouse::acquire`,
-- `HarnessAdapter::spawn_command` and `Command::spawn`.
pub record World : Type 0 where
  pub is_dir : String → Bool
  pub acquire : String → String → Result String Worktree
  pub spawn_command : String → String → Result String (Unit {0})
  pub spawn : String → Result String ℕ

pub record SpawnRequest : Type 0 where
  pub id : String
  pub role : String
  pub disposition : Option String
  pub harness : String
  pub task_path : Option String
  pub repo : String
  pub parent_id : Option String

-- `char::is_whitespace`.
abbrev is_whitespace : ℕ → Bool
is_whitespace c =
    leb 9 c && leb c 13
    || (nat_eq c 32
        || (nat_eq c 133
            || (nat_eq c 160
                || (nat_eq c 5760
                    || (leb 8192 c && leb c 8202
                        || (nat_eq c 8232
                            || (nat_eq c 8233
                                || (nat_eq c 8239 || (nat_eq c 8287 || nat_eq c 12288)))))))))

-- `s.trim().is_empty()`.
abbrev pub is_blank : String → Bool
is_blank s = all is_whitespace (codes s)

unfoldable pub requested_role : String → Option Role
requested_role s =
    if s == "supervisor"
    then some supervisor
    else if s == "lead"
    then some lead
    else if s == "peer"
    then some peer
    else none

unfoldable pub requested_harness : String → Option Harness
requested_harness s =
    if s == "claude"
    then some claude
    else if s == "codex"
    then some codex
    else if s == "opencode"
    then some open_code
    else if s == "sleep"
    then some sleep
    else none

unfoldable pub requested_disposition : String → Disposition
requested_disposition s =
    if s == "architect"
    then architect
    else if s == "reviewer"
    then reviewer
    else if s == "scout"
    then scout
    else if s == "proof-auditor"
    then proof_auditor
    else if s == "shadow"
    then shadow
    else engineer

abbrev pub record_for : SpawnRequest → Role → Harness → Clock → AgentRecord
record_for q role harness c = record {
  id = q.id;
  role = role;
  disposition = map_option requested_disposition q.disposition;
  harness = harness;
  parent_id = q.parent_id;
  pid = none;
  workspace = none;
  task_path = q.task_path;
  status = created;
  restart_count = 0;
  spawn_gen = 1;
  last_state_change_seq = 0;
  created_at = c.now;
  updated_at = c.now;
  attention = no_attention;
}

abbrev error_payload : String → Json
error_payload e = obj (field "error" (str e) end)

abbrev pid_payload : ℕ → Worktree → Json
pid_payload pid w = obj (field "pid" (num pid) (field "worktree" (str w.path) end))

abbrev register_payload : SpawnRequest → Json
register_payload q = obj (field "role" (str q.role) (field "harness" (str q.harness) end))

-- Step 6: the process is started or the agent has failed.
start_process : World → SpawnRequest → Worktree → Clock → Running → Running × Response
start_process o q w c d = elim (o.spawn w.path) [
  | err e ↦ (
    record d {
      store =
          log_event q.id agent_failed (error_payload e) c (update_status q.id failed c d.store).0;
    },
    err_response "spawn",
  )
  | ok pid ↦ (
    record {
      store =
          log_event q.id agent_started (pid_payload pid w) c
            (update_status q.id running c (attach_pid q.id pid c d.store)).0;
      children = replace_row child_id (record { id = q.id; pid = pid }) d.children;
    },
    ok_response (
        obj (
          field "id" (str q.id) (
            field "status" (str "running") (
              field "pid" (num pid) (
                field "workspace"
                  (obj (field "lease_id" (str w.lease_id) (field "path" (str w.path) end)))
                  end))))),
  )
]

-- Steps 4 and 5: the worktree and the command.
lease_worktree : World → SpawnRequest → Clock → Running → Running × Response
unfolding start_process
lease_worktree o q c d = elim (o.acquire q.repo q.id) [
  | err e ↦ (
    record d {
      store =
          log_event q.id agent_failed (error_payload (String.◌++◌ "workspace: " e)) c
            (update_status q.id failed c d.store).0;
    },
    err_response "workspace",
  )
  | ok w ↦
      let d' = record d { store = set_workspace q.id w.lease_id w.path c d.store } in
      elim (o.spawn_command q.harness w.path) [
        | err e ↦
            (record d' { store = (update_status q.id failed c d'.store).0 }, err_response "spawn")
        | ok _ ↦ start_process o q w c d'
      ]
]

-- Steps 2 and 3: the id is reserved and the record saved before anything is started.
reserve : World → SpawnRequest → Role → Harness → Clock → Running → Running × Response
unfolding lease_worktree
reserve o q role harness c d =
    let (s₁, inserted) = insert_agent (record_for q role harness c) d.store in
    let s₂ = log_event q.id agent_registered (register_payload q) c s₁ in
    let (s₃, set) = update_status q.id starting c s₂ in
    elim inserted [
      | err e ↦ (record d { store = s₁ }, err_response "duplicate")
      | ok _ ↦ elim set [
        | err e ↦ (record d { store = s₃ }, err_response "store")
        | ok _ ↦ lease_worktree o q c (record d { store = s₃ })
      ]
    ]

unfoldable pub spawn_peer_impl : World → SpawnRequest → Clock → Running → Running × Response
unfolding reserve
spawn_peer_impl o q c d =
    if is_blank q.id then (d, err_response "invalid") else elim (requested_role q.role) [
      | none ↦ (d, err_response "invalid")
      | some role ↦ elim (requested_harness q.harness) [
        | none ↦ (d, err_response "invalid")
        | some harness ↦
            if not (o.is_dir q.repo)
            then (d, err_response "invalid")
            else reserve o q role harness c d
      ]
    ]
