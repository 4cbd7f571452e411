-- ===== src/Daemon/Stop/Laws.antt =====
-- What a stop promises.
use anti_subagent.Prelude.{
  ℕ, String, Bool, true, false, ◌&&◌, ◌||◌, not, ◌≡◌, refl, some, List, [], ◌∷◌, arith, any,
  map_option, Clock, ◌==◌, if◌then◌else◌,
}
use anti_subagent.Prelude.Table.{has_row, has-row-delete_any}
use anti_subagent.Core.Model.{stopped}
use anti_subagent.Core.Events.{agent_stopped}
use anti_subagent.Store.Agents.{get_agent, update_status}
use anti_subagent.Store.Agents.Laws.{moved}
use anti_subagent.Store.Agents.Updates.{get-update_status}
use anti_subagent.Daemon.Spawn.Laws.{is_ok_response}
use anti_subagent.Daemon.Restart.{child_id, Running}
use anti_subagent.Daemon.Restart.Reaping.{get-logged}
use anti_subagent.Daemon.Stop.{
  Poll, Signals, sees_gone, wait_pid_gone, is_stopped_by, pid_of, stop_payload, stop_process,
  stop_agent,
}

wait_pid_gone_lem :
    (tracked : Bool) (ps : List Poll) → wait_pid_gone tracked ps ≡ any (sees_gone tracked) ps
unfolding wait_pid_gone
wait_pid_gone_lem tracked [] = refl
wait_pid_gone_lem tracked (p ∷ ps) = ground (arith, wait_pid_gone_lem tracked ps)

-- That the process was seen to be gone: by a poll of a wait, or by signal 0 at the end.
abbrev pub was_seen_gone : Bool → Signals → Bool
was_seen_gone tracked g =
    not g.answers_last || any (sees_gone tracked) g.first || any (sees_gone tracked) g.second

dead_was_seen :
    (force tracked : Bool) (g : Signals)
    → is_stopped_by force tracked g || not g.answers_last ≡ true
    → was_seen_gone tracked g ≡ true
unfolding is_stopped_by
dead_was_seen force tracked g h =
    ground (arith, h, wait_pid_gone_lem tracked g.first, wait_pid_gone_lem tracked g.second)

module _ (g : Signals) (force : Bool) (id j : String) (c : Clock) (d : Running) where
  process_store : get_agent j (stop_process g force id c d).0.store ≡ (
      if is_ok_response (stop_process g force id c d).1 && id == j
      then map_option (moved stopped c) (get_agent j d.store)
      else get_agent j d.store)
  unfolding stop_process
  process_store =
      let s = (update_status id stopped c d.store).0 in
      ground (
        arith,
        get-update_status id j stopped c d.store,
        get-logged j id agent_stopped (stop_payload force) c s,
      )

  process_children :
      has_row child_id j (stop_process g force id c d).0.children
      ≡ (if id == j then false else has_row child_id j d.children)
  unfolding stop_process
  process_children = ground (arith, has-row-delete_any child_id id j d.children)

  process_seen :
      (not (is_ok_response (stop_process g force id c d).1)
        || was_seen_gone (has_row child_id id d.children) g)
      ≡ true
  unfolding stop_process
  process_seen = ground (arith, dead_was_seen force (has_row child_id id d.children) g)

  process_answers : (is_ok_response (stop_process g force id c d).1 || g.answers_last) ≡ true
  unfolding stop_process
  process_answers = ground arith

stop-process :
    (kernel : ℕ → Signals) (force : Bool) (id : String) (c : Clock) (d : Running) (pid : ℕ)
    → pid_of (get_agent id d.store) ≡ some pid
    → stop_agent kernel force id c d ≡ stop_process (kernel pid) force id c d
unfolding stop_agent
stop-process kernel force id c d pid h = rw (stop_agent, h) refl

-- Stopped is said only of a process that was seen to be gone: where a stop of an agent with a pid is answered
-- with success, a poll or the last signal 0 found no process or the child exited, and where it is refused the process still
-- answers. The agent is Stopped exactly with success, and every other agent is as before; the child leaves the table of children
-- either way.
pub stop_agent_lem :
    (kernel : ℕ → Signals) (force : Bool) (id j : String) (c : Clock) (d : Running) (pid : ℕ)
    → pid_of (get_agent id d.store) ≡ some pid
    → let r = stop_agent kernel force id c d in
      ((not (is_ok_response r.1) || was_seen_gone (has_row child_id id d.children) (kernel pid))
        ≡ true)
      × ((is_ok_response r.1 || (kernel pid).answers_last) ≡ true)
      × (get_agent j r.0.store ≡ (
          if is_ok_response r.1 && id == j
          then map_option (moved stopped c) (get_agent j d.store)
          else get_agent j d.store))
      × (has_row child_id j r.0.children
          ≡ (if id == j then false else has_row child_id j d.children))
stop_agent_lem kernel force id j c d pid h =
    let g = kernel pid in
    rw (stop-process kernel force id c d pid h) (
      process_seen g force id j c d,
      process_answers g force id j c d,
      process_store g force id j c d,
      process_children g force id j c d,
    )
