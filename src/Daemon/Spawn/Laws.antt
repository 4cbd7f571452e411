-- ===== src/Daemon/Spawn/Laws.antt =====
-- What the start of an agent leaves in the registry.
use Prim.Native.String
use anti_subagent.Prelude.{
  String, Bool, true, false, ◌||◌, ◌≡◌, refl, none, some, arith, ok, err, map_option, Clock, ◌==◌,
  eq_refl, Result-cases, Option-cases, inl, inr, if◌then◌else◌,
}
use anti_subagent.Core.Model.{Role, Harness, failed, running, starting, status_eq, AgentRecord}
use anti_subagent.Core.Events.{agent_registered, agent_failed, agent_started}
use anti_subagent.Store.Db.{Store}
use anti_subagent.Store.Events.{log_event}
use anti_subagent.Store.Agents.{get_agent, insert_agent, update_status, attach_pid, set_workspace}
use anti_subagent.Store.Agents.Laws.{moved, get-insert_agent}
use anti_subagent.Store.Agents.Updates.{
  leased, attached, get-update_status, update_status_ok, get-set_workspace, get-attach_pid,
}
use anti_subagent.Daemon.Wire.{Response, ok_response, err_response}
use anti_subagent.Daemon.Restart.{Running}
use anti_subagent.Daemon.Restart.Reaping.{get-logged}
use anti_subagent.Daemon.Spawn.{
  World, Worktree, SpawnRequest, record_for, error_payload, pid_payload, register_payload,
  start_process, lease_worktree, reserve, spawn_peer_impl, requested_role, requested_harness,
  is_blank,
}

-- The agent after the start of its process, and after the lease of its worktree.
abbrev pub after_spawn : World → Worktree → Clock → AgentRecord → AgentRecord
after_spawn o w c a = elim (o.spawn w.path) [
  | err e ↦ moved failed c a
  | ok pid ↦ moved running c (attached pid c a)
]

abbrev pub after_command : World → SpawnRequest → Worktree → Clock → AgentRecord → AgentRecord
after_command o q w c a = elim (o.spawn_command q.harness w.path) [
  | err e ↦ moved failed c a
  | ok _ ↦ after_spawn o w c a
]

abbrev pub after_lease : World → SpawnRequest → Clock → AgentRecord → AgentRecord
after_lease o q c a = elim (o.acquire q.repo q.id) [
  | err e ↦ moved failed c a
  | ok w ↦ after_command o q w c (leased w.lease_id w.path c a)
]

module _ (o : World) (q : SpawnRequest) (c : Clock) (j : String) where
  get-start_process :
      (w : Worktree) (d : Running)
      → get_agent j (start_process o q w c d).0.store ≡ (
          if q.id == j
          then map_option (after_spawn o w c) (get_agent j d.store)
          else get_agent j d.store)
  unfolding start_process
  get-start_process w d = elim (Result-cases (o.spawn w.path)) [
    | inl (e, k) ↦ ground (
      arith,
      k,
      get-update_status q.id j failed c d.store,
      get-logged j q.id agent_failed (error_payload e) c (update_status q.id failed c d.store).0,
      Option-cases (get_agent j d.store),
    )
    | inr (pid, k) ↦ ground (
      arith,
      k,
      get-attach_pid q.id j pid c d.store,
      get-update_status q.id j running c (attach_pid q.id pid c d.store),
      get-logged j q.id agent_started (pid_payload pid w) c
          (update_status q.id running c (attach_pid q.id pid c d.store)).0,
      Option-cases (get_agent j d.store),
    )
  ]

  get-lease_worktree :
      (d : Running)
      → get_agent j (lease_worktree o q c d).0.store ≡ (
          if q.id == j
          then map_option (after_lease o q c) (get_agent j d.store)
          else get_agent j d.store)
  unfolding lease_worktree
  get-lease_worktree d = elim (Result-cases (o.acquire q.repo q.id)) [
    | inl (e, k) ↦ ground (
      arith,
      k,
      get-update_status q.id j failed c d.store,
      get-logged j q.id agent_failed (error_payload (String.◌++◌ "workspace: " e)) c
          (update_status q.id failed c d.store).0,
      Option-cases (get_agent j d.store),
    )
    | inr (w, k) ↦
        let s = set_workspace q.id w.lease_id w.path c d.store in
        ground (
          arith,
          k,
          get-set_workspace q.id w.lease_id w.path j c d.store,
          get-update_status q.id j failed c s,
          get-start_process w (record d { store = s }),
          Result-cases (o.spawn_command q.harness w.path),
          Option-cases (get_agent j d.store),
        )
  ]

abbrev pub is_ok_response : Response → Bool
is_ok_response (ok_response v) = true
is_ok_response (err_response code) = false

answer-start_process :
    (o : World) (q : SpawnRequest) (w : Worktree) (c : Clock) (d : Running) (a : AgentRecord)
    → is_ok_response (start_process o q w c d).1 ≡ status_eq (after_spawn o w c a).status running
unfolding start_process
answer-start_process o q w c d a = ground (arith, Result-cases (o.spawn w.path))

answer-lease_worktree :
    (o : World) (q : SpawnRequest) (c : Clock) (d : Running) (a : AgentRecord)
    → is_ok_response (lease_worktree o q c d).1 ≡ status_eq (after_lease o q c a).status running
unfolding lease_worktree
answer-lease_worktree o q c d a = elim (Result-cases (o.acquire q.repo q.id)) [
  | inl (e, k) ↦ ground (arith, k)
  | inr (w, k) ↦ ground (
    arith,
    k,
    Result-cases (o.spawn_command q.harness w.path),
    answer-start_process o q w c
        (record d { store = set_workspace q.id w.lease_id w.path c d.store })
        (leased w.lease_id w.path c a),
  )
]

-- The registry when the worktree is asked for.
module _ (q : SpawnRequest) (role : Role) (harness : Harness) (c : Clock) (s : Store) where
  abbrev fresh : AgentRecord
  fresh = record_for q role harness c

  abbrev registered : Store
  registered = log_event q.id agent_registered (register_payload q) c (insert_agent fresh s).0

  abbrev reserved : Store
  reserved = (update_status q.id starting c registered).0

  module _ (free : get_agent q.id s ≡ none) where
    get-registered :
        (j : String) → get_agent j registered ≡ (if q.id == j then some fresh else get_agent j s)
    get-registered j = ground (
      arith,
      get-logged j q.id agent_registered (register_payload q) c (insert_agent fresh s).0,
      get-insert_agent fresh j s,
      free,
    )

    get-reserved :
        (j : String)
        → get_agent j reserved
          ≡ (if q.id == j then some (moved starting c fresh) else get_agent j s)
    get-reserved j =
        ground (arith, get-registered j, get-update_status q.id j starting c registered)

    reserve_runs :
        (o : World) (d : Running)
        → d.store ≡ s
        → reserve o q role harness c d ≡ lease_worktree o q c (record d { store = reserved })
    unfolding reserve
    reserve_runs o d e =
        let found : get_agent q.id registered ≡ some fresh =
          ground (arith, get-registered q.id, eq_refl q.id) in
        ground (
          arith,
          e,
          free,
          get-insert_agent fresh q.id s,
          update_status_ok q.id starting c registered found,
        )

running_or_failed :
    (o : World) (q : SpawnRequest) (c : Clock) (a : AgentRecord)
    → status_eq (after_lease o q c a).status running
        || status_eq (after_lease o q c a).status failed
      ≡ true
running_or_failed o q c a = elim (Result-cases (o.acquire q.repo q.id)) [
  | inl (e, k) ↦ ground (arith, k)
  | inr (w, k) ↦
      ground
        (arith, k, Result-cases (o.spawn_command q.harness w.path), Result-cases (o.spawn w.path))
]

-- The start of an agent whose id is free and whose role, harness and directory are good: the agent is
-- found as the outcomes of the worktree, the command and the process decide, Failed where one of them
-- fails and Running with its process and worktree where none does; the answer is Ok exactly where it
-- is Running, and every other agent is found as before.
pub spawn_peer_impl_lem :
    (o : World) (q : SpawnRequest) (c : Clock) (d : Running) (role : Role) (harness : Harness)
    → get_agent q.id d.store ≡ none
    → is_blank q.id ≡ false
    → requested_role q.role ≡ some role
    → requested_harness q.harness ≡ some harness
    → o.is_dir q.repo ≡ true
    → let a = after_lease o q c (moved starting c (record_for q role harness c)) in
      ((j : String)
        → get_agent j (spawn_peer_impl o q c d).0.store
          ≡ (if q.id == j then some a else get_agent j d.store))
      × (is_ok_response (spawn_peer_impl o q c d).1 ≡ status_eq a.status running)
      × (status_eq a.status running || status_eq a.status failed ≡ true)
unfolding spawn_peer_impl
spawn_peer_impl_lem o q c d role harness free b r h dir =
    let run = reserve_runs q role harness c d.store free o d refl in
    let d' = record d { store = reserved q role harness c d.store } in
    let a = moved starting c (record_for q role harness c) in
    (
      λ j. ground (
        arith,
        b,
        r,
        h,
        dir,
        run,
        get-lease_worktree o q c j d',
        get-reserved q role harness c d.store free j,
      ),
      ground (arith, b, r, h, dir, run, answer-lease_worktree o q c d' a),
      running_or_failed o q c a,
    )
