-- ===== src/Services/Manager/Lifecycle.antt =====
-- The manager moves each agent along the table of crates/anti-core/src/agent.rs, or archives it.
use anti_subagent.Prelude.{
  String, ◌≡◌, refl, ap, ◌∙◌, Option, none, some, List, [], ◌∷◌, arith, ok, err, Result, Clock,
  ◌==◌, eq_iff, inl, inr, Option-cases, Bool-cases, map_option, if◌then◌else◌,
}
use anti_subagent.Prelude.Table.{find_row, find-key, find-replace, replace_row}
use anti_subagent.Core.Model.{AgentStatus, starting, replaced}
use anti_subagent.Core.Status.{can_transition_to}
use anti_subagent.Core.Agent as Agent
use anti_subagent.Core.Agent.{
  AgentRecord, StatusError, invalid_transition, PersistenceHandle, SpawnRequest, transition,
  archive as archive_record,
}
use anti_subagent.Services.Manager.{
  WriteFate, written, refused, broken_off, is_written, requested, Serde, AgentManager, save,
  record_id, spawn, change, update_status, set_persistence, set_pid, archive,
}
use anti_subagent.Services.Manager.Durable.{
  ManagerCall, spawning, updating, persisting, pidding, archiving, Occasion, apply_call, run,
}

-- The life of the agents without the records: a status for each id that is in use. A status is set by a
-- spawn whose file is written, by an update that the table allows and by an archive; the other calls leave it.
abbrev pub View : Type 0
View = String → Option AgentStatus

abbrev pub set_status : String → AgentStatus → View → View
set_status id st v x = if id == x then some st else v x

abbrev pub update_view : String → AgentStatus → Option AgentStatus → View → View
update_view id to none v = v
update_view id to (some from) v = if can_transition_to from to then set_status id to v else v

abbrev pub archive_view : String → Option AgentStatus → View → View
archive_view id none v = v
archive_view id (some from) v = set_status id replaced v

unfoldable pub view_call : ManagerCall → WriteFate → View → View
view_call (spawning id q) w v = if is_written w then set_status id starting v else v
view_call (updating id to) w v = update_view id to (v id) v
view_call (persisting id handle) w v = v
view_call (pidding id pid) w v = v
view_call (archiving id) w v = archive_view id (v id) v

unfoldable pub view_run : List Occasion → View → View
view_run [] v = v
view_run (o ∷ os) v = view_run os (view_call o.call o.writes v)

abbrev record_status : AgentRecord → AgentStatus
record_status r = r.status

abbrev pub view : AgentManager → View
view m id = map_option record_status (find_row record_id id m.agents)

view-replace :
    (r : AgentRecord) (m : AgentManager) (x : String)
    → map_option record_status (find_row record_id x (replace_row record_id r m.agents))
      ≡ set_status r.agent_id r.status (view m) x
view-replace r m x = ground (arith, find-replace record_id x r m.agents)

spawn_views :
    (j : Serde) (w : WriteFate) (c : Clock) (id : String) (q : SpawnRequest) (m : AgentManager)
    (x : String)
    → view (spawn j w c id q m).0 x
      ≡ (if is_written w then set_status id starting (view m) x else view m x)
unfolding spawn save transition can_transition_to Agent.new
spawn_views j written c id q m x =
    view-replace (record (requested c id q) { status = starting; last_activity_at = c.now }) m x
spawn_views j refused c id q m x = refl
spawn_views j (broken_off text) c id q m x = refl

module _ (j : Serde) (w : WriteFate) (id : String)
    (f : AgentRecord → Result StatusError AgentRecord) (m : AgentManager) (x : String) where
  change_absent : find_row record_id id m.agents ≡ none → view (change j w id f m).0 x ≡ view m x
  unfolding change
  change_absent e = rw (change, e) refl

  change_refused :
      (old : AgentRecord) (y : StatusError)
      → find_row record_id id m.agents ≡ some old
      → f old ≡ err y
      → view (change j w id f m).0 x ≡ view m x
  unfolding change
  change_refused old y e k = rw (change, e, k) refl

  change_made :
      (old r : AgentRecord)
      → find_row record_id id m.agents ≡ some old
      → f old ≡ ok r
      → r.agent_id ≡ old.agent_id
      → view (change j w id f m).0 x ≡ set_status id r.status (view m) x
  unfolding change
  change_made old r e k own =
      rw (change, e, k)
        (ground (
          arith,
          view-replace r m x,
          own,
          find-key record_id id m.agents e,
          eq_iff old.agent_id id,
        ))

  -- A change that leaves the status.
  change_keeps :
      (g : AgentRecord → AgentRecord)
      → ((old : AgentRecord) → f old ≡ ok (g old))
      → ((old : AgentRecord) → (g old).agent_id ≡ old.agent_id)
      → ((old : AgentRecord) → (g old).status ≡ old.status)
      → view (change j w id f m).0 x ≡ view m x
  change_keeps g made own same = elim (Option-cases (find_row record_id id m.agents)) [
    | inl e ↦ change_absent e
    | inr (old, e) ↦
        ground (arith, e, eq_iff id x, same old, change_made old (g old) e (made old) (own old))
  ]

module _ (j : Serde) (w : WriteFate) (c : Clock) (id : String) (m : AgentManager) (x : String) where
  update_status-view :
      (to : AgentStatus)
      → view (update_status j w c id to m).0 x ≡ update_view id to (view m id) (view m) x
  unfolding update_status transition
  update_status-view to = elim (Option-cases (find_row record_id id m.agents)) [
    | inl e ↦ ground (arith, e, change_absent j w id (transition to c) m x e)
    | inr (old, e) ↦ elim (Bool-cases (can_transition_to old.status to)) [
      | inl y ↦
          let r : AgentRecord = record old { status = to; last_activity_at = c.now } in
          ground
            (arith, e, y, change_made j w id (transition to c) m x old r e (ground (arith, y)) refl)
      | inr n ↦
          let error = invalid_transition old.status to in
          ground (
            arith,
            e,
            n,
            change_refused j w id (transition to c) m x old error e (ground (arith, n)),
          )
    ]
  ]

  archive-view : view (archive j w c id m).0 x ≡ archive_view id (view m id) (view m) x
  unfolding archive archive_record
  archive-view = elim (Option-cases (find_row record_id id m.agents)) [
    | inl e ↦ ground (arith, e, change_absent j w id (λ r. ok (archive_record c r)) m x e)
    | inr (old, e) ↦ ground (
      arith,
      e,
      change_made j w id (λ r. ok (archive_record c r)) m x old (archive_record c old) e refl refl,
    )
  ]

call-views :
    (j : Serde) (w : WriteFate) (c : Clock) (a : ManagerCall) (m : AgentManager) (x : String)
    → view (apply_call j w c a m) x ≡ view_call a w (view m) x
unfolding apply_call view_call set_persistence set_pid
call-views j w c (spawning id q) m x = ground (arith, spawn_views j w c id q m x)
call-views j w c (updating id to) m x = update_status-view j w c id m x to
call-views j w c (persisting id handle) m x =
    change_keeps j w id (λ r. ok (record r { persistence_handle = some handle })) m x
      (λ r. record r { persistence_handle = some handle }) (λ r. refl) (λ r. refl) (λ r. refl)
call-views j w c (pidding id pid) m x =
    change_keeps j w id (λ r. ok (record r { pid = some pid })) m x
      (λ r. record r { pid = some pid }) (λ r. refl) (λ r. refl) (λ r. refl)
call-views j w c (archiving id) m x = archive-view j w c id m x

call-view :
    (j : Serde) (o : Occasion) (m : AgentManager)
    → view (apply_call j o.writes o.clock o.call m) ≡ view_call o.call o.writes (view m)
call-view j o m = λ i x. call-views j o.writes o.clock o.call m x i

-- The manager keeps exactly to the lifecycle of its agents: whatever is called, and whatever becomes of the writes,
-- the statuses after the calls are those that the life of the agents has after them, in which an agent
-- begins as Starting, is updated along the table of agent.rs only, and is Replaced when it is archived.
pub run_refines :
    (j : Serde) (os : List Occasion) (m : AgentManager) → view (run j os m) ≡ view_run os (view m)
unfolding run view_run
run_refines j [] m = refl
run_refines j (o ∷ os) m =
    run_refines j os (apply_call j o.writes o.clock o.call m) ∙ ap (view_run os) (call-view j o m)
