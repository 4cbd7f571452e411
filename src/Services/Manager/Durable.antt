-- ===== src/Services/Manager/Durable.antt =====
-- The files hold what the manager has in memory.
use anti_subagent.Prelude.{
  ℕ, String, true, ◌≡◌, ◌⊎◌, refl, sym, ◌∙◌, some, List, [], ◌∷◌, arith, ok, err, Result, Clock,
  ◌==◌, eq_iff, eq_refl, all, inl, inr, Option-cases, Bool-cases, Result-cases, if◌then◌else◌,
}
use mathlib.Core.Path.{subst}
use mathlib.Core.Option.{some-injective}
use anti_subagent.Prelude.Table.{find_row, find-key, find-replace, replace_row}
use anti_subagent.Core.Model.{AgentStatus, starting}
use anti_subagent.Core.Status.{can_transition_to}
use anti_subagent.Core.Agent as Agent
use anti_subagent.Core.Agent.{
  AgentRecord, StatusError, PersistenceHandle, SpawnRequest, transition, archive as archive_record,
}
use anti_subagent.Services.Manager.{
  WriteFate, written, refused, is_written, requested, Serde, AgentManager, io, find_file, save,
  load, record_id, empty_manager, spawn, get, change, update_status, set_persistence, set_pid,
  archive,
}
use anti_subagent.Services.Manager.Files.{find-save}

-- The calls that change the manager; the text of a spawn is the id that is drawn.
pub data ManagerCall : Type 0 where
  spawning : String → SpawnRequest → ManagerCall
  updating : String → AgentStatus → ManagerCall
  persisting : String → PersistenceHandle → ManagerCall
  pidding : String → ℕ → ManagerCall
  archiving : String → ManagerCall

-- A call, at a time, with what becomes of its write.
pub record Occasion : Type 0 where
  pub call : ManagerCall
  pub clock : Clock
  pub writes : WriteFate

unfoldable pub apply_call : Serde → WriteFate → Clock → ManagerCall → AgentManager → AgentManager
apply_call j w c (spawning id q) m = (spawn j w c id q m).0
apply_call j w c (updating id to) m = (update_status j w c id to m).0
apply_call j w c (persisting id handle) m = (set_persistence j w id handle m).0
apply_call j w c (pidding id pid) m = (set_pid j w id pid m).0
apply_call j w c (archiving id) m = (archive j w c id m).0

unfoldable pub run : Serde → List Occasion → AgentManager → AgentManager
run j [] m = m
run j (o ∷ os) m = run j os (apply_call j o.writes o.clock o.call m)

abbrev pub IsDurable : Serde → AgentManager → Type 0
IsDurable j m =
    (id : String) (r : AgentRecord)
    → find_row record_id id m.agents ≡ some r
    → find_file r.workspace_id r.agent_id m.storage ≡ some (j.to_string_pretty r)

-- A record that goes to the memory and to the files.
abbrev pub stored : Serde → AgentRecord → AgentManager → AgentManager
stored j r m = record {
  agents = replace_row record_id r m.agents;
  storage = (save j written r m.storage).0;
}

stored-find :
    (j : Serde) (r : AgentRecord) (m : AgentManager) (id : String)
    → find_row record_id id (stored j r m).agents
      ≡ (if r.agent_id == id then some r else find_row record_id id m.agents)
stored-find j r m id = find-replace record_id id r m.agents

stored-IsDurable :
    (j : Serde) (r : AgentRecord) (m : AgentManager) → IsDurable j m → IsDurable j (stored j r m)
stored-IsDurable j r m h id x e = elim (Bool-cases (r.agent_id == id)) [
  | inl y ↦
      subst
        (λ (z : AgentRecord).
          find_file z.workspace_id z.agent_id (stored j r m).storage ≡ some (j.to_string_pretty z))
        (some-injective r x (sym (rw y at (stored-find j r m id)) ∙ e))
        (ground (
          arith,
          find-save j r r.workspace_id r.agent_id m.storage,
          eq_refl r.workspace_id,
          eq_refl r.agent_id,
        ))
  | inr n ↦
      let before : find_row record_id id m.agents ≡ some x =
        sym (rw n at (stored-find j r m id)) ∙ e in
      ground (
        arith,
        h id x before,
        find-save j r x.workspace_id x.agent_id m.storage,
        eq_iff r.agent_id x.agent_id,
        eq_iff x.agent_id id,
        eq_iff r.agent_id id,
        find-key record_id id m.agents before,
      )
]

change_cases :
    (j : Serde) (id : String) (f : AgentRecord → Result StatusError AgentRecord) (m : AgentManager)
    → ((change j written id f m).0 ≡ m)
      ⊎ ((r : AgentRecord) × ((change j written id f m).0 ≡ stored j r m))
unfolding change
change_cases j id f m = elim (Option-cases (find_row record_id id m.agents)) [
  | inl e ↦ inl (rw (change, e) refl)
  | inr (old, e) ↦ elim (Result-cases (f old)) [
    | inl (x, k) ↦ inl (rw (change, e, k) refl)
    | inr (r, k) ↦ inr (r, rw (change, e, k) refl)
  ]
]

spawn_cases :
    (j : Serde) (c : Clock) (id : String) (q : SpawnRequest) (m : AgentManager)
    → ((spawn j written c id q m).0 ≡ m)
      ⊎ ((r : AgentRecord) × ((spawn j written c id q m).0 ≡ stored j r m))
unfolding spawn save transition can_transition_to Agent.new
spawn_cases j c id q m =
    inr (record (requested c id q) { status = starting; last_activity_at = c.now }, refl)

call_cases :
    (j : Serde) (c : Clock) (a : ManagerCall) (m : AgentManager)
    → (apply_call j written c a m ≡ m)
      ⊎ ((r : AgentRecord) × (apply_call j written c a m ≡ stored j r m))
unfolding apply_call update_status set_persistence set_pid archive
call_cases j c (spawning id q) m = spawn_cases j c id q m
call_cases j c (updating id to) m = change_cases j id (transition to c) m
call_cases j c (persisting id handle) m =
    change_cases j id (λ r. ok (record r { persistence_handle = some handle })) m
call_cases j c (pidding id pid) m = change_cases j id (λ r. ok (record r { pid = some pid })) m
call_cases j c (archiving id) m = change_cases j id (λ r. ok (archive_record c r)) m

call-IsDurable :
    (j : Serde) (o : Occasion) (m : AgentManager)
    → o.writes ≡ written
    → IsDurable j m
    → IsDurable j (apply_call j o.writes o.clock o.call m)
call-IsDurable j o m w h = elim (call_cases j o.clock o.call m) [
  | inl e ↦ subst (IsDurable j) (sym (rw w e)) h
  | inr (r, e) ↦ subst (IsDurable j) (sym (rw w e)) (stored-IsDurable j r m h)
]

run-IsDurable :
    (j : Serde) (os : List Occasion) (m : AgentManager)
    → all (λ (o : Occasion). is_written o.writes) os ≡ true
    → IsDurable j m
    → IsDurable j (run j os m)
unfolding run
run-IsDurable j [] m w h = h
run-IsDurable j (o ∷ os) m w h =
    run-IsDurable j os (apply_call j o.writes o.clock o.call m) (ground arith)
      (call-IsDurable j o m (ground arith) h)

pub get_found :
    (id : String) (m : AgentManager) (r : AgentRecord)
    → get id m ≡ ok r
    → find_row record_id id m.agents ≡ some r
unfolding get
get_found id m r e = elim (Option-cases (find_row record_id id m.agents)) [
  | inl k ↦ ground (arith, k)
  | inr (x, k) ↦ ground (arith, k)
]

-- While the file system takes every write, the record that the manager has of an agent is what its
-- file gives back, after any calls from the empty manager. What serde_json writes of the record it reads
-- as the same record.
pub get-load :
    (j : Serde) (os : List Occasion) (id : String) (r : AgentRecord)
    → j.from_str (j.to_string_pretty r) ≡ some r
    → all (λ (o : Occasion). is_written o.writes) os ≡ true
    → get id (run j os empty_manager) ≡ ok r
    → (r.agent_id ≡ id) × (load j r.workspace_id id (run j os empty_manager).storage ≡ ok (some r))
unfolding load
get-load j os id r serde w e =
    let m = run j os empty_manager in
    let found = get_found id m r e in
    let kept = run-IsDurable j os empty_manager w (λ i y n. absurd (cc n)) id r found in
    let same : r.agent_id ≡ id =
      ground (arith, find-key record_id id m.agents found, eq_iff r.agent_id id) in
    (same, ground (arith, kept, serde, same))

-- A legal update of the status whose write is refused is answered with an error, but the manager has the
-- new status, while the file still gives back the record with the old one. Every write before it was taken, and what
-- serde_json writes of the record it reads as the same record.
pub refused_write_diverges :
    (j : Serde) (os : List Occasion) (c : Clock) (id : String) (to : AgentStatus) (r : AgentRecord)
    → j.from_str (j.to_string_pretty r) ≡ some r
    → all (λ (o : Occasion). is_written o.writes) os ≡ true
    → get id (run j os empty_manager) ≡ ok r
    → can_transition_to r.status to ≡ true
    → let after = update_status j refused c id to (run j os empty_manager) in
      (after.1 ≡ err io)
      × (get id after.0 ≡ ok (record r { status = to; last_activity_at = c.now }))
      × (load j r.workspace_id id after.0.storage ≡ ok (some r))
unfolding get update_status change transition save
refused_write_diverges j os c id to r serde w e k =
    let m = run j os empty_manager in
    let now : AgentRecord = record r { status = to; last_activity_at = c.now } in
    let found = get_found id m r e in
    let filed = get-load j os id r serde w e in
    ground (arith, found, k, filed, find-replace record_id id now m.agents, eq_refl id)
