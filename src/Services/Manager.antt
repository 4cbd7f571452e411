-- ===== src/Services/Manager.antt =====
-- The manager of agents and its files (crates/anti-daemon/src/agent_manager.rs). A file of the storage
-- is named by the workspace and the agent. What serde_json writes and reads is an argument, and so is
-- what becomes of a write. Writing a record as text does not fail: its maps have texts as keys.
pub mod Files
pub mod Durable
pub mod Lifecycle
use anti_subagent.Prelude.{
  ℕ, String, Bool, true, false, ◌&&◌, Option, none, some, List, [], ◌∷◌, ◌++◌, Result, ok, err,
  Clock, ◌==◌, retain, map_option, if◌then◌else◌,
}
use anti_subagent.Prelude.Table.{find_row, replace_row}
use anti_subagent.Core.Model.{AgentStatus, starting, status_eq}
use anti_subagent.Core.Agent.{
  AgentRecord, StatusError, invalid_transition, PersistenceHandle, SpawnRequest, new, transition,
  archive as archive_record,
}

pub record JsonFile : Type 0 where
  pub workspace : String
  pub agent : String
  pub text : String

pub record Serde : Type 0 where
  pub to_string_pretty : AgentRecord → String
  pub from_str : String → Option AgentRecord

pub data AgentManagerError : Type 0 where
  not_found : String → AgentManagerError
  invalid : StatusError → AgentManagerError
  io serialization : AgentManagerError

abbrev pub is_file : String → String → JsonFile → Bool
is_file workspace agent f = f.workspace == workspace && f.agent == agent

abbrev pub find_file : String → String → List JsonFile → Option String
find_file workspace agent [] = none
find_file workspace agent (f ∷ fs) =
    if is_file workspace agent f then some f.text else find_file workspace agent fs

abbrev pub remove_file : String → String → List JsonFile → List JsonFile
remove_file workspace agent [] = []
remove_file workspace agent (f ∷ fs) =
    let rest = remove_file workspace agent fs in
    if is_file workspace agent f then rest else f ∷ rest

-- What becomes of a write: the file has the text, or it is as before since it could not be opened, or it was
-- emptied and has the part of the text that was written until the error.
pub data WriteFate : Type 0 where
  written refused : WriteFate
  broken_off : String → WriteFate

abbrev pub is_written : WriteFate → Bool
is_written written = true
is_written refused = false
is_written (broken_off text) = false

abbrev pub put_file : AgentRecord → String → List JsonFile → List JsonFile
put_file r text fs =
    remove_file r.workspace_id r.agent_id fs
    ++ record { workspace = r.workspace_id; agent = r.agent_id; text = text } ∷ []

unfoldable pub save :
    Serde
    → WriteFate
    → AgentRecord
    → List JsonFile
    → List JsonFile × Result AgentManagerError (Unit {0})
save j written r fs = (put_file r (j.to_string_pretty r) fs, ok tt)
save j refused r fs = (fs, err io)
save j (broken_off text) r fs = (put_file r text fs, err io)

abbrev parsed : Option AgentRecord → Result AgentManagerError (Option AgentRecord)
parsed none = err serialization
parsed (some r) = ok (some r)

unfoldable pub load :
    Serde → String → String → List JsonFile → Result AgentManagerError (Option AgentRecord)
load j workspace agent fs = elim (find_file workspace agent fs) [
  | none ↦ ok none
  | some text ↦ parsed (j.from_str text)
]

abbrev push_record :
    Option AgentRecord
    → Result AgentManagerError (List AgentRecord)
    → Result AgentManagerError (List AgentRecord)
push_record none rest = err serialization
push_record (some r) (ok rs) = ok (r ∷ rs)
push_record (some r) (err e) = err e

-- The order of the files is that of read_dir.
unfoldable pub list_workspace :
    Serde → String → List JsonFile → Result AgentManagerError (List AgentRecord)
list_workspace j workspace [] = ok []
list_workspace j workspace (f ∷ fs) =
    let rest = list_workspace j workspace fs in
    if f.workspace == workspace then push_record (j.from_str f.text) rest else rest

unfoldable pub delete : String → String → List JsonFile → List JsonFile
delete workspace agent fs = remove_file workspace agent fs

pub record AgentManager : Type 0 where
  pub agents : List AgentRecord
  pub storage : List JsonFile

abbrev pub record_id : AgentRecord → String
record_id r = r.agent_id

abbrev pub empty_manager : AgentManager
empty_manager = record { agents = []; storage = [] }

abbrev pub Answer : Type 0
Answer = Result AgentManagerError (Unit {0})

-- The record that `spawn` makes first.
abbrev pub requested : Clock → String → SpawnRequest → AgentRecord
requested c id q = record (new id q.role q.provider q.workspace_id q.config c) {
  parent_id = q.parent_id;
  disposition = q.disposition;
}

-- `emit` sends on a channel whose receiver `new` has dropped, so that nothing comes of it.
unfoldable pub spawn :
    Serde
    → WriteFate
    → Clock
    → String
    → SpawnRequest
    → AgentManager
    → AgentManager × Result AgentManagerError String
spawn j writes c id q m = elim (transition starting c (requested c id q)) [
  | err e ↦ (m, err (invalid e))
  | ok r ↦
      let saved = save j writes r m.storage in
      elim saved.1 [
        | err e ↦ (record m { storage = saved.0 }, err e)
        | ok u ↦ (record { agents = replace_row record_id r m.agents; storage = saved.0 }, ok id)
      ]
]

unfoldable pub get : String → AgentManager → Result AgentManagerError AgentRecord
get id m = elim (find_row record_id id m.agents) [ none ↦ err (not_found id) | some r ↦ ok r ]

-- The record in memory is changed by `get_mut` before it is saved.
unfoldable pub change :
    Serde
    → WriteFate
    → String
    → (AgentRecord → Result StatusError AgentRecord)
    → AgentManager
    → AgentManager × Answer
change j writes id f m = elim (find_row record_id id m.agents) [
  | none ↦ (m, err (not_found id))
  | some old ↦ elim (f old) [
    | err e ↦ (m, err (invalid e))
    | ok r ↦
        let saved = save j writes r m.storage in
        (record { agents = replace_row record_id r m.agents; storage = saved.0 }, saved.1)
  ]
]

unfoldable pub update_status :
    Serde → WriteFate → Clock → String → AgentStatus → AgentManager → AgentManager × Answer
unfolding change
update_status j writes c id to m = change j writes id (transition to c) m

unfoldable pub set_persistence :
    Serde → WriteFate → String → PersistenceHandle → AgentManager → AgentManager × Answer
unfolding change
set_persistence j writes id handle m =
    change j writes id (λ r. ok (record r { persistence_handle = some handle })) m

unfoldable pub set_pid : Serde → WriteFate → String → ℕ → AgentManager → AgentManager × Answer
unfolding change
set_pid j writes id pid m = change j writes id (λ r. ok (record r { pid = some pid })) m

unfoldable pub archive : Serde → WriteFate → Clock → String → AgentManager → AgentManager × Answer
unfolding change
archive j writes c id m = change j writes id (λ r. ok (archive_record c r)) m

unfoldable pub list : AgentManager → List AgentRecord
list m = m.agents

unfoldable pub list_by_status : AgentStatus → AgentManager → List AgentRecord
list_by_status status m = retain (λ r. status_eq r.status status) m.agents
