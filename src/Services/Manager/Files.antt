-- ===== src/Services/Manager/Files.antt =====
-- The files after a write.
use anti_subagent.Prelude.{
  String, ◌&&◌, ◌≡◌, refl, none, some, List, [], ◌∷◌, ◌++◌, arith, ◌==◌, eq_iff, if◌then◌else◌,
}
use anti_subagent.Prelude.Table.{or_else}
use anti_subagent.Core.Agent.{AgentRecord}
use anti_subagent.Services.Manager.{written, JsonFile, Serde, is_file, find_file, remove_file, save}

find-file-append :
    (w a : String) (fs : List JsonFile) (f : JsonFile)
    → find_file w a (fs ++ f ∷ [])
      ≡ or_else (find_file w a fs) (if is_file w a f then some f.text else none)
find-file-append w a [] f = refl
find-file-append w a (x ∷ fs) f = ground (arith, find-file-append w a fs f)

find-file-remove :
    (v b w a : String) (fs : List JsonFile)
    → find_file w a (remove_file v b fs) ≡ (if v == w && b == a then none else find_file w a fs)
find-file-remove v b w a [] = ground arith
find-file-remove v b w a (x ∷ fs) = ground (
  arith,
  find-file-remove v b w a fs,
  eq_iff x.workspace v,
  eq_iff x.workspace w,
  eq_iff x.agent b,
  eq_iff x.agent a,
  eq_iff v w,
  eq_iff b a,
)

-- What a lookup finds after a record is saved.
pub find-save :
    (j : Serde) (r : AgentRecord) (w a : String) (fs : List JsonFile)
    → find_file w a (save j written r fs).0 ≡ (
        if r.workspace_id == w && r.agent_id == a
        then some (j.to_string_pretty r)
        else find_file w a fs)
unfolding save
find-save j r w a fs =
    let file : JsonFile = record {
      workspace = r.workspace_id;
      agent = r.agent_id;
      text = j.to_string_pretty r;
    } in
    ground (
      arith,
      find-file-append w a (remove_file r.workspace_id r.agent_id fs) file,
      find-file-remove r.workspace_id r.agent_id w a fs,
    )
