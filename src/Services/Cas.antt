-- ===== src/Services/Cas.antt =====
-- Writes that are guarded by a digest, and the lock file of a directory
-- (crates/anti-workspace/src/cas.rs). The files are a table by path and the locks one by directory; the
-- digest of sha2 is an argument, and so is whether the file system takes a write.
pub mod Writes
pub mod Locks
use anti_subagent.Prelude.{
  String, Bool, true, false, Option, none, some, List, [], ◌∷◌, Result, ok, err, ◌==◌,
  if◌then◌else◌,
}
use anti_subagent.Prelude.Table.{find_row, replace_row, delete_row, has_row}

pub record File : Type 0 where
  pub path : String
  pub content : String

abbrev pub file_path : File → String
file_path f = f.path

pub record Lock : Type 0 where
  pub directory : String
  pub holder : String

abbrev pub lock_directory : Lock → String
lock_directory l = l.directory

pub record Disk : Type 0 where
  pub files : List File
  pub locks : List Lock

pub data CasError : Type 0 where
  changed : String → String → CasError
  lock_held : String → CasError
  io : CasError

pub record Baseline : Type 0 where
  pub sha256 : String

-- `std::fs::read` fails where there is no file.
unfoldable pub sha256_of : (String → String) → String → Disk → Result CasError String
sha256_of digest path d = elim (find_row file_path path d.files) [
  | none ↦ err io
  | some f ↦ ok (digest f.content)
]

unfoldable pub read_baseline : (String → String) → String → Disk → Result CasError Baseline
read_baseline digest path d = elim (sha256_of digest path d) [
  | err e ↦ err e
  | ok sha ↦ ok (record { sha256 = sha })
]

-- The first half of write_if_unchanged: a path that does not exist passes.
unfoldable pub check_unchanged :
    (String → String) → String → Baseline → Disk → Result CasError (Unit {0})
check_unchanged digest path base d = elim (find_row file_path path d.files) [
  | none ↦ ok tt
  | some f ↦
      if digest f.content == base.sha256
      then ok tt
      else err (changed base.sha256 (digest f.content))
]

-- The second half, `std::fs::write`.
unfoldable pub write : Bool → String → String → Disk → Disk × Result CasError (Unit {0})
write writes path content d =
    if writes
    then (
      record d {
        files = replace_row file_path (record { path = path; content = content }) d.files;
      },
      ok tt,
    )
    else (d, err io)

unfoldable pub write_if_unchanged :
    (String → String) → Bool → String → String → Baseline → Disk → Disk × Result CasError (Unit {0})
write_if_unchanged digest writes path content base d = elim (check_unchanged digest path base d) [
  | err e ↦ (d, err e)
  | ok u ↦ write writes path content d
]

abbrev pub lock_of : String → String → Lock
lock_of dir holder = record { directory = dir; holder = holder }

-- `create_new` fails where the file exists.
unfoldable pub acquire_lock : String → String → Disk → Disk × Result CasError (Unit {0})
acquire_lock dir holder d = elim (find_row lock_directory dir d.locks) [
  | none ↦ (record d { locks = replace_row lock_directory (lock_of dir holder) d.locks }, ok tt)
  | some l ↦ (d, err (lock_held l.holder))
]

unfoldable pub release_lock : String → Disk → Disk
release_lock dir d = record d { locks = delete_row lock_directory dir d.locks }
