-- ===== src/Services/Cas/Writes.antt =====
-- What the guard of a write promises.
use anti_subagent.Prelude.{
  String, Bool, true, false, ◌&&◌, ◌≡◌, refl, Option, none, some, arith, is_ok, ok, ◌==◌, eq_refl,
  map_option, Option-cases, inl, inr, if◌then◌else◌,
}
use anti_subagent.Prelude.Table.{find_row, find-replace}
use anti_subagent.Services.Cas.{
  File, file_path, Disk, Baseline, check_unchanged, write, write_if_unchanged,
}

-- What a path holds.
abbrev pub content_at : String → Disk → Option String
content_at path d = map_option (λ (f : File). f.content) (find_row file_path path d.files)

-- No file, or one with the digest of the baseline.
abbrev pub is_unchanged : (String → String) → Baseline → Option String → Bool
is_unchanged digest base none = true
is_unchanged digest base (some c) = digest c == base.sha256

content-write :
    (path content j : String) (d : Disk)
    → content_at j (write true path content d).0
      ≡ (if path == j then some content else content_at j d)
unfolding write
content-write path content j d =
    ground (arith, find-replace file_path j (record { path = path; content = content }) d.files)

-- A guarded write succeeds exactly where the path has no file or one with the digest of the baseline, and
-- the file system takes the write; then the path holds the new content, and otherwise what it held. No other
-- path changes.
pub write_if_unchanged_lem :
    (digest : String → String) (writes : Bool) (path content : String) (base : Baseline) (d : Disk)
    (j : String)
    → let done = is_unchanged digest base (content_at path d) && writes in
      let r = write_if_unchanged digest writes path content base d in
      (is_ok r.1 ≡ done)
      × (content_at j r.0 ≡ (if done && path == j then some content else content_at j d))
unfolding write_if_unchanged check_unchanged write
write_if_unchanged_lem digest writes path content base d j =
    let file : File = record { path = path; content = content } in
    let found = find-replace file_path j file d.files in
    elim (Option-cases (find_row file_path path d.files)) [
      | inl e ↦ ground (arith, e, found)
      | inr (f, e) ↦ ground (arith, e, found)
    ]

passes :
    (digest : String → String) (path : String) (base : Baseline) (d : Disk)
    → is_unchanged digest base (content_at path d) ≡ true
    → check_unchanged digest path base d ≡ ok tt
unfolding check_unchanged
passes digest path base d h = elim (Option-cases (find_row file_path path d.files)) [
  | inl e ↦ ground (arith, e)
  | inr (f, e) ↦ ground (arith, e)
]

writes_ok : (path content : String) (d : Disk) → (write true path content d).1 ≡ ok tt
unfolding write
writes_ok path content d = refl

-- Two writers that check one after the other before either writes both succeed, and the path holds the
-- content of the second: the first write is lost. The file system takes both writes.
pub race_loses_write :
    (digest : String → String) (path first second : String) (base : Baseline) (d : Disk)
    → is_unchanged digest base (content_at path d) ≡ true
    → let d₁ = (write true path first d).0 in
      let d₂ = (write true path second d₁).0 in
      (check_unchanged digest path base d ≡ ok tt)
      × ((write true path first d).1 ≡ ok tt)
      × ((write true path second d₁).1 ≡ ok tt)
      × (content_at path d₂ ≡ some second)
race_loses_write digest path first second base d h =
    let d₁ = (write true path first d).0 in
    (
      passes digest path base d h,
      writes_ok path first d,
      writes_ok path second d₁,
      ground (arith, content-write path second path d₁, eq_refl path),
    )

-- A second guarded write from the same baseline is refused after a first that succeeded, where the
-- digest of the first content is not that of the baseline, and the path keeps the first content.
pub second_write_refused :
    (digest : String → String) (path first second : String) (base : Baseline) (d : Disk)
    → is_unchanged digest base (content_at path d) ≡ true
    → (digest first == base.sha256) ≡ false
    → let d₁ = (write_if_unchanged digest true path first base d).0 in
      let r = write_if_unchanged digest true path second base d₁ in
      (is_ok r.1 ≡ false) × (content_at path r.0 ≡ some first)
second_write_refused digest path first second base d h n =
    let d₁ = (write_if_unchanged digest true path first base d).0 in
    ground (
      arith,
      h,
      n,
      eq_refl path,
      write_if_unchanged_lem digest true path first base d path,
      write_if_unchanged_lem digest true path second base d₁ path,
    )
