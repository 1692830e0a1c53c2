-- ===== src/Ingest/Copy.antt =====
-- `copyFileSecure` and `copyToSnapshot` of src/skills/skill-ingestion.ts. The source that stands under a
-- path while it is copied is a value: how it opens, what `fstat` says of the handle before and
-- after, and what each `read` gives. The hooks for tests are not modelled, and `mkdir`, `fstat` and
-- `close` do not fail.
use claude_powerplant.Prelude.{
  ℕ, ◌+◌, String, ◌==◌, Bool, not, ◌&&◌, Option, none, some, List, [], ◌∷◌, ◌++◌, Dict, put, get,
  ltb, eqb, length, is_some, if◌then◌else◌,
}
use claude_powerplant.Ingest.{Gate0Limits, ValidatedFileEntry}

-- The fields of `fs.Stats` that are read from an open handle.
pub record HandleStats : Type 0 where
  pub is_file : Bool
  pub size : ℕ
  pub mtime_ms : ℕ
  pub ctime_ms : ℕ
  pub ino : ℕ
  pub dev : ℕ
  pub nlink : ℕ

-- One `read`: the bytes that it gives, with whether they can be written, or an error.
pub data Read : Type 0 where
  chunk : List ℕ → Bool → Read
  read_error : Read

-- Opening the destination exclusively, on a path that is free
pub data Creation : Type 0 where
  creates fails : Creation

pub record Handle : Type 0 where
  pub pre_stat : HandleStats
  pub creation : Creation
  pub reads : List Read
  pub syncs : Bool
  pub post_stat : HandleStats
  pub unlinks : Bool

-- What `open` gives: an error code, if it has one, or a handle.
pub data SourceFile : Type 0 where
  unopened : Option String → SourceFile
  opened : Handle → SourceFile

pub data CopyFailure : Type 0 where
  became_symlink disappeared not_a_file replaced extra_links modified : CopyFailure
  destination_exists grew too_large package_too_large miscounted io_error changed : CopyFailure
  cannot_open : Option String → CopyFailure

pub data CopyResult : Type 0 where
  copied : ℕ → CopyResult
  failed : CopyFailure → CopyResult
  threw : CopyResult

-- The variables of the loop: the counter, what has been written, and `copyError`.
pub record Copying : Type 0 where
  pub bytes_copied : ℕ
  pub written : List ℕ
  pub copy_error : Option CopyFailure

abbrev pub open_failure : Option String → CopyFailure
open_failure (some error_code) =
    if error_code == "ELOOP"
    then became_symlink
    else if error_code == "ENOENT"
    then disappeared
    else cannot_open (some error_code)
open_failure none = cannot_open none

-- The checks of the handle against the entry that the walk has passed
unfoldable pub handle_failure : ValidatedFileEntry → HandleStats → Option CopyFailure
handle_failure entry st =
    if not st.is_file
    then some not_a_file
    else if not (eqb st.ino entry.ino && eqb st.dev entry.dev)
    then some replaced
    else if ltb 1 st.nlink
    then some extra_links
    else if not (eqb st.mtime_ms entry.mtime_ms)
    then some modified
    else none

-- The budgets, before a chunk is written
unfoldable pub budget_failure : Gate0Limits → ValidatedFileEntry → ℕ → ℕ → Option CopyFailure
budget_failure l entry prior bytes =
    if ltb entry.size_bytes bytes
    then some grew
    else if ltb l.max_file_size_bytes bytes
    then some too_large
    else if ltb l.max_total_size_bytes (prior + bytes)
    then some package_too_large
    else none

-- What follows a loop that ended by itself: the exact count, and `sync`.
unfoldable pub finish_copy : ValidatedFileEntry → Bool → ℕ → List ℕ → Copying
finish_copy entry syncs bytes written = record {
  bytes_copied = bytes;
  written = written;
  copy_error =
      if not (eqb bytes entry.size_bytes)
      then some miscounted
      else if syncs
      then none
      else some io_error;
}

module _ (l : Gate0Limits) (entry : ValidatedFileEntry) (prior : ℕ) (syncs : Bool) where
  unfoldable pub copy_chunks : List Read → ℕ → List ℕ → Copying
  copy_chunks [] bytes written = finish_copy entry syncs bytes written
  copy_chunks (read_error ∷ rs) bytes written = record {
    bytes_copied = bytes;
    written = written;
    copy_error = some io_error;
  }
  copy_chunks (chunk bs writes ∷ rs) bytes written =
      let next = copy_chunks rs (bytes + length bs) (written ++ bs) in
      if eqb (length bs) 0
      then finish_copy entry syncs bytes written
      else elim (budget_failure l entry prior (bytes + length bs)) [
        | some failure ↦ record {
          bytes_copied = bytes + length bs;
          written = written;
          copy_error = some failure;
        }
        | none ↦ if writes then next else record {
          bytes_copied = bytes + length bs;
          written = written;
          copy_error = some io_error;
        }
      ]

-- The source is as it was before the copy.
unfoldable pub identity_changed : ValidatedFileEntry → HandleStats → HandleStats → Bool
identity_changed entry pre post = not (
    eqb post.size entry.size_bytes
    && eqb post.mtime_ms pre.mtime_ms
    && eqb post.ctime_ms pre.ctime_ms)

-- The destination directory: the files in it by their relative paths.
abbrev pub Snapshot : Type 0
Snapshot = Dict (List ℕ)

-- A file that was made here stays if it is good or cannot be unlinked.
unfoldable pub leave_failed : Bool → String → List ℕ → Snapshot → Snapshot
leave_failed unlinks path written dest = if unlinks then dest else put path written dest

unfoldable pub settle : ValidatedFileEntry → Handle → Copying → Snapshot → CopyResult × Snapshot
settle entry h c dest = elim c.copy_error [
  | some failure ↦ (failed failure, leave_failed h.unlinks entry.relative_path c.written dest)
  | none ↦
      if identity_changed entry h.pre_stat h.post_stat
      then (failed changed, leave_failed h.unlinks entry.relative_path c.written dest)
      else (copied entry.size_bytes, put entry.relative_path c.written dest)
]

unfoldable pub copy_file_secure :
    Gate0Limits → ℕ → ValidatedFileEntry → SourceFile → Snapshot → CopyResult × Snapshot
copy_file_secure l prior entry (unopened error_code) dest = (failed (open_failure error_code), dest)
copy_file_secure l prior entry (opened h) dest = elim (handle_failure entry h.pre_stat) [
  | some failure ↦ (failed failure, dest)
  | none ↦
      if is_some (get dest entry.relative_path)
      then (failed destination_exists, dest)
      else elim h.creation [
        | fails ↦ (threw, dest)
        | creates ↦ settle entry h (copy_chunks l entry prior h.syncs h.reads 0 []) dest
      ]
]

-- `copyToSnapshot`; `source` is what stands under the path of each entry when it is copied.
module _ (l : Gate0Limits) (source : ValidatedFileEntry → SourceFile) where
  unfoldable pub copy_from : List ValidatedFileEntry → ℕ → Snapshot → CopyResult × Snapshot
  copy_from [] bytes dest = (copied bytes, dest)
  copy_from (file ∷ files) bytes dest =
      let (result, dest') = copy_file_secure l bytes file (source file) dest in
      elim result [
        | copied n ↦ copy_from files (bytes + n) dest'
        | failed failure ↦ (failed failure, dest')
        | threw ↦ (threw, dest')
      ]

  unfoldable pub copy_to_snapshot : List ValidatedFileEntry → CopyResult × Snapshot
  copy_to_snapshot files = copy_from files 0 []
