-- ===== src/Ingest.antt =====
-- The import of skill packages: src/skills/skill-ingestion.ts and src/skills/candidate-store.ts. This
-- file has the data of Gate 0: the limits, the source directory as `readdir` and `lstat` show it, and
-- the entries that the walk passes on.
pub mod Walk
pub mod Limits
pub mod Acceptance
pub mod Copy
pub mod Budget
pub mod Snapshots
pub mod Packages
pub mod Steady
pub mod Schema
pub mod Import
pub mod Untrusted
pub mod Outcome
pub mod Progress
mod Tests
use claude_powerplant.Prelude.{ℕ, ◌*◌, String, List, []}

pub record Gate0Limits : Type 0 where
  pub max_file_count : ℕ
  pub max_file_size_bytes : ℕ
  pub max_total_size_bytes : ℕ
  pub max_depth : ℕ

abbrev pub default_gate0_limits : Gate0Limits
default_gate0_limits = record {
  max_file_count = 100;
  max_file_size_bytes = 512 * 1024;
  max_total_size_bytes = 5 * 1024 * 1024;
  max_depth = 5;
}

-- The fields of `fs.Stats` of a regular file that are read before the copy.
pub record FileStats : Type 0 where
  pub size : ℕ
  pub mtime_ms : ℕ
  pub ino : ℕ
  pub dev : ℕ
  pub nlink : ℕ

-- A directory that cannot be read, or its entries in the order of `readdir`; each entry as `lstat`
-- shows it, if it can be called at all.
mutual
  pub data Directory : Type 0 where
    locked : Directory
    listed : Dirents → Directory

  pub data Dirents : Type 0 where
    no_more : Dirents
    dirent : String → Entry → Dirents → Dirents

  pub data Entry : Type 0 where
    no_stat symlink special : Entry
    subdirectory : Directory → Entry
    regular : FileStats → Entry

-- The absolute path is the relative one below the source root.
pub record ValidatedFileEntry : Type 0 where
  pub relative_path : String
  pub size_bytes : ℕ
  pub mtime_ms : ℕ
  pub ino : ℕ
  pub dev : ℕ

-- The reason of a rejection, with the values that its text shows
pub data Rejection : Type 0 where
  depth_exceeded reserved_name too_many_files package_too_large : Rejection
  directory_unreadable path_escape stat_failed symlink_found unsupported_type : String → Rejection
  hardlinked file_too_large : String → ℕ → Rejection

-- The variables of the walk
pub record Walked : Type 0 where
  pub files : List ValidatedFileEntry
  pub total_size_bytes : ℕ

pub data WalkResult : Type 0 where
  rejection : Rejection → WalkResult
  acceptance : Walked → WalkResult

abbrev pub powerplant_meta_filename : String
powerplant_meta_filename = ".powerplant-meta.json"
