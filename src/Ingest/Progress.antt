-- ===== src/Ingest/Progress.antt =====
-- An import of src/skills/skill-ingestion.ts goes through on a package that is in order.
use claude_powerplant.Prelude.{
  ℕ, ◌+◌, ◌≤◌, ◌≡◌, refl, String, Option, none, some, List, Bool, Distinct, length, arith, All,
  All-concat,
}
use claude_powerplant.Text.{units}
use claude_powerplant.Source.{child_path}
use claude_powerplant.Ingest.{
  Gate0Limits, Directory, locked, listed, Dirents, no_more, dirent, Entry, no_stat, symlink,
  special, subdirectory, regular, ValidatedFileEntry,
}
use claude_powerplant.Ingest.Walk.{validated}
use claude_powerplant.Ingest.Limits.{
  sum_sizes, files_in, files_of, files_at, IsClean, AreClean, IsCleanEntry,
}
use claude_powerplant.Ingest.Acceptance.{accepted_iff}
use claude_powerplant.Ingest.Packages.{taken, snapshot_faithful}
use claude_powerplant.Ingest.Steady.{Steady, paths, copy_to_snapshot-Steady}
use claude_powerplant.Ingest.Schema.{CandidateManifest, gate1_success, validate_candidate_schema}
use claude_powerplant.Ingest.Import.{
  root, ImportStore, ingested, ImportEnv, gate1, copy_package, ingest_skill_package,
}

-- No file is larger than a file may be.
abbrev Small : Gate0Limits → List ValidatedFileEntry → Type 0
Small l fs = All (λ f. f.size_bytes ≤ l.max_file_size_bytes) fs

module _ (escapes : String → Bool) (l : Gate0Limits) where
  mutual
    unfolding files_in files_of files_at IsClean AreClean IsCleanEntry validated

    clean-Small :
        (depth : ℕ) (dir : Option String) (d : Directory)
        → IsClean escapes l depth dir d
        → Small l (files_in dir d)
    clean-Small depth dir locked clean = tt
    clean-Small depth dir (listed es) clean = entries-Small depth dir es clean.1

    entries-Small :
        (depth : ℕ) (dir : Option String) (es : Dirents)
        → AreClean escapes l depth dir es
        → Small l (files_of dir es)
    entries-Small depth dir no_more clean = tt
    entries-Small depth dir (dirent name e es) clean =
        All-concat (λ (f : ValidatedFileEntry). f.size_bytes ≤ l.max_file_size_bytes)
          (files_at (child_path dir name) e) (files_of dir es)
          (entry-Small depth (child_path dir name) e clean.2) (entries-Small depth dir es clean.3)

    entry-Small :
        (depth : ℕ) (path : String) (e : Entry)
        → IsCleanEntry escapes l depth path e
        → Small l (files_at path e)
    entry-Small depth path no_stat clean = tt
    entry-Small depth path symlink clean = tt
    entry-Small depth path special clean = tt
    entry-Small depth path (subdirectory d) clean = clean-Small (depth + 1) (some path) d clean
    entry-Small depth path (regular st) clean = (clean.1, tt)

-- An import succeeds, with the name of the manifest, if the source path is the root of a clean tree
-- within the limits, whose files have distinct paths and stay as they are, on a system that reads and
-- writes, and if the copy of these files passes Gate 1.
pub Steady-ingested :
    (env : ImportEnv) (l : Gate0Limits) (s : ImportStore) (d : Directory) (m : CandidateManifest)
    → env.source_path ≡ root d
    → IsClean env.escapes l 0 none d
    → length (files_in none d) ≤ l.max_file_count
    → sum_sizes (files_in none d) ≤ l.max_total_size_bytes
    → All (λ f. Steady f (env.source f)) (files_in none d)
    → Distinct (paths (files_in none d))
    → validate_candidate_schema env.reader env.now
        (taken env.source (files_in none d))
        env.candidate_id
        (units env.candidate_id)
      ≡ gate1_success m
    → (ingest_skill_package env l s).0 ≡ ingested env.candidate_id m.name
unfolding ingest_skill_package copy_package gate1
Steady-ingested env l s d m rooted clean few small steady apart passes =
    let walked =
      (accepted_iff env.escapes l d
          (record { files = files_in none d; total_size_bytes = sum_sizes (files_in none d) })).1
        (clean, few, small, refl, refl) in
    let done =
      copy_to_snapshot-Steady l env.source (files_in none d) steady
        (clean-Small env.escapes l 0 none d clean) small apart in
    let snap =
      ((snapshot_faithful l env.source (files_in none d)).1 (sum_sizes (files_in none d)) done).2 in
    ground (arith, rooted, walked, done, snap, passes)
