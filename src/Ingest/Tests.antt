-- ===== src/Ingest/Tests.antt =====
-- The import on a package of two files, and its properties at inputs that meet their hypotheses.
use claude_powerplant.Prelude.{
  ℕ, ◌*◌, ◌≤◌, ◌≡◌, refl, ◌↔◌, String, Bool, eqb, if◌then◌else◌, true, false, none, some, List, [],
  ◌∷◌, length, arith, All, has, Distinct, get,
}
use claude_powerplant.Text.{units, is_line_end}
use claude_powerplant.Source.{child_path}
use claude_powerplant.Ingest.{
  default_gate0_limits, FileStats, Directory, listed, no_more, dirent, subdirectory, regular,
  symlink, ValidatedFileEntry, rejection, acceptance, symlink_found,
}
use claude_powerplant.Ingest.Walk.{validated, walk, walk_source_directory}
use claude_powerplant.Ingest.Limits.{sum_sizes, files_in, IsClean}
use claude_powerplant.Ingest.Acceptance.{accepted_iff}
use claude_powerplant.Ingest.Copy.{
  HandleStats, chunk, Handle, creates, SourceFile, opened, copied, copy_to_snapshot,
}
use claude_powerplant.Ingest.Snapshots.{Unchanged, bytes_in}
use claude_powerplant.Ingest.Packages.{taken, snapshot_faithful}
use claude_powerplant.Ingest.Steady.{Steady, paths}
use claude_powerplant.Ingest.Schema.{
  CandidateManifest, invalid_json, Reader, gate1_success, is_skill_name, find, frontmatter,
  find_at_line, field_value, inline_tags, heading_text, extract_frontmatter_field,
  extract_frontmatter_tags, skeleton, validate_content, validate_candidate_schema,
}
use claude_powerplant.Ingest.Import.{root, ImportEnv, ImportStore, ingested, ingest_skill_package}
use claude_powerplant.Ingest.Outcome.{Leaves, ingest-Leaves}
use claude_powerplant.Ingest.Progress.{Steady-ingested}

abbrev stats : ℕ → FileStats
stats n = record { size = n; mtime_ms = 5; ino = n; dev = 1; nlink = 1 }

abbrev tree : Directory
tree = listed (
    dirent "SKILL.md" (regular (stats 7))
      (dirent "docs" (subdirectory (listed (dirent "a.md" (regular (stats 2)) no_more))) no_more))

abbrev skill_md : List ℕ
skill_md = b'#' ∷ b' ' ∷ b'H' ∷ b'e' ∷ b'l' ∷ b'l' ∷ b'o' ∷ []

abbrev a_md : List ℕ
a_md = b'o' ∷ b'k' ∷ []

abbrev inside : String → Bool
inside path = false

-- A handle on a file that stays as it is
abbrev still : ValidatedFileEntry → List ℕ → Handle
still f bytes = record {
  pre_stat = seen;
  creation = creates;
  reads = chunk bytes true ∷ [];
  syncs = true;
  post_stat = seen;
  unlinks = true;
}
  where
    seen : HandleStats
    seen = record {
      is_file = true;
      size = f.size_bytes;
      mtime_ms = f.mtime_ms;
      ctime_ms = 5;
      ino = f.ino;
      dev = f.dev;
      nlink = 1;
    }

abbrev quiet : ValidatedFileEntry → SourceFile
quiet f = opened (still f (if eqb f.size_bytes 7 then skill_md else a_md))

abbrev reader : Reader
reader = record { decode = λ bytes. bytes; parse = λ text. invalid_json }

abbrev env : ImportEnv
env = record {
  source_path = root tree;
  escapes = inside;
  source = quiet;
  candidate_id = "c1";
  now = [];
  reader = reader;
  removes = true;
  moves = true;
}

abbrev empty_store : ImportStore
empty_store = record { candidates = []; quarantine = []; audit = [] }

abbrev made : CandidateManifest
made = record {
  id = "c1";
  name = units "c1";
  version = 1;
  description = units "Hello";
  tags = [];
  created_at = [];
  promoted_at = none;
  source_run_id = none;
  sha256 = none;
  evaluation_passed = false;
  evaluation_at = none;
}

link_refused :
    walk_source_directory inside default_gate0_limits (listed (dirent "x" symlink no_more))
    ≡ rejection (symlink_found "x")
unfolding walk_source_directory walk child_path
link_refused = refl

kebab_case : is_skill_name (units "my-skill-2") ≡ true
unfolding is_skill_name units
kebab_case = refl

no_double_dash : is_skill_name (units "my--skill") ≡ false
unfolding is_skill_name units
no_double_dash = refl

name_field :
    extract_frontmatter_field
      (units "---\nname:  my-skill \ntags: [a, b]\n---\nText")
      (units "name")
    ≡ some (units "my-skill")
unfolding extract_frontmatter_field frontmatter find_at_line field_value
name_field = refl

tag_field :
    extract_frontmatter_tags (units "---\ntags:\n  - a\n  - b c\n---\n")
    ≡ units "a" ∷ units "b c" ∷ []
unfolding extract_frontmatter_tags frontmatter find_at_line inline_tags is_line_end
tag_field = refl

gate1_passes :
    validate_candidate_schema reader [] (taken quiet (files_in none tree)) "c1" (units "c1")
    ≡ gate1_success made
unfolding validate_candidate_schema find get files_in validated child_path validate_content units
    skeleton is_skill_name extract_frontmatter_field frontmatter heading_text
    extract_frontmatter_tags
gate1_passes = refl

accepted_iff_example :
    (walk_source_directory inside default_gate0_limits tree
      ≡ acceptance (record { files = files_in none tree; total_size_bytes = 9 }))
    ↔ (IsClean inside default_gate0_limits 0 none tree
        × (length (files_in none tree) ≤ 100)
        × (sum_sizes (files_in none tree) ≤ 5 * 1024 * 1024)
        × (files_in none tree ≡ files_in none tree)
        × (9 ≡ sum_sizes (files_in none tree)))
accepted_iff_example =
    accepted_iff inside default_gate0_limits tree
      (record { files = files_in none tree; total_size_bytes = 9 })

snapshot_faithful_example :
    (bytes_in (copy_to_snapshot default_gate0_limits quiet (files_in none tree)).1
      ≤ 5 * 1024 * 1024)
    × ((n : ℕ)
        → (copy_to_snapshot default_gate0_limits quiet (files_in none tree)).0 ≡ copied n
        → All (λ f. Unchanged f (quiet f)) (files_in none tree)
          × (n ≡ sum_sizes (files_in none tree))
          × ((copy_to_snapshot default_gate0_limits quiet (files_in none tree)).1
              ≡ taken quiet (files_in none tree)))
snapshot_faithful_example = snapshot_faithful default_gate0_limits quiet (files_in none tree)

ingest-Leaves_example :
    Leaves env default_gate0_limits empty_store
      (ingest_skill_package env default_gate0_limits empty_store).0
      (ingest_skill_package env default_gate0_limits empty_store).1
ingest-Leaves_example =
    ingest-Leaves env default_gate0_limits empty_store (λ bytes m e. absurd (ground (arith, e)))

tree_clean : IsClean inside default_gate0_limits 0 none tree
unfolding IsClean child_path
tree_clean = ground arith

tree-Steady : All (λ f. Steady f (quiet f)) (files_in none tree)
unfolding files_in validated
tree-Steady = ((_, refl, ground arith), ((_, refl, ground arith), tt))

tree_apart : Distinct (paths (files_in none tree))
unfolding files_in validated has child_path
tree_apart = ground arith

tree_bounds :
    (length (files_in none tree) ≤ 100) × (sum_sizes (files_in none tree) ≤ 5 * 1024 * 1024)
unfolding files_in validated
tree_bounds = omega arith

Steady-ingested_example :
    (ingest_skill_package env default_gate0_limits empty_store).0 ≡ ingested "c1" (units "c1")
Steady-ingested_example =
    Steady-ingested env default_gate0_limits empty_store tree made refl tree_clean tree_bounds.0
      tree_bounds.1 tree-Steady tree_apart gate1_passes
