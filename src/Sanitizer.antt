-- ===== src/Sanitizer.antt =====
-- The sanitizer of src/projects/build-sanitized-workspace.ts: the walk over the source project and the
-- copy of what the policy includes. A rejection leaves the files that were copied before it.
pub mod Copies
mod Tests
use Prim.Native.String.{◌++◌ as append}
use claude_powerplant.Prelude.{
  String, Bool, true, false, not, ◌&&◌, ◌||◌, Option, none, some, List, [], ◌∷◌, ◌++◌, Dict, any,
  eqb, ℕ, if◌then◌else◌,
}
use claude_powerplant.Text.{units, includes}
use claude_powerplant.Glob.{matches_glob}
use claude_powerplant.Source.{
  Item, regular, link, folder, Items, nothing, item, child_path, slashed, SourceFile,
}

-- The part of `ProjectContract` that the sanitizer reads.
pub record SanitizePolicy : Type 0 where
  pub include_paths : List String
  pub exclude_paths : List String

pub data Rejection : Type 0 where
  symlink absolute traversal escape : String → Rejection

unfoldable pub is_included : SanitizePolicy → String → Bool
is_included policy path = any (matches_glob path) policy.include_paths

unfoldable pub is_excluded_path : SanitizePolicy → String → Bool
is_excluded_path policy path = any (matches_glob path) policy.exclude_paths

unfoldable pub is_directory_excluded : SanitizePolicy → String → Bool
is_directory_excluded policy dir = any (matches_glob (append dir "/")) policy.exclude_paths

-- What a walk gives: the files it found, or the link it rejects.
pub data Walk : Type 0 where
  found : Dict String → Walk
  rejected : Rejection → Walk

-- The walk of one entry, then that of those after it.
unfoldable pub then_walk : Walk → Walk → Walk
then_walk (rejected r) later = rejected r
then_walk (found fs) (rejected r) = rejected r
then_walk (found fs) (found gs) = found (fs ++ gs)

-- `walkDir`; the paths that are tested and found have slashes for backslashes.
unfoldable mutual
  pub walk_dir : SanitizePolicy → Option String → Items → Walk
  walk_dir policy dir nothing = found []
  walk_dir policy dir (item name i is) =
      then_walk (walk_entry policy (child_path dir name) i) (walk_dir policy dir is)

  pub walk_entry : SanitizePolicy → String → Item → Walk
  walk_entry policy rel (regular c) = found ((slashed rel, c) ∷ [])
  walk_entry policy rel (link target) =
      if is_included policy (slashed rel) && not (is_excluded_path policy (slashed rel))
      then rejected (symlink (slashed rel))
      else found []
  walk_entry policy rel (folder is) =
      let inner = walk_dir policy (some rel) is in
      if is_directory_excluded policy (slashed rel) then found [] else inner

-- `path.isAbsolute` on POSIX
unfoldable pub is_absolute : List ℕ → Bool
is_absolute [] = false
is_absolute (c ∷ s) = eqb c b'/'

-- `assertSafePath`; `outside` says whether node's `path.resolve` leads out of the source project.
unfoldable pub unsafe_path : (String → Bool) → String → Option Rejection
unsafe_path outside path =
    if is_absolute (units path)
    then some (absolute path)
    else if includes (units path) (b'.' ∷ b'.' ∷ [])
    then some (traversal path)
    else if outside path
    then some (escape path)
    else none

-- The copies that were made, their manifest, and the error that ended the copying, if any.
pub record Copied : Type 0 where
  pub copies : Dict String
  pub manifest : List SourceFile
  pub error : Option Rejection

unfoldable pub copy_files :
    (String → String) → (String → Bool) → SanitizePolicy → Dict String → Copied
copy_files sha outside policy [] = record { copies = []; manifest = []; error = none }
copy_files sha outside policy ((rel, c) ∷ fs) =
    let later = copy_files sha outside policy fs in
    if not (is_included policy rel)
    then later
    else if is_excluded_path policy rel
    then later
    else elim (unsafe_path outside rel) [
      | some r ↦ record { copies = []; manifest = []; error = some r }
      | none ↦ record {
        copies = (rel, c) ∷ later.copies;
        manifest = record { relative_path = rel; sha256 = sha c } ∷ later.manifest;
        error = later.error;
      }
    ]

-- `buildSanitizedWorkspace` on a source project that exists.
unfoldable pub build_sanitized_workspace :
    (String → String) → (String → Bool) → SanitizePolicy → Items → Copied
build_sanitized_workspace sha outside policy tree = elim (walk_dir policy none tree) [
  | rejected r ↦ record { copies = []; manifest = []; error = some r }
  | found fs ↦ copy_files sha outside policy fs
]
