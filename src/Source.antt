-- ===== src/Source.antt =====
-- The watch over the source project: `captureSourceManifest` of src/projects/build-pilot-snapshot.ts and
-- src/projects/verify-source-unchanged.ts. Paths are POSIX paths, where a backslash may stand in a name;
-- a path is looked up among the nodes of the tree: a directory behind a link has none.
pub mod Slashes
pub mod Watch
pub mod Capture
mod Tests
use Prim.Native.Char.{code, Char}
use Prim.Native.String.{◌++◌ as append}
use claude_powerplant.Prelude.{
  String, ◌==◌, Bool, true, false, not, ◌&&◌, Option, none, some, List, [], ◌∷◌, ◌++◌, Dict, get,
  any, keep, length, eqb, has, keys, map, if◌then◌else◌,
}
use claude_powerplant.Glob.{matches_glob}

-- What stands under a name: a file with its content, a link with the content that it leads to, if
-- any, or a directory.
mutual
  pub data Item : Type 0 where
    regular : String → Item
    link : Option String → Item
    folder : Items → Item

  pub data Items : Type 0 where
    nothing : Items
    item : String → Item → Items → Items

-- A node of the tree, seen from its path.
pub data Leaf : Type 0 where
  content : String → Leaf
  broken directory : Leaf

-- `path.relative`; `none` is the project itself.
unfoldable pub child_path : Option String → String → String
child_path none name = name
child_path (some dir) name = append dir (append "/" name)

slash_for : Char → Char
slash_for c = if eqb (code c) 92 then "/" else c

-- `path.replace(/\\/g, '/')`; the code of the backslash is 92.
unfoldable pub slashed : String → String
unfolding slash_for
slashed String.[] = String.[]
slashed (String.◌∷◌ c s) = String.◌∷◌ (slash_for c) (slashed s)

-- `walkFiles`, `walkAllRelative`: the files that are no links, with their contents, each under its
-- path with slashes for backslashes.
unfoldable mutual
  pub walk_files : Option String → Items → Dict String
  walk_files dir nothing = []
  walk_files dir (item name i is) = walk_item (child_path dir name) i ++ walk_files dir is

  pub walk_item : String → Item → Dict String
  walk_item rel (regular c) = (slashed rel, c) ∷ []
  walk_item rel (link target) = []
  walk_item rel (folder is) = walk_files (some rel) is

unfoldable pub link_leaf : Option String → Leaf
link_leaf none = broken
link_leaf (some c) = content c

-- Every node under its path.
unfoldable mutual
  pub leaves : Option String → Items → Dict Leaf
  leaves dir nothing = []
  leaves dir (item name i is) = item_leaves (child_path dir name) i ++ leaves dir is

  pub item_leaves : String → Item → Dict Leaf
  item_leaves rel (regular c) = (rel, content c) ∷ []
  item_leaves rel (link target) = (rel, link_leaf target) ∷ []
  item_leaves rel (folder is) = (rel, directory) ∷ leaves (some rel) is

pub record SourceFile : Type 0 where
  pub relative_path : String
  pub sha256 : String

pub record SourceManifest : Type 0 where
  pub exclude_paths : List String
  pub files : List SourceFile

unfoldable pub is_excluded : List String → String → Bool
is_excluded patterns path = any (matches_glob path) patterns

unfoldable pub hash_files : (String → String) → List String → Dict String → List SourceFile
hash_files sha patterns [] = []
hash_files sha patterns ((rel, c) ∷ m) =
    let rest = hash_files sha patterns m in
    if is_excluded patterns rel then rest else record { relative_path = rel; sha256 = sha c } ∷ rest

unfoldable pub capture_source_manifest : (String → String) → List String → Items → SourceManifest
capture_source_manifest sha patterns tree = record {
  exclude_paths = patterns;
  files = hash_files sha patterns (walk_files none tree);
}

pub record SourceVerificationResult : Type 0 where
  pub source_unmodified : Bool
  pub changed_files : List String
  pub missing_files : List String
  pub new_files : List String

-- How one recorded file compares; `unreadable` stands for the error of `readFileSync` on a directory.
pub data Comparison : Type 0 where
  same changed missing unreadable : Comparison

unfoldable pub compare_file : (String → String) → Dict Leaf → SourceFile → Comparison
compare_file sha nodes f = elim (get nodes f.relative_path) [
  | none ↦ missing
  | some leaf ↦ elim leaf [
    | content c ↦ if sha c == f.sha256 then same else changed
    | broken ↦ missing
    | directory ↦ unreadable
  ]
]

pub record Findings : Type 0 where
  pub changed_files : List String
  pub missing_files : List String

-- The loop over the recorded files; `none` where an error leaves the function.
unfoldable pub compare_files : (String → String) → Dict Leaf → List SourceFile → Option Findings
compare_files sha nodes [] = some (record { changed_files = []; missing_files = [] })
compare_files sha nodes (f ∷ fs) =
    let later = compare_files sha nodes fs in
    elim (compare_file sha nodes f) [
      | unreadable ↦ none
      | same ↦ later
      | changed ↦ elim later [
        | none ↦ none
        | some r ↦ some (record r { changed_files = f.relative_path ∷ r.changed_files })
      ]
      | missing ↦ elim later [
        | none ↦ none
        | some r ↦ some (record r { missing_files = f.relative_path ∷ r.missing_files })
      ]
    ]

unfoldable pub recorded_paths : List SourceFile → List String
recorded_paths fs = map (λ f. f.relative_path) fs

unfoldable pub new_paths : SourceManifest → Items → List String
new_paths manifest tree =
    keep (λ p. not (has (recorded_paths manifest.files) p))
      (keep (λ p. not (is_excluded manifest.exclude_paths p)) (keys (walk_files none tree)))

unfoldable pub verify_source_unchanged :
    (String → String) → SourceManifest → Items → Option SourceVerificationResult
verify_source_unchanged sha manifest tree =
    elim (compare_files sha (leaves none tree) manifest.files) [
      | none ↦ none
      | some r ↦
          let added = new_paths manifest tree in
          some (record {
            source_unmodified =
                eqb (length r.changed_files) 0
                && eqb (length r.missing_files) 0
                && eqb (length added) 0;
            changed_files = r.changed_files;
            missing_files = r.missing_files;
            new_files = added;
          })
    ]
