-- ===== src/Skills/Hash.antt =====
-- `computeSkillContentHash` of src/skills/skill-lifecycle.ts.
use Prim.Native.String.{◌++◌ as append}
use mathlib.Core.Option
use claude_powerplant.Prelude.{
  String, ◌==◌, eq_iff, ◌≡◌, refl, true, Option, none, some, List, [], ◌∷◌, ◌++◌, Dict, get, keys,
  map, is_some, if◌then◌else◌, Bool-cases, inl, inr, arith,
}
use claude_powerplant.Text.{sort_texts}
use claude_powerplant.Skills.{Node, file, folder, Entries, nothing, entry, get_node, put_node}

pub record HashEntry : Type 0 where
  pub rel_path : String
  pub file_hash : String

-- `path.relative` of a name in a directory; `none` is the snapshot itself.
unfoldable pub relative : Option String → String → String
relative none name = name
relative (some dir) name = append dir (append "/" name)

-- The lists of the names, taken in sorted order.
pick : Dict (List HashEntry) → List String → List HashEntry
pick m [] = []
pick m (name ∷ names) = Option.get_or (get m name) [] ++ pick m names

unfoldable pub in_order : Dict (List HashEntry) → List HashEntry
unfolding pick
in_order m = pick m (sort_texts (keys m))

-- `walkSync`: what it appends for each name of a directory, and for one node.
unfoldable mutual
  pub walk_entries : (String → String) → Option String → Entries → Dict (List HashEntry)
  walk_entries sha dir nothing = []
  walk_entries sha dir (entry name n es) =
      let rel = relative dir name in
      let found = walk_node sha rel n in
      (name, (if rel == "manifest.json" then [] else found)) ∷ walk_entries sha dir es

  pub walk_node : (String → String) → String → Node → List HashEntry
  walk_node sha rel (file content) = record { rel_path = rel; file_hash = sha content } ∷ []
  walk_node sha rel (folder es) = in_order (walk_entries sha (some rel) es)

-- `entries.map(…).join('\n')`
unfoldable pub join_lines : List String → String
join_lines [] = ""
join_lines (l ∷ []) = l
join_lines (l ∷ k ∷ ls) = append l (append "\n" (join_lines (k ∷ ls)))

-- What the digest is taken of.
unfoldable pub hash_lines : (String → String) → Entries → List String
hash_lines sha root =
    map (λ e. append e.rel_path (append ":" e.file_hash)) (in_order (walk_entries sha none root))

unfoldable pub compute_skill_content_hash : (String → String) → Entries → String
unfolding hash_lines
compute_skill_content_hash sha root = sha (join_lines (hash_lines sha root))

walk_entries-put :
    (sha : String → String) (n : Node) (es : Entries)
    → is_some (get_node es "manifest.json") ≡ true
    → walk_entries sha none (put_node "manifest.json" n es) ≡ walk_entries sha none es
unfolding walk_entries relative put_node get_node
walk_entries-put sha n nothing h = cc
walk_entries-put sha n (entry j m es) h = elim (Bool-cases (j == "manifest.json")) [
  | inl same ↦ ground (arith, same, eq_iff j "manifest.json")
  | inr other ↦ ground (arith, other, walk_entries-put sha n es)
]

-- Writing `manifest.json` at the root of a snapshot leaves its content hash as it was.
pub hash-put_manifest :
    (sha : String → String) (n : Node) (root : Entries)
    → is_some (get_node root "manifest.json") ≡ true
    → compute_skill_content_hash sha (put_node "manifest.json" n root)
      ≡ compute_skill_content_hash sha root
unfolding compute_skill_content_hash
hash-put_manifest sha n root h = rw (walk_entries-put sha n root h) refl
