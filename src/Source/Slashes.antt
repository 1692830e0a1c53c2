-- ===== src/Source/Slashes.antt =====
-- The walks of src/projects over a tree whose paths have no backslash.
use Prim.Native.Char.{code}
use claude_powerplant.Prelude.{
  ◌≡◌, refl, ap, ◌∙◌, String, Bool, false, ◌||◌, Option, none, some, [], ◌∷◌, ◌++◌, Dict, eqb, All,
  arith,
}
use claude_powerplant.Source.{
  Item, regular, link, folder, Items, nothing, item, child_path, slashed, walk_files, walk_item,
}

-- Has a path a backslash in it?
unfoldable pub has_backslash : String → Bool
has_backslash String.[] = false
has_backslash (String.◌∷◌ c s) = eqb (code c) 92 || has_backslash s

-- The files of a tree that are no links, under the paths that they have on the disk.
unfoldable mutual
  pub files_of : Option String → Items → Dict String
  files_of dir nothing = []
  files_of dir (item name i is) = files_under (child_path dir name) i ++ files_of dir is

  pub files_under : String → Item → Dict String
  files_under path (regular c) = (path, c) ∷ []
  files_under path (link target) = []
  files_under path (folder is) = files_of (some path) is

-- No file of a tree has a backslash in its path.
abbrev pub Plain : Items → Type 0
Plain tree = All (λ f. has_backslash f.0 ≡ false) (files_of none tree)

slashed-plain : (s : String) → has_backslash s ≡ false → slashed s ≡ s
unfolding slashed has_backslash
slashed-plain String.[] h = refl
slashed-plain (String.◌∷◌ c s) h = ground (arith, slashed-plain s)

slash_all : Dict String → Dict String
slash_all [] = []
slash_all ((path, c) ∷ fs) = (slashed path, c) ∷ slash_all fs

slash_all-concat : (fs gs : Dict String) → slash_all (fs ++ gs) ≡ slash_all fs ++ slash_all gs
unfolding slash_all
slash_all-concat [] gs = refl
slash_all-concat ((path, c) ∷ fs) gs = ap (λ t. (slashed path, c) ∷ t) (slash_all-concat fs gs)

slash_all-plain : (fs : Dict String) → All (λ f. has_backslash f.0 ≡ false) fs → slash_all fs ≡ fs
unfolding slash_all
slash_all-plain [] p = refl
slash_all-plain ((path, c) ∷ fs) p = cc (slashed-plain path p.0, slash_all-plain fs p.1)

mutual
  unfolding walk_files files_of slash_all

  walk_files-slash :
      (dir : Option String) (is : Items) → walk_files dir is ≡ slash_all (files_of dir is)
  walk_files-slash dir nothing = refl
  walk_files-slash dir (item name i is) = cc (
    walk_item-slash (child_path dir name) i,
    walk_files-slash dir is,
    slash_all-concat (files_under (child_path dir name) i) (files_of dir is),
  )

  walk_item-slash : (path : String) (i : Item) → walk_item path i ≡ slash_all (files_under path i)
  walk_item-slash path (regular c) = refl
  walk_item-slash path (link target) = refl
  walk_item-slash path (folder is) = walk_files-slash (some path) is

-- Over such a tree the walks give each file under the path that it has.
pub walk_files-plain : (tree : Items) → Plain tree → walk_files none tree ≡ files_of none tree
walk_files-plain tree p = walk_files-slash none tree ∙ slash_all-plain (files_of none tree) p
