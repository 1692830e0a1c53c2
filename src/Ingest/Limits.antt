-- ===== src/Ingest/Limits.antt =====
-- What Gate 0 of src/skills/skill-ingestion.ts lets through: the walk against a description of the
-- source tree that knows nothing of its order.
use mathlib.Core.List.{append_assoc, append-nil}
use claude_powerplant.Prelude.{
  ℕ, ◌+◌, ◌≤◌, ◌≡◌, String, ◌==◌, Bool, false, Option, some, List, [], ◌∷◌, ◌++◌, length, arith,
}
use claude_powerplant.Source.{child_path}
use claude_powerplant.Ingest.{
  Gate0Limits, FileStats, Directory, locked, listed, Dirents, no_more, dirent, Entry, no_stat,
  symlink, special, subdirectory, regular, ValidatedFileEntry, Walked, acceptance,
  powerplant_meta_filename,
}
use claude_powerplant.Ingest.Walk.{validated, walk_file}

abbrev pub sum_sizes : List ValidatedFileEntry → ℕ
sum_sizes [] = 0
sum_sizes (f ∷ fs) = f.size_bytes + sum_sizes fs

-- The regular files of a tree, depth first
unfoldable mutual
  pub files_in : Option String → Directory → List ValidatedFileEntry
  files_in dir locked = []
  files_in dir (listed es) = files_of dir es

  pub files_of : Option String → Dirents → List ValidatedFileEntry
  files_of dir no_more = []
  files_of dir (dirent name e es) = files_at (child_path dir name) e ++ files_of dir es

  pub files_at : String → Entry → List ValidatedFileEntry
  files_at path no_stat = []
  files_at path symlink = []
  files_at path special = []
  files_at path (subdirectory d) = files_in (some path) d
  files_at path (regular st) = validated path st ∷ []

module _ (escapes : String → Bool) (l : Gate0Limits) where
  -- A tree of directories that can be read, down to the depth limit, and of files with one link each
  -- that are small enough, with no reserved name and no path that leads out
  unfoldable mutual
    pub IsClean : ℕ → Option String → Directory → Type 0
    IsClean depth dir locked = ⊥
    IsClean depth dir (listed es) = (depth ≤ l.max_depth) × AreClean depth dir es

    pub AreClean : ℕ → Option String → Dirents → Type 0
    AreClean depth dir no_more = Unit
    AreClean depth dir (dirent name e es) =
        ((name == powerplant_meta_filename) ≡ false)
        × (escapes (child_path dir name) ≡ false)
        × IsCleanEntry depth (child_path dir name) e
        × AreClean depth dir es

    pub IsCleanEntry : ℕ → String → Entry → Type 0
    IsCleanEntry depth path no_stat = ⊥
    IsCleanEntry depth path symlink = ⊥
    IsCleanEntry depth path special = ⊥
    IsCleanEntry depth path (subdirectory d) = IsClean (depth + 1) (some path) d
    IsCleanEntry depth path (regular st) = (st.nlink ≤ 1) × (st.size ≤ l.max_file_size_bytes)

abbrev pub extend : Walked → List ValidatedFileEntry → Walked
extend w fs = record { files = w.files ++ fs; total_size_bytes = w.total_size_bytes + sum_sizes fs }

-- The files and their bytes do not pass the limits of a package.
abbrev pub Fits : Gate0Limits → Walked → List ValidatedFileEntry → Type 0
Fits l w fs =
    (length w.files + length fs ≤ l.max_file_count)
    × (w.total_size_bytes + sum_sizes fs ≤ l.max_total_size_bytes)

pub length-concat : (fs gs : List ValidatedFileEntry) → length (fs ++ gs) ≡ length fs + length gs
length-concat [] gs = omega arith
length-concat (f ∷ fs) gs = omega (arith, length-concat fs gs)

pub sum_sizes-concat :
    (fs gs : List ValidatedFileEntry) → sum_sizes (fs ++ gs) ≡ sum_sizes fs + sum_sizes gs
sum_sizes-concat [] gs = omega arith
sum_sizes-concat (f ∷ fs) gs = omega (arith, sum_sizes-concat fs gs)

pub extend-nil : (w : Walked) → extend w [] ≡ w
extend-nil w = ground (arith, append-nil w.files)

pub extend-extend :
    (w : Walked) (fs gs : List ValidatedFileEntry) → extend (extend w fs) gs ≡ extend w (fs ++ gs)
extend-extend w fs gs = ground (arith, append_assoc w.files fs gs, sum_sizes-concat fs gs)

-- Acceptance of a part of the tree: it is clean and fits, and its files are pushed.
abbrev pub Passes : Type 0 → Gate0Limits → Walked → List ValidatedFileEntry → Walked → Type 0
Passes Clean l w fs w' = Clean × Fits l w fs × (w' ≡ extend w fs)

module _ (l : Gate0Limits) (path : String) (st : FileStats) (w : Walked) where
  pub walk_file_sound :
      {w' : Walked}
      → walk_file l path st w ≡ acceptance w'
      → Passes ((st.nlink ≤ 1) × (st.size ≤ l.max_file_size_bytes)) l w (validated path st ∷ []) w'
  unfolding walk_file
  walk_file_sound {w'} e = ground arith

  pub walk_file_complete :
      st.nlink ≤ 1
      → st.size ≤ l.max_file_size_bytes
      → Fits l w (validated path st ∷ [])
      → walk_file l path st w ≡ acceptance (extend w (validated path st ∷ []))
  unfolding walk_file
  walk_file_complete one small fits = ground arith
