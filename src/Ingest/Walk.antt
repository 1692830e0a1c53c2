-- ===== src/Ingest/Walk.antt =====
-- `walkSourceDirectory` of src/skills/skill-ingestion.ts. Whether the path of an entry resolves to a
-- place outside the source root is a parameter.
use claude_powerplant.Prelude.{
  ℕ, ◌+◌, String, ◌==◌, Bool, Option, none, some, [], ◌∷◌, ◌++◌, ltb, leb, length, if◌then◌else◌,
}
use claude_powerplant.Source.{child_path}
use claude_powerplant.Ingest.{
  Gate0Limits, FileStats, Directory, locked, listed, Dirents, no_more, dirent, Entry, no_stat,
  symlink, special, subdirectory, regular, ValidatedFileEntry, depth_exceeded, reserved_name,
  too_many_files, package_too_large, directory_unreadable, path_escape, stat_failed, symlink_found,
  unsupported_type, hardlinked, file_too_large, Walked, WalkResult, rejection, acceptance,
  powerplant_meta_filename,
}

unfoldable pub validated : String → FileStats → ValidatedFileEntry
validated path st = record {
  relative_path = path;
  size_bytes = st.size;
  mtime_ms = st.mtime_ms;
  ino = st.ino;
  dev = st.dev;
}

-- The checks of a regular file, and its push.
unfoldable pub walk_file : Gate0Limits → String → FileStats → Walked → WalkResult
unfolding validated
walk_file l path st w =
    if ltb 1 st.nlink
    then rejection (hardlinked path st.nlink)
    else if ltb l.max_file_size_bytes st.size
    then rejection (file_too_large path st.size)
    else if leb l.max_file_count (length w.files)
    then rejection too_many_files
    else if ltb l.max_total_size_bytes (w.total_size_bytes + st.size)
    then rejection package_too_large
    else acceptance (record {
      files = w.files ++ validated path st ∷ [];
      total_size_bytes = w.total_size_bytes + st.size;
    })

-- `path.relative(resolvedRoot, dir) || '.'`
unfoldable pub shown_path : Option String → String
shown_path none = "."
shown_path (some dir) = dir

-- `if (rejection) return rejection`
abbrev pub then_walk : WalkResult → (Walked → WalkResult) → WalkResult
then_walk (rejection r) f = rejection r
then_walk (acceptance w) f = f w

module _ (escapes : String → Bool) (l : Gate0Limits) where
  unfoldable mutual
    pub walk : ℕ → Option String → Directory → Walked → WalkResult
    walk depth dir locked w =
        if ltb l.max_depth depth
        then rejection depth_exceeded
        else rejection (directory_unreadable (shown_path dir))
    walk depth dir (listed es) w =
        let entries = walk_entries depth dir es w in
        if ltb l.max_depth depth then rejection depth_exceeded else entries

    pub walk_entries : ℕ → Option String → Dirents → Walked → WalkResult
    walk_entries depth dir no_more w = acceptance w
    walk_entries depth dir (dirent name e es) w =
        let walked =
          then_walk (walk_entry depth (child_path dir name) e w)
            (λ (w' : Walked). walk_entries depth dir es w') in
        if name == powerplant_meta_filename
        then rejection reserved_name
        else if escapes (child_path dir name)
        then rejection (path_escape (child_path dir name))
        else walked

    pub walk_entry : ℕ → String → Entry → Walked → WalkResult
    walk_entry depth path no_stat w = rejection (stat_failed path)
    walk_entry depth path symlink w = rejection (symlink_found path)
    walk_entry depth path special w = rejection (unsupported_type path)
    walk_entry depth path (subdirectory d) w = walk (depth + 1) (some path) d w
    walk_entry depth path (regular st) w = walk_file l path st w

  unfoldable pub walk_source_directory : Directory → WalkResult
  walk_source_directory d = walk 0 none d (record { files = []; total_size_bytes = 0 })
