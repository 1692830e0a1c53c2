-- ===== src/Source/Tests.antt =====
-- The watch over the source project at inputs that meet the hypotheses of its properties.
use claude_powerplant.Prelude.{
  ◌≡◌, refl, String, true, false, none, some, [], ◌∷◌, All, Distinct, keys, has, get,
}
use claude_powerplant.Glob.{matches_glob}
use claude_powerplant.Source.{
  regular, link, folder, Items, nothing, item, walk_files, slashed, leaves, child_path, link_leaf,
  is_excluded, hash_files, capture_source_manifest, SourceVerificationResult, compare_file,
  compare_files, recorded_paths, new_paths, verify_source_unchanged,
}
use claude_powerplant.Source.Slashes.{Plain, files_of, has_backslash}
use claude_powerplant.Source.Watch.{Unchanged, NotNew, unmodified_sound}
use claude_powerplant.Source.Capture.{captured_unmodified}

abbrev sha : String → String
sha s = s

abbrev project : Items
project =
    item "src" (folder (item "a.ts" (regular "1") nothing)) (item "b.log" (regular "2") nothing)

-- The log has changed, and the source file is a link to a copy.
abbrev later : Items
later =
    item "src" (folder (item "a.ts" (link (some "1")) nothing)) (item "b.log" (regular "3") nothing)

abbrev result : SourceVerificationResult
result = record { source_unmodified = true; changed_files = []; missing_files = []; new_files = [] }

verified :
    verify_source_unchanged sha (capture_source_manifest sha ("*.log" ∷ []) project) later
    ≡ some result
unfolding verify_source_unchanged capture_source_manifest walk_files leaves child_path link_leaf
    slashed is_excluded hash_files compare_files compare_file recorded_paths new_paths matches_glob
    keys has get
verified = refl

project_plain : Plain project
unfolding files_of has_backslash child_path
project_plain = (refl, (refl, tt))

later_plain : Plain later
unfolding files_of has_backslash child_path
later_plain = (refl, tt)

-- A file that is captured under another path, and is missing there.
backslash_missing :
    verify_source_unchanged sha
      (capture_source_manifest sha [] (item "a\\b" (regular "1") nothing))
      (item "a\\b" (regular "1") nothing)
    ≡ some (record result { source_unmodified = false; missing_files = "a/b" ∷ [] })
unfolding verify_source_unchanged capture_source_manifest walk_files leaves child_path slashed
    is_excluded hash_files compare_files compare_file recorded_paths new_paths keys has get
backslash_missing = refl

unmodified_sound_example :
    All (Unchanged sha ("*.log" ∷ []) later) (files_of none project)
    × All (NotNew ("*.log" ∷ []) (files_of none project)) (files_of none later)
unmodified_sound_example =
    unmodified_sound sha ("*.log" ∷ []) project later result project_plain later_plain verified refl

distinct : Distinct (keys (leaves none project))
unfolding leaves child_path keys has
distinct = (refl, (refl, (refl, tt)))

captured_unmodified_example :
    (r : SourceVerificationResult) × (verify_source_unchanged sha
        (capture_source_manifest sha ("*.log" ∷ []) project)
        project
      ≡ some r)
    × (r.source_unmodified ≡ true)
captured_unmodified_example = captured_unmodified sha ("*.log" ∷ []) project project_plain distinct
