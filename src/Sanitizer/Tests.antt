-- ===== src/Sanitizer/Tests.antt =====
-- The sanitizer at inputs that meet the hypotheses of its properties.
use claude_powerplant.Prelude.{◌≡◌, refl, String, false, none, [], ◌∷◌, All, map}
use claude_powerplant.Text.{units, includes}
use claude_powerplant.Glob.{matches_glob}
use claude_powerplant.Source.{regular, link, folder, Items, nothing, item, child_path, slashed}
use claude_powerplant.Source.Slashes.{Plain, files_of, has_backslash}
use claude_powerplant.Sanitizer.{
  SanitizePolicy, is_included, is_excluded_path, is_directory_excluded, then_walk, walk_dir,
  is_absolute, unsafe_path, copy_files, build_sanitized_workspace,
}
use claude_powerplant.Sanitizer.Copies.{Admitted, copies-Admitted}

abbrev policy : SanitizePolicy
policy = record { include_paths = "**/*.ts" ∷ []; exclude_paths = "dist/**" ∷ [] }

abbrev project : Items
project =
    item "dist" (folder (item "x.ts" (link none) nothing))
      (item "src" (folder (item "a.ts" (regular "1") (item "a.md" (regular "2") nothing))) nothing)

-- The link is behind an excluded directory.
one_copy :
    (build_sanitized_workspace (λ s. s) (λ p. false) policy project).copies ≡ ("src/a.ts", "1") ∷ []
unfolding build_sanitized_workspace walk_dir slashed then_walk child_path is_included
    is_excluded_path is_directory_excluded copy_files unsafe_path is_absolute units includes
    matches_glob
one_copy = refl

plain : Plain project
unfolding files_of has_backslash child_path
plain = (refl, (refl, tt))

copies-Admitted_example :
    All
      (Admitted policy project)
      (build_sanitized_workspace (λ s. s) (λ p. false) policy project).copies
    × ((build_sanitized_workspace (λ s. s) (λ p. false) policy project).manifest
        ≡ map
            (λ (f : String × String). record { relative_path = f.0; sha256 = f.1 })
            (build_sanitized_workspace (λ s. s) (λ p. false) policy project).copies)
copies-Admitted_example = copies-Admitted (λ s. s) (λ p. false) policy project plain
