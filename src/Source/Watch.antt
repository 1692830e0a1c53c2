-- ===== src/Source/Watch.antt =====
-- What an unmodified verdict on the source project means.
use claude_powerplant.Prelude.{
  ◌≡◌, refl, sym, ◌⊎◌, inl, inr, String, eq_iff, true, false, not, none, some, List, [], ◌∷◌, Dict,
  get, keep, length, eqb_iff, has, keys, arith, Bool-cases, Option-cases, All,
}
use claude_powerplant.Source.{
  Items, content, broken, directory, walk_files, leaves, SourceFile, SourceManifest, is_excluded,
  hash_files, capture_source_manifest, SourceVerificationResult, Comparison, same, changed, missing,
  unreadable, compare_file, Findings, compare_files, recorded_paths, new_paths,
  verify_source_unchanged,
}
use claude_powerplant.Source.Slashes.{files_of, Plain, walk_files-plain}

-- The files of a manifest that are found, through links, with the recorded hash.
abbrev pub Found : (String → String) → Items → SourceFile → Type 0
Found sha tree f =
    (c : String) × (get (leaves none tree) f.relative_path ≡ some (content c)) × (sha c ≡ f.sha256)

compare_file-same :
    (sha : String → String) (tree : Items) (f : SourceFile)
    → compare_file sha (leaves none tree) f ≡ same
    → Found sha tree f
unfolding compare_file
compare_file-same sha tree f h = elim (Option-cases (get (leaves none tree) f.relative_path)) [
  | inl gone ↦ absurd (ground arith)
  | inr (content c, there) ↦ (c, there, ground (arith, eq_iff (sha c) f.sha256))
  | inr (broken, there) ↦ absurd (ground arith)
  | inr (directory, there) ↦ absurd (ground arith)
]

Comparison-cases :
    (c : Comparison) → (c ≡ same) ⊎ ((c ≡ changed) ⊎ ((c ≡ missing) ⊎ (c ≡ unreadable)))
Comparison-cases same = inl refl
Comparison-cases changed = inr (inl refl)
Comparison-cases missing = inr (inr (inl refl))
Comparison-cases unreadable = inr (inr (inr refl))

compare_files-clean :
    (sha : String → String) (tree : Items) (fs : List SourceFile) (r : Findings)
    → compare_files sha (leaves none tree) fs ≡ some r
    → length r.changed_files ≡ 0
    → length r.missing_files ≡ 0
    → All (Found sha tree) fs
unfolding compare_files
compare_files-clean sha tree [] r e c m = tt
compare_files-clean sha tree (f ∷ fs) r e c m =
    elim (Comparison-cases (compare_file sha (leaves none tree) f)) [
      | inl ok ↦ (
        compare_file-same sha tree f ok,
        compare_files-clean sha tree fs r (rw (ok, compare_files) at e) c m,
      )
      | inr (inl differs) ↦ absurd (ground arith)
      | inr (inr (inl gone)) ↦ absurd (ground arith)
      | inr (inr (inr bad)) ↦ absurd (ground arith)
    ]

-- A file of the project as it was, now: if it is watched, it is found with the same hash.
abbrev pub Unchanged : (String → String) → List String → Items → String × String → Type 0
Unchanged sha patterns tree f =
    is_excluded patterns f.0 ≡ false
    → (c : String) × (get (leaves none tree) f.0 ≡ some (content c)) × (sha c ≡ sha f.1)

-- A file of the project now: if it is watched, it was there.
abbrev pub NotNew : List String → Dict String → String × String → Type 0
NotNew patterns before f = is_excluded patterns f.0 ≡ false → has (keys before) f.0 ≡ true

hash_files-Unchanged :
    (sha : String → String) (patterns : List String) (tree : Items) (m : Dict String)
    → All (Found sha tree) (hash_files sha patterns m)
    → All (Unchanged sha patterns tree) m
unfolding hash_files
hash_files-Unchanged sha patterns tree [] found = tt
hash_files-Unchanged sha patterns tree ((rel, c) ∷ m) found =
    elim (Bool-cases (is_excluded patterns rel)) [
      | inl out ↦ (
        (λ watched. absurd (cc (out, watched))),
        hash_files-Unchanged sha patterns tree m (rw (out, hash_files) at found),
      )
      | inr watched ↦
          let found' = rw (watched, hash_files) at found in
          ((λ w. found'.0), hash_files-Unchanged sha patterns tree m found'.1)
    ]

recorded-keys :
    (sha : String → String) (patterns : List String) (m : Dict String) (j : String)
    → has (recorded_paths (hash_files sha patterns m)) j ≡ true
    → has (keys m) j ≡ true
unfolding recorded_paths hash_files has keys
recorded-keys sha patterns [] j h = cc h
recorded-keys sha patterns ((rel, c) ∷ m) j h = ground (arith, recorded-keys sha patterns m j)

keep-NotNew :
    (sha : String → String) (patterns : List String) (before m : Dict String)
    → length (
        keep
          (λ p. not (has (recorded_paths (hash_files sha patterns before)) p))
          (keep (λ p. not (is_excluded patterns p)) (keys m)))
      ≡ 0
    → All (NotNew patterns before) m
unfolding keys
keep-NotNew sha patterns before [] h = tt
keep-NotNew sha patterns before ((rel, c) ∷ m) h =
    ground (arith, keep-NotNew sha patterns before m, recorded-keys sha patterns before rel)

-- What an unmodified verdict rests on.
record Clean (sha : String → String) (manifest : SourceManifest) (tree : Items) : Type 0 where
  compared : Findings
  found : compare_files sha (leaves none tree) manifest.files ≡ some compared
  none_changed : length compared.changed_files ≡ 0
  none_missing : length compared.missing_files ≡ 0
  none_new : length (new_paths manifest tree) ≡ 0

verify-Clean :
    (sha : String → String) (manifest : SourceManifest) (tree : Items)
    (r : SourceVerificationResult)
    → verify_source_unchanged sha manifest tree ≡ some r
    → r.source_unmodified ≡ true
    → Clean sha manifest tree
unfolding verify_source_unchanged
verify-Clean sha manifest tree r e ok =
    elim (Option-cases (compare_files sha (leaves none tree) manifest.files)) [
      | inl bad ↦ absurd (ground arith)
      | inr (compared, found) ↦ record {
        compared = compared;
        found = found;
        none_changed = ground (arith, eqb_iff (length compared.changed_files) 0);
        none_missing = ground (arith, eqb_iff (length compared.missing_files) 0);
        none_new = ground (arith, eqb_iff (length (new_paths manifest tree)) 0);
      }
    ]

-- Where no path has a backslash before and after: against the manifest that was captured of it, a
-- project that is reported as unmodified has, under the path of each file that the exclusions do not
-- cover, a content of the same hash (the file, or a link to one), and no file that they do not cover is
-- new.
pub unmodified_sound :
    (sha : String → String) (patterns : List String) (before after : Items)
    (r : SourceVerificationResult)
    → Plain before
    → Plain after
    → verify_source_unchanged sha (capture_source_manifest sha patterns before) after ≡ some r
    → r.source_unmodified ≡ true
    → All (Unchanged sha patterns after) (files_of none before)
      × All (NotNew patterns (files_of none before)) (files_of none after)
unfolding capture_source_manifest new_paths
unmodified_sound sha patterns before after r p q e ok =
    let clean = verify-Clean sha (capture_source_manifest sha patterns before) after r e ok in
    rw (sym (walk_files-plain before p), sym (walk_files-plain after q))
      (
        hash_files-Unchanged sha patterns after (walk_files none before) (
            compare_files-clean sha after _ clean.compared clean.found clean.none_changed
              clean.none_missing),
        keep-NotNew sha patterns (walk_files none before) (walk_files none after) clean.none_new,
      )
