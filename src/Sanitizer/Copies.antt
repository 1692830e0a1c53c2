-- ===== src/Sanitizer/Copies.antt =====
-- What the sanitizer of src/projects/build-sanitized-workspace.ts lets into a workspace.
use claude_powerplant.Prelude.{
  In, In-left, In-right, All-concat, All-weaken, ◌≡◌, refl, ap, inl, inr, String, Bool, true, false,
  not, ◌&&◌, Option, none, some, [], ◌∷◌, ◌++◌, Dict, map, All, arith, Bool-cases, Option-cases,
}
use claude_powerplant.Text.{units, includes}
use claude_powerplant.Source.{
  Item, regular, link, folder, Items, nothing, item, child_path, slashed, walk_files, walk_item,
}
use claude_powerplant.Source.Slashes.{files_of, Plain, walk_files-plain}
use claude_powerplant.Sanitizer.{
  SanitizePolicy, is_included, is_excluded_path, is_directory_excluded, Walk, found, rejected,
  then_walk, walk_dir, walk_entry, is_absolute, unsafe_path, Copied, copy_files,
  build_sanitized_workspace,
}

-- A walk finds files of a table only.
abbrev Finds : Dict String → Walk → Type 0
Finds files (found fs) = All (λ f. In f files) fs
Finds files (rejected r) = Unit

Finds-then :
    (a b : Dict String) (w v : Walk) → Finds a w → Finds b v → Finds (a ++ b) (then_walk w v)
unfolding then_walk
Finds-then a b (rejected r) v p q = tt
Finds-then a b (found fs) (rejected r) p q = tt
Finds-then a b (found fs) (found gs) p q =
    All-concat (λ f. In f (a ++ b)) fs gs
      (All-weaken (λ f. In f a) (λ f. In f (a ++ b)) fs (λ f m. In-left f a b m) p)
      (All-weaken (λ f. In f b) (λ f. In f (a ++ b)) gs (λ f m. In-right f a b m) q)

mutual
  unfolding walk_dir walk_files

  walk_dir-Finds :
      (policy : SanitizePolicy) (dir : Option String) (is : Items)
      → Finds (walk_files dir is) (walk_dir policy dir is)
  walk_dir-Finds policy dir nothing = tt
  walk_dir-Finds policy dir (item name i is) =
      Finds-then (walk_item (child_path dir name) i) (walk_files dir is)
        (walk_entry policy (child_path dir name) i) (walk_dir policy dir is)
        (walk_entry-Finds policy (child_path dir name) i) (walk_dir-Finds policy dir is)

  walk_entry-Finds :
      (policy : SanitizePolicy) (rel : String) (i : Item)
      → Finds (walk_item rel i) (walk_entry policy rel i)
  walk_entry-Finds policy rel (regular c) = (inl refl, tt)
  walk_entry-Finds policy rel (link target) =
      elim (Bool-cases
        (is_included policy (slashed rel) && not (is_excluded_path policy (slashed rel)))) [
          | inl taken ↦ rw taken tt
          | inr passed ↦ rw passed tt
        ]
  walk_entry-Finds policy rel (folder is) =
      elim (Bool-cases (is_directory_excluded policy (slashed rel))) [
        | inl out ↦ rw out tt
        | inr entered ↦ rw entered (walk_dir-Finds policy (some rel) is)
      ]

-- A file that the policy lets in.
pub record Admitted (policy : SanitizePolicy) (tree : Items) (f : String × String) : Type 0 where
  pub included : is_included policy f.0 ≡ true
  pub kept : is_excluded_path policy f.0 ≡ false
  pub inside : includes (units f.0) (b'.' ∷ b'.' ∷ []) ≡ false
  pub relative : is_absolute (units f.0) ≡ false
  pub genuine : In f (files_of none tree)

unsafe_path-none :
    (outside : String → Bool) (path : String)
    → unsafe_path outside path ≡ none
    → (is_absolute (units path) ≡ false) × (includes (units path) (b'.' ∷ b'.' ∷ []) ≡ false)
unfolding unsafe_path
unsafe_path-none outside path h = ground arith

-- What the copying makes of files of the tree.
abbrev Sound : (String → String) → SanitizePolicy → Items → Copied → Type 0
Sound sha policy tree w =
    All (Admitted policy tree) w.copies
    × (w.manifest
        ≡ map (λ (f : String × String). record { relative_path = f.0; sha256 = sha f.1 }) w.copies)

copy_files-Sound :
    (sha : String → String) (outside : String → Bool) (policy : SanitizePolicy) (tree : Items)
    (fs : Dict String)
    → All (λ f. In f (files_of none tree)) fs
    → Sound sha policy tree (copy_files sha outside policy fs)
unfolding copy_files
copy_files-Sound sha outside policy tree [] m = (tt, refl)
copy_files-Sound sha outside policy tree ((rel, c) ∷ fs) m =
    let later = copy_files-Sound sha outside policy tree fs m.1 in
    elim (Bool-cases (is_included policy rel)) [
      | inr left_out ↦ rw left_out later
      | inl taken ↦ elim (Bool-cases (is_excluded_path policy rel)) [
        | inl out ↦ rw (taken, out) later
        | inr stays ↦ elim (Option-cases (unsafe_path outside rel)) [
          | inr (r, unsafe) ↦ rw (taken, stays, unsafe) (tt, refl)
          | inl safe ↦
              let (rooted, dots) = unsafe_path-none outside rel safe in
              rw (taken, stays, safe)
                (
                  (
                    record {
                      included = taken;
                      kept = stays;
                      inside = dots;
                      relative = rooted;
                      genuine = m.0;
                    },
                    later.0,
                  ),
                  ap (λ t. record { relative_path = rel; sha256 = sha c } ∷ t) later.1,
                )
        ]
      ]
    ]

build-Sound :
    (sha : String → String) (outside : String → Bool) (policy : SanitizePolicy) (tree : Items)
    (w : Walk)
    → Finds (files_of none tree) w
    → Sound sha policy tree (elim w [
      | rejected r ↦ record { copies = []; manifest = []; error = some r }
      | found fs ↦ copy_files sha outside policy fs
    ])
build-Sound sha outside policy tree (rejected r) p = (tt, refl)
build-Sound sha outside policy tree (found fs) p = copy_files-Sound sha outside policy tree fs p

-- Where no path of the source has a backslash: every file that is copied into the workspace, also before a rejection, is matched by an include
-- pattern and by no exclude pattern, has a relative path without `..`, and is a file, no link, of
-- the source under that path with that content; the manifest has each copy's path and hash, in order.
pub copies-Admitted :
    (sha : String → String) (outside : String → Bool) (policy : SanitizePolicy) (tree : Items)
    → Plain tree
    → All (Admitted policy tree) (build_sanitized_workspace sha outside policy tree).copies
      × ((build_sanitized_workspace sha outside policy tree).manifest
          ≡ map
              (λ (f : String × String). record { relative_path = f.0; sha256 = sha f.1 })
              (build_sanitized_workspace sha outside policy tree).copies)
unfolding build_sanitized_workspace
copies-Admitted sha outside policy tree p =
    build-Sound sha outside policy tree (walk_dir policy none tree)
      (rw (walk_files-plain tree p) at (walk_dir-Finds policy none tree))
