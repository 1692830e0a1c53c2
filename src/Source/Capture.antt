-- ===== src/Source/Capture.antt =====
-- A source project against the manifest that was just captured of it.
use claude_powerplant.Prelude.{
  In, In-left, In-right, All-concat, All-weaken, ◌≡◌, refl, ap, inl, inr, String, eq_iff, Bool,
  true, false, not, Option, none, some, List, [], ◌∷◌, ◌++◌, Dict, get, keep, length, eqb, eqb_iff,
  has, keys, Distinct, arith, Bool-cases, All,
}
use claude_powerplant.Source.{
  Item, regular, link, folder, Items, nothing, item, Leaf, content, directory, child_path,
  walk_files, leaves, item_leaves, is_excluded, hash_files, capture_source_manifest,
  SourceVerificationResult, same, compare_file, compare_files, recorded_paths, new_paths,
  verify_source_unchanged,
}
use claude_powerplant.Source.Slashes.{Plain, files_of, files_under, walk_files-plain}

-- A file stands among the nodes.
abbrev Stands : Dict Leaf → String × String → Type 0
Stands nodes f = In (f.0, content f.1) nodes

mutual
  unfolding files_of leaves

  files_of-Stands :
      (dir : Option String) (is : Items) → All (Stands (leaves dir is)) (files_of dir is)
  files_of-Stands dir nothing = tt
  files_of-Stands dir (item name i is) =
      let rel = child_path dir name in
      All-concat (Stands (item_leaves rel i ++ leaves dir is)) (files_under rel i) (files_of dir is)
        (All-weaken (Stands (item_leaves rel i)) (Stands (item_leaves rel i ++ leaves dir is))
          (files_under rel i)
          (λ f m. In-left (f.0, content f.1) (item_leaves rel i) (leaves dir is) m)
          (files_under-Stands rel i))
        (All-weaken (Stands (leaves dir is)) (Stands (item_leaves rel i ++ leaves dir is))
          (files_of dir is)
          (λ f m. In-right (f.0, content f.1) (item_leaves rel i) (leaves dir is) m)
          (files_of-Stands dir is))

  files_under-Stands :
      (rel : String) (i : Item) → All (Stands (item_leaves rel i)) (files_under rel i)
  files_under-Stands rel (regular c) = (inl refl, tt)
  files_under-Stands rel (link target) = tt
  files_under-Stands rel (folder is) =
      All-weaken (Stands (leaves (some rel) is)) (Stands ((rel, directory) ∷ leaves (some rel) is))
        (files_of (some rel) is) (λ f m. inr m) (files_of-Stands (some rel) is)

In-has : (k : String) (v : Leaf) (m : Dict Leaf) → In (k, v) m → has (keys m) k ≡ true
unfolding has keys
In-has k v [] there = absurd there
In-has k v ((j, w) ∷ m) (inl e) = ground (arith, eq_iff j k, ap (λ (x : String × Leaf). x.0) e)
In-has k v ((j, w) ∷ m) (inr there) = ground (arith, In-has k v m there)

get-In :
    (k : String) (v : Leaf) (m : Dict Leaf) → Distinct (keys m) → In (k, v) m → get m k ≡ some v
unfolding get has keys
get-In k v [] d there = absurd there
get-In k v ((j, w) ∷ m) d (inl e) =
    ground (arith, eq_iff j k, ap (λ (x : String × Leaf). x.0) e, ap (λ (x : String × Leaf). x.1) e)
get-In k v ((j, w) ∷ m) d (inr there) =
    ground (arith, get-In k v m d.1 there, In-has k v m there, eq_iff j k)

-- A file is found under its path.
abbrev Reads : Dict Leaf → String × String → Type 0
Reads nodes f = get nodes f.0 ≡ some (content f.1)

compare_file-reads :
    (sha : String → String) (nodes : Dict Leaf) (rel c : String)
    → get nodes rel ≡ some (content c)
    → compare_file sha nodes (record { relative_path = rel; sha256 = sha c }) ≡ same
unfolding compare_file
compare_file-reads sha nodes rel c e = ground (arith, e, eq_iff (sha c) (sha c))

compare-captured :
    (sha : String → String) (patterns : List String) (nodes : Dict Leaf) (m : Dict String)
    → All (Reads nodes) m
    → compare_files sha nodes (hash_files sha patterns m)
      ≡ some (record { changed_files = []; missing_files = [] })
unfolding compare_files hash_files
compare-captured sha patterns nodes [] r = refl
compare-captured sha patterns nodes ((rel, c) ∷ m) r =
    let ok : compare_file sha nodes (record { relative_path = rel; sha256 = sha c }) ≡ same =
      compare_file-reads sha nodes rel c r.0 in
    let ih = compare-captured sha patterns nodes m r.1 in
    elim (Bool-cases (is_excluded patterns rel)) [
      | inl out ↦ rw out ih
      | inr watched ↦ rw watched (rw (ok, compare_files) ih)
    ]

recorded-watched :
    (sha : String → String) (patterns : List String) (m : Dict String) (j : String)
    → has (keys m) j ≡ true
    → is_excluded patterns j ≡ false
    → has (recorded_paths (hash_files sha patterns m)) j ≡ true
unfolding recorded_paths hash_files has keys
recorded-watched sha patterns [] j h w = cc h
recorded-watched sha patterns ((rel, c) ∷ m) j h w =
    ground (arith, recorded-watched sha patterns m j, eq_iff rel j)

keep-none :
    (p q : String → Bool) (ks : List String)
    → ((j : String) → has ks j ≡ true → p j ≡ true → q j ≡ false)
    → length (keep q (keep p ks)) ≡ 0
unfolding has
keep-none p q [] h = refl
keep-none p q (k ∷ ks) h =
    ground (arith, keep-none p q ks (λ j m. h j (ground arith)), h k, eq_iff k k)

-- A project whose paths are all different and have no backslash is reported as unmodified against the manifest that was
-- captured of it, with nothing changed, missing or new.
pub captured_unmodified :
    (sha : String → String) (patterns : List String) (tree : Items)
    → Plain tree
    → Distinct (keys (leaves none tree))
    → (r : SourceVerificationResult) × (verify_source_unchanged sha
          (capture_source_manifest sha patterns tree)
          tree
        ≡ some r)
      × (r.source_unmodified ≡ true)
unfolding verify_source_unchanged capture_source_manifest
captured_unmodified sha patterns tree p d =
    let reads : All (Reads (leaves none tree)) (walk_files none tree) =
      rw (walk_files-plain tree p) (
        All-weaken (Stands (leaves none tree)) (Reads (leaves none tree)) (files_of none tree)
          (λ f m. get-In f.0 (content f.1) (leaves none tree) d m) (files_of-Stands none tree)) in
    let compared = compare-captured sha patterns (leaves none tree) (walk_files none tree) reads in
    let none_new : length (new_paths (capture_source_manifest sha patterns tree) tree) ≡ 0 =
      unfold new_paths in
      keep-none (λ p. not (is_excluded patterns p))
        (λ p. not (has (recorded_paths (hash_files sha patterns (walk_files none tree))) p))
        (keys (walk_files none tree))
        (λ j there watched.
          ground (arith, recorded-watched sha patterns (walk_files none tree) j there)) in
    let r : SourceVerificationResult = record {
      source_unmodified =
          eqb (length (new_paths (capture_source_manifest sha patterns tree) tree)) 0;
      changed_files = [];
      missing_files = [];
      new_files = new_paths (capture_source_manifest sha patterns tree) tree;
    } in
    (
      r,
      rw (compared, verify_source_unchanged) refl,
      (eqb_iff (length (new_paths (capture_source_manifest sha patterns tree) tree)) 0).1 none_new,
    )
