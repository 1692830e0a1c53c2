-- ===== src/Ingest/Acceptance.antt =====
-- Gate 0 of src/skills/skill-ingestion.ts accepts a source tree exactly if it is clean and within the
-- limits of a package.
use mathlib.Core.Path.{subst}
use claude_powerplant.Prelude.{
  ℕ, ◌+◌, ◌≤◌, ◌≡◌, refl, sym, ap, ◌∙◌, ◌↔◌, inl, inr, String, ◌==◌, Bool, false, Option, none,
  some, List, [], ◌++◌, length, arith, Bool-cases, ltb,
}
use claude_powerplant.Source.{child_path}
use claude_powerplant.Ingest.{
  Gate0Limits, Directory, locked, listed, Dirents, no_more, dirent, Entry, no_stat, symlink,
  special, subdirectory, regular, ValidatedFileEntry, Walked, WalkResult, rejection, acceptance,
  powerplant_meta_filename,
}
use claude_powerplant.Ingest.Walk.{walk, walk_entries, walk_entry, walk_source_directory, then_walk}
use claude_powerplant.Ingest.Limits.{
  sum_sizes, files_in, files_of, files_at, IsClean, AreClean, IsCleanEntry, extend, Fits, Passes,
  length-concat, sum_sizes-concat, extend-nil, extend-extend, walk_file_sound, walk_file_complete,
}

-- The files so far are within the limits.
abbrev Within : Gate0Limits → Walked → Type 0
Within l w = (length w.files ≤ l.max_file_count) × (w.total_size_bytes ≤ l.max_total_size_bytes)

Within-extend :
    (l : Gate0Limits) (w : Walked) (fs : List ValidatedFileEntry)
    → Fits l w fs
    → Within l (extend w fs)
Within-extend l w fs fits = omega (arith, length-concat w.files fs)

Fits-nil : (l : Gate0Limits) (w : Walked) → Within l w → Fits l w []
Fits-nil l w within = omega arith

Fits-join :
    (l : Gate0Limits) (w : Walked) (fs gs : List ValidatedFileEntry)
    → Fits l (extend w fs) gs
    → Fits l w (fs ++ gs)
Fits-join l w fs gs fits =
    omega (arith, length-concat w.files fs, length-concat fs gs, sum_sizes-concat fs gs)

Fits-split :
    (l : Gate0Limits) (w : Walked) (fs gs : List ValidatedFileEntry)
    → Fits l w (fs ++ gs)
    → Fits l w fs × Fits l (extend w fs) gs
Fits-split l w fs gs fits =
    omega (arith, length-concat w.files fs, length-concat fs gs, sum_sizes-concat fs gs)

then_walk-acceptance :
    (r : WalkResult) (f : Walked → WalkResult) {w' : Walked}
    → then_walk r f ≡ acceptance w'
    → (w : Walked) × (r ≡ acceptance w) × (f w ≡ acceptance w')
then_walk-acceptance (rejection r) f e = absurd (ground (arith, e))
then_walk-acceptance (acceptance w) f e = (w, refl, e)

module _ (escapes : String → Bool) (l : Gate0Limits) where
  -- What an accepted entry has shown
  record Entered (depth : ℕ) (dir : Option String) (name : String) (e : Entry) (es : Dirents)
      (w w' : Walked) : Type 0 where
    own_name : (name == powerplant_meta_filename) ≡ false
    inside : escapes (child_path dir name) ≡ false
    middle : Walked
    entered : walk_entry escapes l depth (child_path dir name) e w ≡ acceptance middle
    rest : walk_entries escapes l depth dir es middle ≡ acceptance w'

  enter :
      (depth : ℕ) (dir : Option String) (name : String) (e : Entry) (es : Dirents) (w w' : Walked)
      → walk_entries escapes l depth dir (dirent name e es) w ≡ acceptance w'
      → Entered depth dir name e es w w'
  unfolding walk_entries
  enter depth dir name e es w w' q = elim (Bool-cases (name == powerplant_meta_filename)) [
    | inl reserved ↦ absurd (ground (arith, q, reserved))
    | inr own ↦ elim (Bool-cases (escapes (child_path dir name))) [
      | inl out ↦ absurd (ground (arith, q, own, out))
      | inr inside ↦
          let (middle, entered, rest) =
            then_walk-acceptance (walk_entry escapes l depth (child_path dir name) e w)
              (λ (w1 : Walked). walk_entries escapes l depth dir es w1) (rw (own, inside) at q) in
          record {
            own_name = own;
            inside = inside;
            middle = middle;
            entered = entered;
            rest = rest;
          }
    ]
  ]

  mutual
    unfolding walk walk_entry walk_entries files_in files_of files_at IsClean AreClean IsCleanEntry

    walk_sound :
        (depth : ℕ) (dir : Option String) (d : Directory) (w w' : Walked)
        → walk escapes l depth dir d w ≡ acceptance w'
        → Within l w
        → Passes (IsClean escapes l depth dir d) l w (files_in dir d) w'
    walk_sound depth dir locked w w' q within = absurd (ground (arith, q))
    walk_sound depth dir (listed es) w w' q within = elim (Bool-cases (ltb l.max_depth depth)) [
      | inl deep ↦ absurd (ground (arith, q, deep))
      | inr shallow ↦
          let (clean, fits, same) = entries_sound depth dir es w w' (rw shallow at q) within in
          ((ground (arith, shallow), clean), fits, same)
    ]

    entries_sound :
        (depth : ℕ) (dir : Option String) (es : Dirents) (w w' : Walked)
        → walk_entries escapes l depth dir es w ≡ acceptance w'
        → Within l w
        → Passes (AreClean escapes l depth dir es) l w (files_of dir es) w'
    entries_sound depth dir no_more w w' q within =
        (tt, Fits-nil l w within, ground (arith, q, extend-nil w))
    entries_sound depth dir (dirent name e es) w w' q within =
        let s = enter depth dir name e es w w' q in
        let (clean, fits, same) =
          entry_sound depth (child_path dir name) e w s.middle s.entered within in
        let inside : Within l s.middle =
          rw same (Within-extend l w (files_at (child_path dir name) e) fits) in
        let (cleans, fits', same') = entries_sound depth dir es s.middle w' s.rest inside in
        let fits_on : Fits l (extend w (files_at (child_path dir name) e)) (files_of dir es) =
          subst (λ (m : Walked). Fits l m (files_of dir es)) same fits' in
        (
          (s.own_name, s.inside, clean, cleans),
          Fits-join l w (files_at (child_path dir name) e) (files_of dir es) fits_on,
          same'
              ∙ ap (λ (m : Walked). extend m (files_of dir es)) same
              ∙ extend-extend w (files_at (child_path dir name) e) (files_of dir es),
        )

    entry_sound :
        (depth : ℕ) (path : String) (e : Entry) (w w' : Walked)
        → walk_entry escapes l depth path e w ≡ acceptance w'
        → Within l w
        → Passes (IsCleanEntry escapes l depth path e) l w (files_at path e) w'
    entry_sound depth path no_stat w w' q within = absurd (ground (arith, q))
    entry_sound depth path symlink w w' q within = absurd (ground (arith, q))
    entry_sound depth path special w w' q within = absurd (ground (arith, q))
    entry_sound depth path (subdirectory d) w w' q within =
        walk_sound (depth + 1) (some path) d w w' q within
    entry_sound depth path (regular st) w w' q within = walk_file_sound l path st w q

  mutual
    unfolding walk walk_entry walk_entries files_in files_of files_at IsClean AreClean IsCleanEntry

    walk_complete :
        (depth : ℕ) (dir : Option String) (d : Directory) (w : Walked)
        → IsClean escapes l depth dir d
        → Fits l w (files_in dir d)
        → walk escapes l depth dir d w ≡ acceptance (extend w (files_in dir d))
    walk_complete depth dir locked w clean fits = absurd clean
    walk_complete depth dir (listed es) w clean fits =
        let shallow : ltb l.max_depth depth ≡ false = ground (arith, clean.0) in
        rw shallow (entries_complete depth dir es w clean.1 fits)

    entries_complete :
        (depth : ℕ) (dir : Option String) (es : Dirents) (w : Walked)
        → AreClean escapes l depth dir es
        → Fits l w (files_of dir es)
        → walk_entries escapes l depth dir es w ≡ acceptance (extend w (files_of dir es))
    entries_complete depth dir no_more w clean fits = ap acceptance (sym (extend-nil w))
    entries_complete depth dir (dirent name e es) w clean fits =
        let fs = files_at (child_path dir name) e in
        let (here, later) = Fits-split l w fs (files_of dir es) fits in
        let entered = entry_complete depth (child_path dir name) e w clean.2 here in
        let left = entries_complete depth dir es (extend w fs) clean.3 later in
        rw (clean.0, clean.1, entered) (left ∙ ap acceptance (extend-extend w fs (files_of dir es)))

    entry_complete :
        (depth : ℕ) (path : String) (e : Entry) (w : Walked)
        → IsCleanEntry escapes l depth path e
        → Fits l w (files_at path e)
        → walk_entry escapes l depth path e w ≡ acceptance (extend w (files_at path e))
    entry_complete depth path no_stat w clean fits = absurd clean
    entry_complete depth path symlink w clean fits = absurd clean
    entry_complete depth path special w clean fits = absurd clean
    entry_complete depth path (subdirectory d) w clean fits =
        walk_complete (depth + 1) (some path) d w clean fits
    entry_complete depth path (regular st) w clean fits =
        walk_file_complete l path st w clean.0 clean.1 fits

  -- Gate 0 accepts a source directory with a list of files exactly if the tree is clean, the files
  -- and their bytes are within the limits of a package, and the list has all files of the tree, depth
  -- first, with the sum of their sizes. A tree is clean if all its directories can be read and lie
  -- within the depth limit, and all else are files with one link, of an allowed size, none with the
  -- reserved name or a path that leads out.
  pub accepted_iff :
      (d : Directory) (w : Walked)
      → (walk_source_directory escapes l d ≡ acceptance w) ↔ (
          IsClean escapes l 0 none d
          × (length (files_in none d) ≤ l.max_file_count)
          × (sum_sizes (files_in none d) ≤ l.max_total_size_bytes)
          × (w.files ≡ files_in none d)
          × (w.total_size_bytes ≡ sum_sizes (files_in none d)))
  unfolding walk_source_directory
  accepted_iff d w = (
    (λ q.
        let (clean, fits, same) = walk_sound 0 none d start w q (omega arith) in
        (
          clean,
          omega (arith, fits.0),
          omega (arith, fits.1),
          ap (λ (m : Walked). m.files) same,
          ap (λ (m : Walked). m.total_size_bytes) same ∙ (omega arith),
        )),
    (λ h.
        walk_complete 0 none d start h.0 (omega (arith, h.1), omega (arith, h.2))
        ∙ ground (arith, h.3, h.4)),
  )
    where
      start : Walked
      start = record { files = []; total_size_bytes = 0 }
