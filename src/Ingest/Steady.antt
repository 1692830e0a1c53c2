-- ===== src/Ingest/Steady.antt =====
-- The copy of src/skills/skill-ingestion.ts succeeds on files that nobody touches.
use mathlib.Core.Path.{subst}
use claude_powerplant.Prelude.{
  ℕ, ◌+◌, ◌≤◌, ◌≡◌, refl, sym, ap, ◌∙◌, inl, inr, String, ◌==◌, eq_iff, Bool, true, false, none,
  List, [], ◌∷◌, ◌++◌, get, has, Distinct, length, eqb, is_some, arith, Bool-cases, All,
}
use claude_powerplant.Ingest.{Gate0Limits, ValidatedFileEntry}
use claude_powerplant.Ingest.Copy.{
  Read, chunk, read_error, Handle, SourceFile, opened, creates, copied, handle_failure, Copying,
  budget_failure, finish_copy, copy_chunks, identity_changed, Snapshot, settle, copy_file_secure,
  copy_from, copy_to_snapshot,
}
use claude_powerplant.Ingest.Limits.{sum_sizes}
use claude_powerplant.Ingest.Budget.{content, length-join}
use claude_powerplant.Ingest.Snapshots.{bytes_of, IsUnchanged, copy_file-opened, copy_file-copied}
use claude_powerplant.Ingest.Packages.{copy_from-next}

-- Reads without an error, whose chunks can all be written
abbrev pub Flows : List Read → Type 0
Flows [] = Unit
Flows (read_error ∷ rs) = ⊥
Flows (chunk bs writes ∷ rs) = (writes ≡ true) × Flows rs

-- A file that stays as the walk has seen it, on a system that reads and writes
pub record IsSteady (entry : ValidatedFileEntry) (h : Handle) : Type 0 where
  pub unchanged : IsUnchanged entry h
  pub made : h.creation ≡ creates
  pub flows : Flows h.reads
  pub synced : h.syncs ≡ true

abbrev pub Steady : ValidatedFileEntry → SourceFile → Type 0
Steady entry sf = (h : Handle) × (sf ≡ opened h) × IsSteady entry h

abbrev pub paths : List ValidatedFileEntry → List String
paths [] = []
paths (f ∷ fs) = f.relative_path ∷ paths fs

module _ (l : Gate0Limits) (entry : ValidatedFileEntry) (prior : ℕ) (syncs : Bool) where
  finish_copy-none :
      (n : ℕ) (written : List ℕ)
      → syncs ≡ true
      → n ≡ entry.size_bytes
      → (finish_copy entry syncs n written).copy_error ≡ none
  unfolding finish_copy
  finish_copy-none n written synced e = ground (arith, synced, e)

  budget_failure-none :
      (n : ℕ)
      → n ≤ entry.size_bytes
      → entry.size_bytes ≤ l.max_file_size_bytes
      → prior + entry.size_bytes ≤ l.max_total_size_bytes
      → budget_failure l entry prior n ≡ none
  unfolding budget_failure
  budget_failure-none n a b c = ground arith

  copy_chunks-Flows :
      (rs : List Read) (n : ℕ) (written : List ℕ)
      → Flows rs
      → syncs ≡ true
      → n + length (content rs) ≡ entry.size_bytes
      → entry.size_bytes ≤ l.max_file_size_bytes
      → prior + entry.size_bytes ≤ l.max_total_size_bytes
      → (copy_chunks l entry prior syncs rs n written).copy_error ≡ none
  unfolding copy_chunks
  copy_chunks-Flows [] n written flows synced e small fits =
      finish_copy-none n written synced (omega (arith, e))
  copy_chunks-Flows (read_error ∷ rs) n written flows synced e small fits = absurd flows
  copy_chunks-Flows (chunk bs writes ∷ rs) n written flows synced e small fits =
      elim (Bool-cases (eqb (length bs) 0)) [
        | inl ended ↦
            let whole : n + 0 ≡ entry.size_bytes = rw ended at e in
            rw ended (finish_copy-none n written synced (omega (arith, whole)))
        | inr more ↦
            let parts : n + length (bs ++ content rs) ≡ entry.size_bytes = rw more at e in
            let joined = length-join bs (content rs) in
            rw
              (
                more,
                budget_failure-none (n + length bs) (omega (arith, parts, joined)) small fits,
                flows.0,
              )
              (copy_chunks-Flows rs (n + length bs) (written ++ bs) flows.1 synced
                (omega (arith, parts, joined)) small fits)
      ]

module _ (l : Gate0Limits) (entry : ValidatedFileEntry) (prior : ℕ) where
  settle-IsUnchanged :
      (h : Handle) (c : Copying) (dest : Snapshot)
      → IsUnchanged entry h
      → c.copy_error ≡ none
      → (settle entry h c dest).0 ≡ copied entry.size_bytes
  unfolding settle identity_changed
  settle-IsUnchanged h c dest same good = ground (arith, good)

  handle_failure-none : (h : Handle) → IsUnchanged entry h → handle_failure entry h.pre_stat ≡ none
  unfolding handle_failure
  handle_failure-none h same = ground arith

  copy_file-Steady :
      (sf : SourceFile) (dest : Snapshot)
      → Steady entry sf
      → get dest entry.relative_path ≡ none
      → entry.size_bytes ≤ l.max_file_size_bytes
      → prior + entry.size_bytes ≤ l.max_total_size_bytes
      → (copy_file_secure l prior entry sf dest).0 ≡ copied entry.size_bytes
  copy_file-Steady sf dest (h, opens, steady) absent small fits =
      let good =
        copy_chunks-Flows l entry prior h.syncs h.reads 0 [] steady.flows steady.synced
          (omega (arith, steady.unchanged.exact)) small fits in
      rw
        (
          opens,
          copy_file-opened l prior entry h dest (handle_failure-none h steady.unchanged)
              (ap is_some absent) steady.made,
        )
        (settle-IsUnchanged h (copy_chunks l entry prior h.syncs h.reads 0 []) dest steady.unchanged
          good)

get-concat_other :
    (dest : Snapshot) (p k : String) (v : List ℕ)
    → get dest k ≡ none
    → (p == k) ≡ false
    → get (dest ++ (p, v) ∷ []) k ≡ none
unfolding get
get-concat_other [] p k v e other = ground (arith, other)
get-concat_other ((j, w) ∷ dest) p k v e other =
    ground (arith, get-concat_other dest p k v, e, other)

-- None of the paths is taken.
abbrev Free : Snapshot → List ValidatedFileEntry → Type 0
Free dest fs = All (λ f. get dest f.relative_path ≡ none) fs

Free-concat :
    (dest : Snapshot) (p : String) (v : List ℕ) (fs : List ValidatedFileEntry)
    → Free dest fs
    → has (paths fs) p ≡ false
    → Free (dest ++ (p, v) ∷ []) fs
unfolding has
Free-concat dest p v [] free fresh = tt
Free-concat dest p v (f ∷ fs) free fresh =
    let apart : (p == f.relative_path) ≡ false =
      ground (arith, fresh, eq_iff p f.relative_path, eq_iff f.relative_path p) in
    (
      get-concat_other dest p f.relative_path v free.0 apart,
      Free-concat dest p v fs free.1 (ground (arith, fresh)),
    )

Free-nil : (fs : List ValidatedFileEntry) → Free [] fs
unfolding get
Free-nil [] = tt
Free-nil (f ∷ fs) = (refl, Free-nil fs)

module _ (l : Gate0Limits) (source : ValidatedFileEntry → SourceFile) where
  copy_from-Steady :
      (fs : List ValidatedFileEntry) (bytes : ℕ) (dest : Snapshot)
      → All (λ f. Steady f (source f)) fs
      → All (λ f. f.size_bytes ≤ l.max_file_size_bytes) fs
      → bytes + sum_sizes fs ≤ l.max_total_size_bytes
      → Free dest fs
      → Distinct (paths fs)
      → (copy_from l source fs bytes dest).0 ≡ copied (bytes + sum_sizes fs)
  unfolding copy_from
  copy_from-Steady [] bytes dest steady small fits free apart = ap copied (omega arith)
  copy_from-Steady (f ∷ fs) bytes dest steady small fits free apart =
      let done =
        copy_file-Steady l f bytes (source f) dest steady.0 free.0 small.0 (omega (arith, fits)) in
      let placed = (copy_file-copied l bytes f (source f) dest f.size_bytes done).2 in
      let free' =
        subst (λ (d : Snapshot). Free d fs) (sym placed)
          (Free-concat dest f.relative_path (bytes_of (source f)) fs free.1 apart.0) in
      ap (λ r. r.0) (copy_from-next l source f fs bytes f.size_bytes dest done)
      ∙ copy_from-Steady fs (bytes + f.size_bytes) (copy_file_secure l bytes f (source f) dest).1
          steady.1 small.1 (omega (arith, fits)) free' apart.1
      ∙ ap copied (omega arith)

  -- The copy of files that stay as they are, small enough, at distinct paths, succeeds.
  pub copy_to_snapshot-Steady :
      (fs : List ValidatedFileEntry)
      → All (λ f. Steady f (source f)) fs
      → All (λ f. f.size_bytes ≤ l.max_file_size_bytes) fs
      → sum_sizes fs ≤ l.max_total_size_bytes
      → Distinct (paths fs)
      → (copy_to_snapshot l source fs).0 ≡ copied (sum_sizes fs)
  unfolding copy_to_snapshot
  copy_to_snapshot-Steady fs steady small fits apart =
      copy_from-Steady fs 0 [] steady small (omega (arith, fits)) (Free-nil fs) apart
      ∙ ap copied (omega arith)
