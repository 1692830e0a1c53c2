-- ===== src/Ingest/Budget.antt =====
-- What the copy of src/skills/skill-ingestion.ts writes for one file: never more than the budgets, and
-- on success the bytes that were read, as many as the walk has validated.
use mathlib.Core.List.{append_assoc, append-nil}
use claude_powerplant.Prelude.{
  ℕ, ◌+◌, ◌≤◌, ◌≡◌, refl, sym, ◌∙◌, inl, inr, Bool, none, List, [], ◌∷◌, ◌++◌, length, eqb,
  if◌then◌else◌, arith, Bool-cases, Option-cases,
}
use claude_powerplant.Ingest.{Gate0Limits, ValidatedFileEntry}
use claude_powerplant.Ingest.Copy.{
  Read, chunk, read_error, budget_failure, finish_copy, copy_chunks,
}

pub length-join : (xs ys : List ℕ) → length (xs ++ ys) ≡ length xs + length ys
length-join [] ys = omega arith
length-join (x ∷ xs) ys = omega (arith, length-join xs ys)

-- What the reads give up to the end of the file
abbrev pub content : List Read → List ℕ
content [] = []
content (read_error ∷ rs) = []
content (chunk bs writes ∷ rs) = if eqb (length bs) 0 then [] else bs ++ content rs

-- A count of bytes that no budget forbids
pub record Fitting (l : Gate0Limits) (entry : ValidatedFileEntry) (prior n : ℕ) : Type 0 where
  pub of_entry : n ≤ entry.size_bytes
  pub of_file : n ≤ l.max_file_size_bytes
  pub of_package : prior + n ≤ l.max_total_size_bytes

budget_failure-Fitting :
    (l : Gate0Limits) (entry : ValidatedFileEntry) (prior n : ℕ)
    → budget_failure l entry prior n ≡ none
    → Fitting l entry prior n
unfolding budget_failure
budget_failure-Fitting l entry prior n e = ground arith

finish_copy-exact :
    (entry : ValidatedFileEntry) (syncs : Bool) (n : ℕ) (written : List ℕ)
    → (finish_copy entry syncs n written).copy_error ≡ none
    → n ≡ entry.size_bytes
unfolding finish_copy
finish_copy-exact entry syncs n written e = ground (arith, e)

finish_copy-written :
    (entry : ValidatedFileEntry) (syncs : Bool) (n : ℕ) (written : List ℕ)
    → (finish_copy entry syncs n written).written ≡ written
unfolding finish_copy
finish_copy-written entry syncs n written = refl

module _ (l : Gate0Limits) (entry : ValidatedFileEntry) (prior : ℕ) (syncs : Bool) where
  pub copy_chunks-Fitting :
      (rs : List Read) (n : ℕ) (written : List ℕ)
      → length written ≡ n
      → Fitting l entry prior n
      → Fitting l entry prior (length (copy_chunks l entry prior syncs rs n written).written)
  unfolding copy_chunks
  copy_chunks-Fitting [] n written e fit = rw (finish_copy-written entry syncs n written, e) fit
  copy_chunks-Fitting (read_error ∷ rs) n written e fit = rw e fit
  copy_chunks-Fitting (chunk bs writes ∷ rs) n written e fit =
      elim (Bool-cases (eqb (length bs) 0)) [
        | inl ended ↦ rw (ended, finish_copy-written entry syncs n written, e) fit
        | inr more ↦ elim (Option-cases (budget_failure l entry prior (n + length bs))) [
          | inr (failure, over) ↦ rw (more, over, e) fit
          | inl under ↦ elim (Bool-cases writes) [
            | inr stuck ↦ rw (more, under, stuck, e) fit
            | inl wrote ↦
                rw (more, under, wrote)
                  (copy_chunks-Fitting rs (n + length bs) (written ++ bs)
                    (length-join written bs ∙ (rw e refl))
                    (budget_failure-Fitting l entry prior (n + length bs) under))
          ]
        ]
      ]

  pub copy_chunks-content :
      (rs : List Read) (n : ℕ) (written : List ℕ)
      → length written ≡ n
      → (copy_chunks l entry prior syncs rs n written).copy_error ≡ none
      → ((copy_chunks l entry prior syncs rs n written).written ≡ written ++ content rs)
        × (length (written ++ content rs) ≡ entry.size_bytes)
  unfolding copy_chunks
  copy_chunks-content [] n written e done = (
    finish_copy-written entry syncs n written ∙ sym (append-nil written),
    rw (append-nil written) (e ∙ finish_copy-exact entry syncs n written done),
  )
  copy_chunks-content (read_error ∷ rs) n written e done = absurd (ground (arith, done))
  copy_chunks-content (chunk bs writes ∷ rs) n written e done =
      elim (Bool-cases (eqb (length bs) 0)) [
        | inl ended ↦
            rw (ended, append-nil written)
              (
                finish_copy-written entry syncs n written,
                e ∙ finish_copy-exact entry syncs n written (rw ended at done),
              )
        | inr more ↦ elim (Option-cases (budget_failure l entry prior (n + length bs))) [
          | inr (failure, over) ↦ absurd (ground (arith, done, more, over))
          | inl under ↦ elim (Bool-cases writes) [
            | inr stuck ↦ absurd (ground (arith, done, more, under, stuck))
            | inl wrote ↦
                rw (more, under, wrote, ← append_assoc written bs (content rs))
                  (copy_chunks-content rs (n + length bs) (written ++ bs)
                    (length-join written bs ∙ (rw e refl)) (rw (more, under, wrote) at done))
          ]
        ]
      ]
