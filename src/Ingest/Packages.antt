-- ===== src/Ingest/Packages.antt =====
-- The copy of a whole package by src/skills/skill-ingestion.ts: what `copyToSnapshot` leaves in the
-- snapshot, on success and on failure.
use mathlib.Core.List.{append_assoc, append-nil}
use claude_powerplant.Prelude.{
  ℕ, ◌+◌, ◌≤◌, ◌≡◌, ◌≢◌, refl, sym, ap, ◌∙◌, ◌⊎◌, inl, inr, List, [], ◌∷◌, ◌++◌, length, arith, All,
}
use claude_powerplant.Ingest.{Gate0Limits, ValidatedFileEntry}
use claude_powerplant.Ingest.Copy.{
  SourceFile, CopyFailure, CopyResult, copied, failed, threw, Snapshot, copy_file_secure, copy_from,
  copy_to_snapshot,
}
use claude_powerplant.Ingest.Limits.{sum_sizes}
use claude_powerplant.Ingest.Snapshots.{
  bytes_of, Unchanged, bytes_in, bytes_in-concat, copy_file-copied, copy_file-bytes,
}

-- The files of a package with the bytes that reading them gives
abbrev pub taken : (ValidatedFileEntry → SourceFile) → List ValidatedFileEntry → Snapshot
taken source [] = []
taken source (f ∷ fs) = (f.relative_path, bytes_of (source f)) ∷ taken source fs

pub copied_or_not : (r : CopyResult) → ((n : ℕ) × (r ≡ copied n)) ⊎ ((n : ℕ) → r ≢ copied n)
copied_or_not (copied n) = inl (n, refl)
copied_or_not (failed failure) = inr (λ n e. ground (arith, e))
copied_or_not threw = inr (λ n e. ground (arith, e))

pub not_copied :
    (r : CopyResult)
    → ((n : ℕ) → r ≢ copied n)
    → ((failure : CopyFailure) × (r ≡ failed failure)) ⊎ (r ≡ threw)
not_copied (copied n) never = absurd (never n refl)
not_copied (failed failure) never = inl (failure, refl)
not_copied threw never = inr refl

Unchanged-length :
    (f : ValidatedFileEntry) (sf : SourceFile)
    → Unchanged f sf
    → length (bytes_of sf) ≡ f.size_bytes
Unchanged-length f sf (h, opens, same) = rw opens same.exact

module _ (l : Gate0Limits) (source : ValidatedFileEntry → SourceFile) where
  pub copy_from-next :
      (f : ValidatedFileEntry) (fs : List ValidatedFileEntry) (bytes n : ℕ) (dest : Snapshot)
      → (copy_file_secure l bytes f (source f) dest).0 ≡ copied n
      → copy_from l source (f ∷ fs) bytes dest
        ≡ copy_from l source fs (bytes + n) (copy_file_secure l bytes f (source f) dest).1
  unfolding copy_from
  copy_from-next f fs bytes n dest e = ground (arith, e)

  copy_from-stop :
      (f : ValidatedFileEntry) (fs : List ValidatedFileEntry) (bytes : ℕ) (dest : Snapshot)
      → ((n : ℕ) → (copy_file_secure l bytes f (source f) dest).0 ≢ copied n)
      → ((n : ℕ) → (copy_from l source (f ∷ fs) bytes dest).0 ≢ copied n)
        × ((copy_from l source (f ∷ fs) bytes dest).1
            ≡ (copy_file_secure l bytes f (source f) dest).1)
  unfolding copy_from
  copy_from-stop f fs bytes dest never =
      elim (not_copied (copy_file_secure l bytes f (source f) dest).0 never) [
        | inl (failure, e) ↦ ((λ n q. ground (arith, e, q)), ground (arith, e))
        | inr e ↦ ((λ n q. ground (arith, e, q)), ground (arith, e))
      ]

  copy_from-copied :
      (fs : List ValidatedFileEntry) (bytes : ℕ) (dest : Snapshot) (n : ℕ)
      → (copy_from l source fs bytes dest).0 ≡ copied n
      → All (λ f. Unchanged f (source f)) fs
        × (n ≡ bytes + sum_sizes fs)
        × ((copy_from l source fs bytes dest).1 ≡ dest ++ taken source fs)
  unfolding copy_from
  copy_from-copied [] bytes dest n e = (tt, ground (arith, e), sym (append-nil dest))
  copy_from-copied (f ∷ fs) bytes dest n e =
      elim (copied_or_not (copy_file_secure l bytes f (source f) dest).0) [
        | inr never ↦ absurd ((copy_from-stop f fs bytes dest never).0 n e)
        | inl (k, done) ↦
            let next = copy_from-next f fs bytes k dest done in
            let (same, size, placed) = copy_file-copied l bytes f (source f) dest k done in
            let dest' = (copy_file_secure l bytes f (source f) dest).1 in
            let (others, total, placed') =
              copy_from-copied fs (bytes + k) dest' n (ap (λ r. r.0) (sym next) ∙ e) in
            (
              (same, others),
              omega (arith, total, size),
              ap (λ r. r.1) next
                  ∙ placed'
                  ∙ ap (λ (d : Snapshot). d ++ taken source fs) placed
                  ∙ append_assoc dest ((f.relative_path, bytes_of (source f)) ∷ [])
                      (taken source fs),
            )
      ]

  copy_from-bytes :
      (fs : List ValidatedFileEntry) (bytes : ℕ) (dest : Snapshot)
      → bytes_in dest ≡ bytes
      → bytes ≤ l.max_total_size_bytes
      → bytes_in (copy_from l source fs bytes dest).1 ≤ l.max_total_size_bytes
  unfolding copy_from
  copy_from-bytes [] bytes dest counted within = omega arith
  copy_from-bytes (f ∷ fs) bytes dest counted within =
      let first = copy_file-bytes l bytes f (source f) dest counted within in
      elim (copied_or_not (copy_file_secure l bytes f (source f) dest).0) [
        | inr never ↦ rw (copy_from-stop f fs bytes dest never).1 first
        | inl (k, done) ↦
            let dest' = (copy_file_secure l bytes f (source f) dest).1 in
            let (same, size, placed) = copy_file-copied l bytes f (source f) dest k done in
            let grown =
              ap bytes_in placed
              ∙ bytes_in-concat dest ((f.relative_path, bytes_of (source f)) ∷ []) in
            let total : bytes_in dest' ≡ bytes + k =
              omega (arith, grown, size, Unchanged-length f (source f) same) in
            rw (copy_from-next f fs bytes k dest done)
              (copy_from-bytes fs (bytes + k) dest' total (omega (arith, total, first)))
      ]

  -- Whatever the files of a package turn into while they are copied, the snapshot never has more bytes
  -- than a package may have; if the copy succeeds, each file is the one that the walk has validated,
  -- before and after its copy, and the snapshot has just these files, each with all the bytes that
  -- reading it gives, as many as were validated.
  pub snapshot_faithful :
      (fs : List ValidatedFileEntry)
      → (bytes_in (copy_to_snapshot l source fs).1 ≤ l.max_total_size_bytes)
        × ((n : ℕ)
            → (copy_to_snapshot l source fs).0 ≡ copied n
            → All (λ f. Unchanged f (source f)) fs
              × (n ≡ sum_sizes fs)
              × ((copy_to_snapshot l source fs).1 ≡ taken source fs))
  unfolding copy_to_snapshot
  snapshot_faithful fs = (
    copy_from-bytes fs 0 [] refl (omega arith),
    (λ n e.
        let (same, total, placed) = copy_from-copied fs 0 [] n e in
        (same, omega (arith, total), placed)),
  )
