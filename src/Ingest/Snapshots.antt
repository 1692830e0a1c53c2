-- ===== src/Ingest/Snapshots.antt =====
-- The snapshot that the import of src/skills/skill-ingestion.ts makes of the files of a package.
use claude_powerplant.Prelude.{
  ℕ, ◌+◌, ◌≤◌, ◌≡◌, refl, sym, ap, ◌∙◌, inl, inr, ◌⊎◌, ◌≢◌, String, true, false, none, List, [],
  ◌∷◌, ◌++◌, put, get, put_of_absent, length, is_some, arith, Bool-cases, Option-cases,
}
use claude_powerplant.Ingest.{Gate0Limits, ValidatedFileEntry}
use claude_powerplant.Ingest.Copy.{
  Handle, SourceFile, unopened, opened, Creation, creates, fails, copied, Copying, handle_failure,
  copy_chunks, identity_changed, Snapshot, leave_failed, settle, copy_file_secure,
}
use claude_powerplant.Ingest.Budget.{content, copy_chunks-Fitting, copy_chunks-content}

-- The bytes that reading a source gives
abbrev pub bytes_of : SourceFile → List ℕ
bytes_of (unopened error_code) = []
bytes_of (opened h) = content h.reads

-- The source of an entry is the file that the walk has seen, before and after, and gives as many bytes
-- as the walk has seen.
pub record IsUnchanged (entry : ValidatedFileEntry) (h : Handle) : Type 0 where
  pub is_file : h.pre_stat.is_file ≡ true
  pub ino : h.pre_stat.ino ≡ entry.ino
  pub dev : h.pre_stat.dev ≡ entry.dev
  pub one_link : h.pre_stat.nlink ≤ 1
  pub mtime : h.pre_stat.mtime_ms ≡ entry.mtime_ms
  pub size_after : h.post_stat.size ≡ entry.size_bytes
  pub mtime_after : h.post_stat.mtime_ms ≡ entry.mtime_ms
  pub ctime_after : h.post_stat.ctime_ms ≡ h.pre_stat.ctime_ms
  pub exact : length (content h.reads) ≡ entry.size_bytes

abbrev pub Unchanged : ValidatedFileEntry → SourceFile → Type 0
Unchanged entry sf = (h : Handle) × (sf ≡ opened h) × IsUnchanged entry h

abbrev pub bytes_in : Snapshot → ℕ
bytes_in [] = 0
bytes_in ((path, bytes) ∷ dest) = length bytes + bytes_in dest

pub bytes_in-concat :
    (dest dest' : Snapshot) → bytes_in (dest ++ dest') ≡ bytes_in dest + bytes_in dest'
bytes_in-concat [] dest' = omega arith
bytes_in-concat ((path, bytes) ∷ dest) dest' = omega (arith, bytes_in-concat dest dest')

absent_of_test : (dest : Snapshot) (k : String) → is_some (get dest k) ≡ false → get dest k ≡ none
absent_of_test dest k e = elim (Option-cases (get dest k)) [
  | inl absent ↦ absent
  | inr (bytes, found) ↦ absurd (ground (arith, e, found))
]

creation_cases : (c : Creation) → (c ≡ creates) ⊎ (c ≡ fails)
creation_cases creates = inl refl
creation_cases fails = inr refl

module _ (l : Gate0Limits) (prior : ℕ) (entry : ValidatedFileEntry) where
  -- The end of a copy that has succeeded
  settle-copied :
      (h : Handle) (c : Copying) (dest : Snapshot) (n : ℕ)
      → (settle entry h c dest).0 ≡ copied n
      → (c.copy_error ≡ none)
        × (identity_changed entry h.pre_stat h.post_stat ≡ false)
        × (n ≡ entry.size_bytes)
        × ((settle entry h c dest).1 ≡ put entry.relative_path c.written dest)
  unfolding settle
  settle-copied h c dest n e = elim (Option-cases c.copy_error) [
    | inr (failure, bad) ↦ absurd (ground (arith, e, bad))
    | inl good ↦ elim (Bool-cases (identity_changed entry h.pre_stat h.post_stat)) [
      | inl moved ↦ absurd (ground (arith, e, good, moved))
      | inr still ↦ (good, still, ground (arith, e, good, still), ground (arith, good, still))
    ]
  ]

  settle-bytes :
      (h : Handle) (c : Copying) (dest : Snapshot)
      → get dest entry.relative_path ≡ none
      → bytes_in (settle entry h c dest).1 ≤ bytes_in dest + length c.written
  unfolding settle leave_failed
  settle-bytes h c dest absent =
      let placed = put_of_absent entry.relative_path c.written dest absent in
      let counted = bytes_in-concat dest ((entry.relative_path, c.written) ∷ []) in
      elim (Option-cases c.copy_error) [
        | inr (failure, bad) ↦ elim (Bool-cases h.unlinks) [
          | inl gone ↦ rw (bad, gone) (omega arith)
          | inr kept ↦ rw (bad, kept, placed) (omega (arith, counted))
        ]
        | inl good ↦ elim (Bool-cases (identity_changed entry h.pre_stat h.post_stat)) [
          | inr still ↦ rw (good, still, placed) (omega (arith, counted))
          | inl moved ↦ elim (Bool-cases h.unlinks) [
            | inl gone ↦ rw (good, moved, gone) (omega arith)
            | inr kept ↦ rw (good, moved, kept, placed) (omega (arith, counted))
          ]
        ]
      ]

  handle-IsUnchanged :
      (h : Handle)
      → handle_failure entry h.pre_stat ≡ none
      → identity_changed entry h.pre_stat h.post_stat ≡ false
      → length (content h.reads) ≡ entry.size_bytes
      → IsUnchanged entry h
  unfolding handle_failure identity_changed
  handle-IsUnchanged h e still exact = ground (arith, e, still, exact)

  -- The copy of a source that has opened and passed its checks, on a free path
  pub copy_file-opened :
      (h : Handle) (dest : Snapshot)
      → handle_failure entry h.pre_stat ≡ none
      → is_some (get dest entry.relative_path) ≡ false
      → h.creation ≡ creates
      → copy_file_secure l prior entry (opened h) dest
        ≡ settle entry h (copy_chunks l entry prior h.syncs h.reads 0 []) dest
  unfolding copy_file_secure
  copy_file-opened h dest seen free made = ground (arith, seen, free, made)

  -- Else it gives no file and writes nothing.
  copy_file-cases :
      (sf : SourceFile) (dest : Snapshot)
      → ((h : Handle) × (sf ≡ opened h)
          × (handle_failure entry h.pre_stat ≡ none)
          × (is_some (get dest entry.relative_path) ≡ false)
          × (h.creation ≡ creates))
        ⊎ (((n : ℕ) → (copy_file_secure l prior entry sf dest).0 ≢ copied n)
            × ((copy_file_secure l prior entry sf dest).1 ≡ dest))
  unfolding copy_file_secure
  copy_file-cases (unopened error_code) dest = inr ((λ n e. ground (arith, e)), refl)
  copy_file-cases (opened h) dest = elim (Option-cases (handle_failure entry h.pre_stat)) [
    | inr (failure, bad) ↦ inr ((λ n e. ground (arith, e, bad)), ground (arith, bad))
    | inl seen ↦ elim (Bool-cases (is_some (get dest entry.relative_path))) [
      | inl taken ↦ inr ((λ n e. ground (arith, e, seen, taken)), ground (arith, seen, taken))
      | inr free ↦ elim (creation_cases h.creation) [
        | inl made ↦ inl (h, refl, seen, free, made)
        | inr unmade ↦
            inr ((λ n e. ground (arith, e, seen, free, unmade)), ground (arith, seen, free, unmade))
      ]
    ]
  ]

  -- A file that is copied is unchanged, and its bytes go to the end of the snapshot.
  pub copy_file-copied :
      (sf : SourceFile) (dest : Snapshot) (n : ℕ)
      → (copy_file_secure l prior entry sf dest).0 ≡ copied n
      → Unchanged entry sf
        × (n ≡ entry.size_bytes)
        × ((copy_file_secure l prior entry sf dest).1
            ≡ dest ++ (entry.relative_path, bytes_of sf) ∷ [])
  copy_file-copied sf dest n e = elim (copy_file-cases sf dest) [
    | inr (never, same) ↦ absurd (never n e)
    | inl (h, opens, seen, free, made) ↦
        let c = copy_chunks l entry prior h.syncs h.reads 0 [] in
        let run = copy_file-opened h dest seen free made in
        let settled : (settle entry h c dest).0 ≡ copied n =
          ap (λ r. r.0) (sym run) ∙ (rw opens at e) in
        let (good, still, exact, placed) = settle-copied h c dest n settled in
        let (written, counted) = copy_chunks-content l entry prior h.syncs h.reads 0 [] refl good in
        (
          (h, opens, handle-IsUnchanged h seen still counted),
          exact,
          rw (opens, run)
              (placed
                ∙ ap (λ (bytes : List ℕ). put entry.relative_path bytes dest) written
                ∙ put_of_absent entry.relative_path (content h.reads) dest
                    (absent_of_test dest entry.relative_path free)),
        )
  ]

  -- A copy that succeeds or not leaves the snapshot within the budget.
  pub copy_file-bytes :
      (sf : SourceFile) (dest : Snapshot)
      → bytes_in dest ≡ prior
      → prior ≤ l.max_total_size_bytes
      → bytes_in (copy_file_secure l prior entry sf dest).1 ≤ l.max_total_size_bytes
  copy_file-bytes sf dest counted within = elim (copy_file-cases sf dest) [
    | inr (never, same) ↦ rw same (omega arith)
    | inl (h, opens, seen, free, made) ↦
        let c = copy_chunks l entry prior h.syncs h.reads 0 [] in
        let fit =
          copy_chunks-Fitting l entry prior h.syncs h.reads 0 [] refl
            (record { of_entry = omega arith; of_file = omega arith; of_package = omega arith }) in
        let grown = settle-bytes h c dest (absent_of_test dest entry.relative_path free) in
        rw (opens, copy_file-opened h dest seen free made) (omega (arith, grown, fit.of_package))
  ]
