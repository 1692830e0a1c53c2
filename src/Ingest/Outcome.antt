-- ===== src/Ingest/Outcome.antt =====
-- What an import of src/skills/skill-ingestion.ts leaves behind, by its result.
use mathlib.Core.Path.{subst}
use claude_powerplant.Prelude.{
  ◌≤◌, ◌≡◌, refl, sym, ap, ◌∙◌, inl, inr, ◌⊎◌, true, none, some, List, [], ◌∷◌, ◌++◌, put, length,
  if◌then◌else◌, arith, Bool-cases, All,
}
use claude_powerplant.Text.{units}
use claude_powerplant.Ingest.{
  Gate0Limits, Directory, ValidatedFileEntry, Rejection, Walked, WalkResult, rejection, acceptance,
}
use claude_powerplant.Ingest.Walk.{walk_source_directory}
use claude_powerplant.Ingest.Limits.{sum_sizes, files_in, IsClean}
use claude_powerplant.Ingest.Acceptance.{accepted_iff}
use claude_powerplant.Ingest.Copy.{Snapshot, copy_to_snapshot}
use claude_powerplant.Ingest.Snapshots.{Unchanged}
use claude_powerplant.Ingest.Packages.{taken, copied_or_not, not_copied, snapshot_faithful}
use claude_powerplant.Ingest.Schema.{
  CandidateManifest, Gate1Issue, Gate1Result, gate1_success, gate1_failure,
  validate_candidate_schema,
}
use claude_powerplant.Ingest.Import.{
  SourcePath, missing, link, not_directory, root, Gate0Reason, source_missing, source_link,
  source_not_directory, walk_rejected, copy_failed, log, rejected_at_gate0, rejected_at_gate1,
  imported, ImportStore, IngestionResult, ingested, failed_gate0, failed_gate1, ingestion_threw,
  ImportEnv, reject_gate0, with_candidate, quarantined, gate1, copy_package, ingest_skill_package,
}
use claude_powerplant.Ingest.Untrusted.{ChecksNames, Untrusted, validate-Untrusted}

-- The package that an import has taken: the root of a clean tree within the limits, with files that
-- did not change while they were copied.
pub record Package (env : ImportEnv) (l : Gate0Limits) (d : Directory) : Type 0 where
  pub source_root : env.source_path ≡ root d
  pub clean : IsClean env.escapes l 0 none d
  pub few : length (files_in none d) ≤ l.max_file_count
  pub small : sum_sizes (files_in none d) ≤ l.max_total_size_bytes
  pub unchanged : All (λ f. Unchanged f (env.source f)) (files_in none d)

-- The store of an import that has taken the files of a package
abbrev pub Stored : ImportEnv → Directory → CandidateManifest → ImportStore → ImportStore → Type 0
Stored env d m s s' = s' ≡ record s {
  candidates =
      put env.candidate_id (record { snapshot = taken env.source (files_in none d); meta = some m })
        s.candidates;
  audit = s.audit ++ imported env.candidate_id m.name ∷ [];
}

-- What each result says of the store
abbrev pub Leaves : ImportEnv → Gate0Limits → ImportStore → IngestionResult → ImportStore → Type 0
Leaves env l s (ingested id name) s' =
    (id ≡ env.candidate_id)
    × ((d : Directory) × Package env l d
        × ((m : CandidateManifest) × (m.name ≡ name) × Untrusted id m × Stored env d m s s'))
Leaves env l s (failed_gate0 reason) s' =
    (env.removes ≡ true → s'.candidates ≡ s.candidates)
    × (s'.quarantine ≡ s.quarantine)
    × (s'.audit ≡ s.audit ++ rejected_at_gate0 reason ∷ [])
Leaves env l s (failed_gate1 issue id) s' =
    (id ≡ env.candidate_id)
    × ((d : Directory) × Package env l d
        × (env.moves ≡ true
            → (s'.candidates ≡ s.candidates)
              × (s'.quarantine ≡ put id (taken env.source (files_in none d)) s.quarantine)))
    × (s'.audit ≡ s.audit ++ rejected_at_gate1 issue id ∷ [])
Leaves env l s ingestion_threw s' = (s'.quarantine ≡ s.quarantine) × (s'.audit ≡ s.audit)

Gate1-cases :
    (r : Gate1Result)
    → ((m : CandidateManifest) × (r ≡ gate1_success m))
      ⊎ ((issue : Gate1Issue) × (r ≡ gate1_failure issue))
Gate1-cases (gate1_success m) = inl (m, refl)
Gate1-cases (gate1_failure issue) = inr (issue, refl)

Walk-cases :
    (r : WalkResult)
    → ((w : Walked) × (r ≡ acceptance w)) ⊎ ((why : Rejection) × (r ≡ rejection why))
Walk-cases (acceptance w) = inl (w, refl)
Walk-cases (rejection why) = inr (why, refl)

module _ (env : ImportEnv) (l : Gate0Limits) (s : ImportStore) where
  -- What a result leaves, said of the pair that is returned
  at_result :
      {p q : IngestionResult × ImportStore}
      → p ≡ q
      → Leaves env l s q.0 q.1
      → Leaves env l s p.0 p.1
  at_result e h = subst (λ (r : IngestionResult × ImportStore). Leaves env l s r.0 r.1) (sym e) h

  moved-Leaves :
      (d : Directory)
      → Package env l d
      → (issue : Gate1Issue) (snapshot : Snapshot) → snapshot ≡ taken env.source (files_in none d)
      → Leaves env l s (failed_gate1 issue env.candidate_id) (
          log
            (rejected_at_gate1 issue env.candidate_id)
            (quarantined env.moves env.candidate_id snapshot s))
  unfolding quarantined
  moved-Leaves d shown issue snapshot same = elim (Bool-cases env.moves) [
    | inl moved ↦ (
      refl,
      (d, shown, (λ _. (ground (arith, moved), ground (arith, moved, same)))),
      ground (arith, moved),
    )
    | inr kept ↦
        (refl, (d, shown, (λ moved. absurd (ground (arith, moved, kept)))), ground (arith, kept))
  ]

  gate1-Leaves :
      ChecksNames env.reader
      → (d : Directory) → Package env l d
      → (snapshot : Snapshot) → snapshot ≡ taken env.source (files_in none d)
      → Leaves env l s (gate1 env snapshot s).0 (gate1 env snapshot s).1
  unfolding gate1 quarantined
  gate1-Leaves checks d shown snapshot same =
      let verdict =
        validate_candidate_schema env.reader env.now snapshot env.candidate_id
          (units env.candidate_id) in
      elim (Gate1-cases verdict) [
        | inl (m, passed) ↦
            let untrusted =
              validate-Untrusted env.reader checks env.now snapshot env.candidate_id
                (units env.candidate_id) m passed in
            let run : gate1 env snapshot s ≡ (
              ingested env.candidate_id m.name,
              log (imported env.candidate_id m.name)
                  (with_candidate env.candidate_id snapshot (some m) s),
            ) =
              ground (arith, passed) in
            at_result run (refl, (d, shown, (m, refl, untrusted, ground (arith, same))))
        | inr (issue, refused) ↦
            let run : gate1 env snapshot s ≡ (
              failed_gate1 issue env.candidate_id,
              log (rejected_at_gate1 issue env.candidate_id)
                  (quarantined env.moves env.candidate_id snapshot s),
            ) =
              ground (arith, refused) in
            at_result run (moved-Leaves d shown issue snapshot same)
      ]

  reject-Leaves :
      (reason : Gate0Reason) → Leaves env l s (reject_gate0 reason s).0 (reject_gate0 reason s).1
  unfolding reject_gate0
  reject-Leaves reason = ((λ _. refl), refl, refl)

  copy-Leaves :
      ChecksNames env.reader
      → (d : Directory) (w : Walked) → env.source_path ≡ root d
      → walk_source_directory env.escapes l d ≡ acceptance w
      → Leaves env l s (copy_package env l w.files s).0 (copy_package env l w.files s).1
  unfolding copy_package reject_gate0
  copy-Leaves checks d w rooted walked =
      let (clean, few, small, same, total) = (accepted_iff env.escapes l d w).0 walked in
      let copy = copy_to_snapshot l env.source w.files in
      elim (copied_or_not copy.0) [
        | inl (n, done) ↦
            let (unchanged, bytes, snap) = (snapshot_faithful l env.source w.files).1 n done in
            let run : copy_package env l w.files s ≡ gate1 env copy.1 s = ground (arith, done) in
            at_result run (
              gate1-Leaves checks d
                (record {
                  source_root = rooted;
                  clean = clean;
                  few = few;
                  small = small;
                  unchanged = rw (← same) unchanged;
                })
                copy.1 (snap ∙ ap (λ (fs : List ValidatedFileEntry). taken env.source fs) same))
        | inr never ↦ elim (not_copied copy.0 never) [
          | inl (failure, e) ↦
              let cleaned =
                if env.removes then s else with_candidate env.candidate_id copy.1 none s in
              let run : copy_package env l w.files s ≡ reject_gate0 (copy_failed failure) cleaned =
                ground (arith, e) in
              at_result run (
                (λ gone. ground (arith, gone)),
                (elim (Bool-cases env.removes) [
                  | inl gone ↦ ground (arith, gone)
                  | inr stays ↦ ground (arith, stays)
                ]),
                (elim (Bool-cases env.removes) [
                  | inl gone ↦ ground (arith, gone)
                  | inr stays ↦ ground (arith, stays)
                ]),
              )
          | inr e ↦
              let run : copy_package env l w.files s
                  ≡ (ingestion_threw, with_candidate env.candidate_id copy.1 none s) =
                ground (arith, e) in
              at_result run (refl, refl)
        ]
      ]

  Path-cases :
      (p : SourcePath)
      → env.source_path ≡ p
      → ((d : Directory) × (env.source_path ≡ root d))
        ⊎ ((reason : Gate0Reason) × (ingest_skill_package env l s ≡ reject_gate0 reason s))
  unfolding ingest_skill_package
  Path-cases (root d) e = inl (d, e)
  Path-cases missing e = inr (source_missing, ground (arith, e))
  Path-cases link e = inr (source_link, ground (arith, e))
  Path-cases not_directory e = inr (source_not_directory, ground (arith, e))

  -- Each import leaves what its result says. A success has stored, under the new identifier, a snapshot
  -- with just the files of a clean source tree within the limits, each unchanged while it was copied,
  -- and a manifest with that identifier, a valid name and no hash, and has logged the import. A failure
  -- at Gate 0 has logged that, and has left the candidates alone if what was copied could be removed.
  -- A failure at Gate 1 has logged that, and has put the snapshot of such a tree into quarantine, and
  -- left the candidates alone, if it could be moved. An error that is thrown is not logged.
  -- The condition is that the schema of a manifest checks its name.
  pub ingest-Leaves :
      ChecksNames env.reader
      → Leaves env l s (ingest_skill_package env l s).0 (ingest_skill_package env l s).1
  unfolding ingest_skill_package
  ingest-Leaves checks = elim (Path-cases env.source_path refl) [
    | inr (reason, stopped) ↦ at_result stopped (reject-Leaves reason)
    | inl (d, rooted) ↦ elim (Walk-cases (walk_source_directory env.escapes l d)) [
      | inl (w, walked) ↦
          let run : ingest_skill_package env l s ≡ copy_package env l w.files s =
            ground (arith, rooted, walked) in
          at_result run (copy-Leaves checks d w rooted walked)
      | inr (why, refused) ↦
          let run : ingest_skill_package env l s ≡ reject_gate0 (walk_rejected why) s =
            ground (arith, rooted, refused) in
          at_result run (reject-Leaves (walk_rejected why))
    ]
  ]
