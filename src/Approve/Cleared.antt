-- ===== src/Approve/Cleared.antt =====
-- What the steps of `cmdApprove` in src/cli/commands/approve.ts make sure of before git is asked to change
-- a repository.
use mathlib.Core.Path.{subst}
use claude_powerplant.Prelude.{
  ℕ, ◌≡◌, refl, sym, ap, ◌∙◌, inl, inr, ◌⊎◌, String, ◌==◌, Bool, true, Option, some, List, length,
  eqb, eqb_iff, eq_iff, ◌≢◌, false, arith, Bool-cases, Option-cases, All,
}
use claude_powerplant.Text.{units, trim}
use claude_powerplant.Broker.{Attempt, done, threw}
use claude_powerplant.Approve.{SourceManifest, is_clean, check_source_drift}
use claude_powerplant.Approve.Command.{
  run_id_of, Artifacts, ApproveEnv, Stop, Ready, Prepared, stop, ready, clear_run, read_run,
  prepare, extract_task_subject,
}
use claude_powerplant.Approve.Drift.{Same, drift_iff}

-- What the steps before git have made sure of. What the summary says of the verification is handed on,
-- whatever it is.
pub record Cleared (env : ApproveEnv) (args : List String) (r : Ready) : Type 0 where
  pub named : run_id_of args ≡ some r.run_id
  pub not_blank : length (trim (units r.run_id)) ≢ 0
  pub artifacts : Artifacts
  pub stored : env.run_dir r.run_id ≡ some artifacts
  pub patch : artifacts.patch ≡ some r.patch
  pub manifest : artifacts.source_manifest ≡ some (some r.manifest)
  pub sourced : r.manifest.source_path ≢ ""
  pub task : List ℕ
  pub described : artifacts.task_md ≡ some task
  pub titled : r.task_subject ≡ extract_task_subject task
  pub summary : artifacts.session_summary ≡ some r.passed
  pub undrifted : All (Same env.sha env.disk) r.manifest.files
  pub hashed : env.run_hash ≡ done r.evidence_hash
  pub fits : env.git.patch_applies ≡ true

pub Prepared-cases :
    (p : Prepared) → ((why : Stop) × (p ≡ stop why)) ⊎ ((r : Ready) × (p ≡ ready r))
Prepared-cases (stop why) = inl (why, refl)
Prepared-cases (ready r) = inr (r, refl)

pub Tries :
    {A : Type 0} (a : Attempt A) → ((why : String) × (a ≡ threw why)) ⊎ ((x : A) × (a ≡ done x))
Tries (threw why) = inl (why, refl)
Tries (done x) = inr (x, refl)

module _ (env : ApproveEnv) where
  -- What `clear_run` hands on, and what it has seen
  abbrev Passed : String → SourceManifest → List ℕ → List ℕ → Option Bool → Ready → Type 0
  Passed run_id m patch task passed r =
      (r.run_id ≡ run_id)
      × (r.manifest ≡ m)
      × (r.patch ≡ patch)
      × (r.passed ≡ passed)
      × (r.task_subject ≡ extract_task_subject task)
      × All (Same env.sha env.disk) m.files
      × (env.run_hash ≡ done r.evidence_hash)
      × (env.git.patch_applies ≡ true)

  clear_run-Passed :
      (run_id : String) (m : SourceManifest) (patch task : List ℕ) (passed : Option Bool)
      (r : Ready)
      → clear_run env run_id m patch task passed ≡ ready r
      → Passed run_id m patch task passed r
  unfolding clear_run
  clear_run-Passed run_id m patch task passed r e =
      elim (Tries (check_source_drift env.sha env.disk m.files)) [
        | inl (why, fails) ↦ absurd (ground (arith, e, fails))
        | inr (d, found) ↦ elim (Bool-cases (is_clean d)) [
          | inr dirty ↦ absurd (ground (arith, e, found, dirty))
          | inl clean ↦ elim (Tries env.run_hash) [
            | inl (why, fails) ↦ absurd (ground (arith, e, found, clean, fails))
            | inr (hash, hashed) ↦ elim (Bool-cases env.git.patch_applies) [
              | inr unfit ↦ absurd (ground (arith, e, found, clean, hashed, unfit))
              | inl fits ↦
                  let same : hash ≡ r.evidence_hash =
                    ground (arith, e, found, clean, hashed, fits) in
                  (
                    ground (arith, e, found, clean, hashed, fits),
                    ground (arith, e, found, clean, hashed, fits),
                    ground (arith, e, found, clean, hashed, fits),
                    ground (arith, e, found, clean, hashed, fits),
                    ground (arith, e, found, clean, hashed, fits),
                    (drift_iff env.sha env.disk m.files).0 (d, found, clean),
                    hashed ∙ ap done same,
                    fits,
                  )
            ]
          ]
        ]
      ]

  -- What `read_run` hands on
  abbrev Read : String → Artifacts → Ready → Type 0
  Read run_id a r =
      (r.run_id ≡ run_id)
      × (a.patch ≡ some r.patch)
      × (a.source_manifest ≡ some (some r.manifest))
      × (a.session_summary ≡ some r.passed)
      × (r.manifest.source_path ≢ "")
      × ((task : List ℕ) × (a.task_md ≡ some task) × (r.task_subject ≡ extract_task_subject task))
      × All (Same env.sha env.disk) r.manifest.files
      × (env.run_hash ≡ done r.evidence_hash)
      × (env.git.patch_applies ≡ true)

  read_run-Read :
      (run_id : String) (a : Artifacts) (r : Ready)
      → read_run env run_id a ≡ ready r
      → Read run_id a r
  unfolding read_run
  read_run-Read run_id a r e = elim (Option-cases a.patch) [
    | inl gone ↦ absurd (ground (arith, e, gone))
    | inr (patch, p) ↦ elim (Option-cases a.source_manifest) [
      | inl gone ↦ absurd (ground (arith, e, p, gone))
      | inr (manifest, q) ↦ elim (Option-cases a.task_md) [
        | inl gone ↦ absurd (ground (arith, e, p, q, gone))
        | inr (task, t) ↦ elim (Option-cases a.session_summary) [
          | inl gone ↦ absurd (ground (arith, e, p, q, t, gone))
          | inr (passed, s) ↦ elim (Option-cases manifest) [
            | inl gone ↦ absurd (ground (arith, e, p, q, t, s, gone))
            | inr (m, valid) ↦ elim (Bool-cases (m.source_path == "")) [
              | inl blank ↦ absurd (ground (arith, e, p, q, t, s, valid, blank))
              | inr filled ↦
                  let cleared : clear_run env run_id m patch task passed ≡ ready r =
                    ground (arith, e, p, q, t, s, valid, filled) in
                  let (id, same_m, same_patch, same_passed, titled, undrifted, hashed, fits) =
                    clear_run-Passed run_id m patch task passed r cleared in
                  (
                    id,
                    p ∙ ap some (sym same_patch),
                    q ∙ ap some (valid ∙ ap some (sym same_m)),
                    s ∙ ap some (sym same_passed),
                    subst (λ m. m.source_path ≢ "") (sym same_m)
                        (λ blank. ground (arith, filled, blank, eq_iff m.source_path "")),
                    (task, t, titled),
                    subst (λ m. All (Same env.sha env.disk) m.files) (sym same_m) undrifted,
                    hashed,
                    fits,
                  )
            ]
          ]
        ]
      ]
    ]
  ]

  pub prepare-Cleared :
      (args : List String) (r : Ready) → prepare env args ≡ ready r → Cleared env args r
  unfolding prepare
  prepare-Cleared args r e = elim (Option-cases (run_id_of args)) [
    | inl gone ↦ absurd (ground (arith, e, gone))
    | inr (run_id, named) ↦ elim (Bool-cases (eqb (length (trim (units run_id))) 0)) [
      | inl blank ↦ absurd (ground (arith, e, named, blank))
      | inr filled ↦ elim (Option-cases (env.run_dir run_id)) [
        | inl gone ↦ absurd (ground (arith, e, named, filled, gone))
        | inr (a, found) ↦
            let reads : read_run env run_id a ≡ ready r = ground (arith, e, named, filled, found) in
            let (id, p, m, s, sourced, (task, described, titled), undrifted, hashed, fits) =
              read_run-Read run_id a r reads in
            record {
              named = named ∙ ap some (sym id);
              not_blank =
                  subst (λ i. length (trim (units i)) ≢ 0) (sym id)
                    (λ blank.
                      ground (arith, filled, blank, eqb_iff (length (trim (units run_id))) 0));
              sourced = sourced;
              task = task;
              described = described;
              titled = titled;
              artifacts = a;
              stored = ap env.run_dir id ∙ found;
              patch = p;
              manifest = m;
              summary = s;
              undrifted = undrifted;
              hashed = hashed;
              fits = fits;
            }
      ]
    ]
  ]

  -- What the steps need is enough for them.
  pub Cleared-prepare :
      (args : List String) (r : Ready) → Cleared env args r → prepare env args ≡ ready r
  unfolding prepare read_run clear_run
  Cleared-prepare args r c =
      let (d, found, clean) = (drift_iff env.sha env.disk r.manifest.files).1 c.undrifted in
      let filled : eqb (length (trim (units r.run_id))) 0 ≡ false =
        ground (arith, c.not_blank, eqb_iff (length (trim (units r.run_id))) 0) in
      let somewhere : (r.manifest.source_path == "") ≡ false =
        ground (arith, c.sourced, eq_iff r.manifest.source_path "") in
      let cleared : clear_run env r.run_id r.manifest r.patch c.task r.passed ≡ ready r =
        ground (arith, found, clean, c.hashed, c.fits, c.titled) in
      let reads : read_run env r.run_id c.artifacts ≡ ready r =
        ground (arith, c.patch, c.manifest, c.described, c.summary, somewhere, cleared) in
      ground (arith, c.named, filled, c.stored, reads)
