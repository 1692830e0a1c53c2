-- ===== src/Approve/Drift.antt =====
-- When `checkSourceDrift` of src/runs/apply-patch.ts finds no drift.
use claude_powerplant.Prelude.{
  ℕ, ◌≡◌, refl, sym, ap, ◌∙◌, ◌↔◌, inl, inr, ◌⊎◌, String, ◌==◌, eq_iff, Bool, true, false, List, [],
  ◌∷◌, arith, All,
}
use claude_powerplant.Broker.{Attempt, done, threw}
use claude_powerplant.Approve.{
  ManifestFile, OnDisk, absent, unreadable, content, DriftResult, is_clean, with_file,
  check_source_drift,
}

module _ (sha : List ℕ → String) (disk : String → OnDisk) where
  -- The file stands on the disk with the recorded hash.
  abbrev pub Same : ManifestFile → Type 0
  Same f = (bytes : List ℕ) × (disk f.relative_path ≡ content bytes) × (sha bytes ≡ f.sha256)

  abbrev pub FoundClean : Attempt DriftResult → Type 0
  FoundClean a = (d : DriftResult) × (a ≡ done d) × (is_clean d ≡ true)

  OnDisk-cases :
      (o : OnDisk) → (o ≡ absent) ⊎ (o ≡ unreadable) ⊎ ((bytes : List ℕ) × (o ≡ content bytes))
  OnDisk-cases absent = inl refl
  OnDisk-cases unreadable = inr (inl refl)
  OnDisk-cases (content bytes) = inr (inr (bytes, refl))

  Attempt-cases :
      (a : Attempt DriftResult)
      → ((why : String) × (a ≡ threw why)) ⊎ ((d : DriftResult) × (a ≡ done d))
  Attempt-cases (threw why) = inl (why, refl)
  Attempt-cases (done d) = inr (d, refl)

  pub drift_iff :
      (fs : List ManifestFile) → FoundClean (check_source_drift sha disk fs) ↔ All Same fs
  unfolding check_source_drift
  drift_iff [] = ((λ h. tt), (λ h. (record { changed_files = []; missing_files = [] }, refl, refl)))
  drift_iff (f ∷ fs) = elim (OnDisk-cases (disk f.relative_path)) [
    | inr (inl bad) ↦
        ((λ h. absurd (ground (arith, h.1, bad))), (λ h. absurd (ground (arith, h.0.1, bad))))
    | inl gone ↦ (
      (λ h. elim (Attempt-cases (check_source_drift sha disk fs)) [
        | inl (why, fails) ↦ absurd (ground (arith, h.1, gone, fails))
        | inr (d, found) ↦ absurd (ground (arith, h.1, h.2, gone, found))
      ]),
      (λ h. absurd (ground (arith, h.0.1, gone))),
    )
    | inr (inr (bytes, here)) ↦ elim (Attempt-cases (check_source_drift sha disk fs)) [
      | inl (why, fails) ↦ (
        (λ h. absurd (ground (arith, h.1, here, fails))),
        (λ h.
            let (d, found, clean) = (drift_iff fs).1 h.1 in absurd (ground (arith, found, fails))),
      )
      | inr (d, found) ↦ (
        (λ h.
            let judged : with_file false (sha bytes == f.sha256) f.relative_path d ≡ h.0 =
              ground (arith, h.1, here, found) in
            let clean : is_clean (with_file false (sha bytes == f.sha256) f.relative_path d)
                ≡ true =
              ap is_clean judged ∙ h.2 in
            let parts = with_file-clean (sha bytes == f.sha256) f.relative_path d clean in
            (
              (bytes, here, (eq_iff (sha bytes) f.sha256).0 parts.0),
              (drift_iff fs).0 (d, found, parts.1),
            )),
        (λ h.
            let (d', found', clean) = (drift_iff fs).1 h.1 in
            let (bytes', here', hash) = h.0 in
            let same_d : d' ≡ d = ground (arith, found, found') in
            let same_b : bytes' ≡ bytes = ground (arith, here, here') in
            let equal : (sha bytes == f.sha256) ≡ true =
              (eq_iff (sha bytes) f.sha256).1 (ap sha (sym same_b) ∙ hash) in
            (d, ground (arith, here, found, equal), ap is_clean (sym same_d) ∙ clean)),
      )
    ]
  ]
    where
      with_file-clean :
          (same : Bool) (p : String) (d : DriftResult)
          → is_clean (with_file false same p d) ≡ true
          → (same ≡ true) × (is_clean d ≡ true)
      with_file-clean true p d e = (refl, e)
      with_file-clean false p d e = absurd (ground (arith, e))
