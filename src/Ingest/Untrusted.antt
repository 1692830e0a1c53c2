-- ===== src/Ingest/Untrusted.antt =====
-- Which manifests Gate 1 of src/skills/candidate-store.ts lets through.
use claude_powerplant.Prelude.{
  ℕ, ◌≡◌, refl, inl, inr, ◌⊎◌, String, true, none, List, arith, Option-cases,
}
use claude_powerplant.Ingest.Copy.{Snapshot}
use claude_powerplant.Ingest.Schema.{
  CandidateManifest, ParsedManifest, manifest, invalid_json, misfit, Reader, Found, file, directory,
  absent, gate1_success, is_skill_name, find, judge_manifest, skeleton, validate_content,
  validate_candidate_schema,
}

-- The schema of a manifest has the regular expression for the name.
abbrev pub ChecksNames : Reader → Type 0
ChecksNames reader =
    (bytes : List ℕ) (m : CandidateManifest)
    → reader.parse bytes ≡ manifest m
    → is_skill_name m.name ≡ true

-- A manifest that Gate 1 lets through
abbrev pub Untrusted : String → CandidateManifest → Type 0
Untrusted id m = (m.id ≡ id) × (m.sha256 ≡ none) × (is_skill_name m.name ≡ true)

Found-cases : (f : Found) → ((bytes : List ℕ) × (f ≡ file bytes)) ⊎ ((f ≡ directory) ⊎ (f ≡ absent))
Found-cases (file bytes) = inl (bytes, refl)
Found-cases directory = inr (inl refl)
Found-cases absent = inr (inr refl)

judge_manifest-Untrusted :
    (id : String) (p : ParsedManifest) (m : CandidateManifest)
    → ((given : CandidateManifest) → p ≡ manifest given → is_skill_name given.name ≡ true)
    → judge_manifest id p ≡ gate1_success m
    → Untrusted id m
unfolding judge_manifest
judge_manifest-Untrusted id invalid_json m named e = absurd (ground (arith, e))
judge_manifest-Untrusted id misfit m named e = absurd (ground (arith, e))
judge_manifest-Untrusted id (manifest given) m named e = elim (Option-cases given.sha256) [
  | inr (hash, supplied) ↦ absurd (ground (arith, e, supplied))
  | inl unhashed ↦ ground (arith, e, unhashed, named given refl)
]

skeleton-Untrusted :
    (now : List ℕ) (id : String) (snapshot_name content : List ℕ) (m : CandidateManifest)
    → skeleton now id snapshot_name content ≡ gate1_success m
    → Untrusted id m
unfolding skeleton
skeleton-Untrusted now id snapshot_name content m e = ground (arith, e)

module _ (reader : Reader) (checks : ChecksNames reader) (now : List ℕ) where
  validate_content-Untrusted :
      (snapshot : Snapshot) (id : String) (snapshot_name content : List ℕ) (m : CandidateManifest)
      → validate_content reader now snapshot id snapshot_name content ≡ gate1_success m
      → Untrusted id m
  unfolding validate_content
  validate_content-Untrusted snapshot id snapshot_name content m e =
      elim (Found-cases (find snapshot "manifest.json")) [
        | inl (bytes, found) ↦
            judge_manifest-Untrusted id (reader.parse (reader.decode bytes)) m
              (λ given p. checks (reader.decode bytes) given p) (rw (found, validate_content) at e)
        | inr (inl dir) ↦ absurd (ground (arith, e, dir))
        | inr (inr none_given) ↦
            skeleton-Untrusted now id snapshot_name content m
              (rw (none_given, validate_content) at e)
      ]

  pub validate-Untrusted :
      (snapshot : Snapshot) (id : String) (snapshot_name : List ℕ) (m : CandidateManifest)
      → validate_candidate_schema reader now snapshot id snapshot_name ≡ gate1_success m
      → Untrusted id m
  unfolding validate_candidate_schema
  validate-Untrusted snapshot id snapshot_name m e = elim (Found-cases (find snapshot "SKILL.md")) [
    | inr (inl dir) ↦ absurd (ground (arith, e, dir))
    | inr (inr gone) ↦ absurd (ground (arith, e, gone))
    | inl (bytes, found) ↦
        validate_content-Untrusted snapshot id snapshot_name (reader.decode bytes) m
          (ground (arith, e, found))
  ]
