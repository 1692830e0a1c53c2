-- ===== src/Skills/Versions.antt =====
-- The version history of a skill under the operations of src/skills/skill-lifecycle.ts.
use claude_powerplant.Prelude.{
  ℕ, suc, ◌+◌, ◌≡◌, refl, sym, ap, ◌∙◌, inl, inr, String, Bool, false, Option, some, List, [], ◌∷◌,
  ◌++◌, get, get-put_same, eqb, eqb_iff, arith, Bool-cases, Option-cases, if◌then◌else◌,
}
use claude_powerplant.Skills.{
  SkillManifest, SkillRegistryVersionEntry, SkillRegistryRecord, SkillStore, Host,
}
use claude_powerplant.Skills.Validation.{promote-bound}
use claude_powerplant.Skills.Lifecycle.{
  Outcome, success, Promoted, load_registry, save_registry, archive_entry, archived, next_version,
  bind_version, promote_skill, read_candidate_manifest, take_version, is_inherited,
}

-- A test of a version's number, candidate and hash.
abbrev pub VersionTest : Type 0
VersionTest = ℕ → String → String → Bool

-- How many entries pass a test.
unfoldable pub tally : (ℕ → String → String → Bool) → List SkillRegistryVersionEntry → ℕ
tally p [] = 0
tally p (e ∷ es) =
    let rest = tally p es in if p e.version e.candidate_id e.content_hash then suc rest else rest

-- The archive with the active version in it.
abbrev pub history : SkillRegistryRecord → List SkillRegistryVersionEntry
history r = r.previous_versions ++ archive_entry r ∷ []

pub tally-concat :
    (p : VersionTest) (xs ys : List SkillRegistryVersionEntry)
    → tally p (xs ++ ys) ≡ tally p xs + tally p ys
unfolding tally
tally-concat p [] ys = omega arith
tally-concat p (x ∷ xs) ys = ground (arith, tally-concat p xs ys)

pub tally-take :
    (p : VersionTest) (v : ℕ) (es remaining : List SkillRegistryVersionEntry)
    (target : SkillRegistryVersionEntry)
    → take_version v es ≡ some (target, remaining)
    → tally p (target ∷ remaining) ≡ tally p es
unfolding tally take_version
tally-take p v [] remaining target e = cc e
tally-take p v (x ∷ es) remaining target e = elim (Bool-cases (eqb x.version v)) [
  | inl same ↦
      let e' : ◌≡◌ {A = Option (SkillRegistryVersionEntry × List SkillRegistryVersionEntry)}
          (some (x, es)) (some (target, remaining)) =
        rw (same, take_version) at e in
      ground arith
  | inr other ↦ elim (Option-cases (take_version v es)) [
    | inl gone ↦ absurd (ground arith)
    | inr ((t, rest), found) ↦
        let e' : ◌≡◌ {A = Option (SkillRegistryVersionEntry × List SkillRegistryVersionEntry)}
            (some (t, x ∷ rest)) (some (target, remaining)) =
          rw (other, found, take_version) at e in
        ground (arith, tally-take p v es rest t found)
  ]
]

pub take_version-version :
    (v : ℕ) (es remaining : List SkillRegistryVersionEntry) (target : SkillRegistryVersionEntry)
    → take_version v es ≡ some (target, remaining)
    → target.version ≡ v
unfolding take_version
take_version-version v [] remaining target e = cc e
take_version-version v (x ∷ es) remaining target e = elim (Bool-cases (eqb x.version v)) [
  | inl same ↦
      let e' : ◌≡◌ {A = Option (SkillRegistryVersionEntry × List SkillRegistryVersionEntry)}
          (some (x, es)) (some (target, remaining)) =
        rw (same, take_version) at e in
      ground (arith, eqb_iff x.version v)
  | inr other ↦ elim (Option-cases (take_version v es)) [
    | inl gone ↦ absurd (ground arith)
    | inr ((t, rest), found) ↦
        let e' : ◌≡◌ {A = Option (SkillRegistryVersionEntry × List SkillRegistryVersionEntry)}
            (some (t, x ∷ rest)) (some (target, remaining)) =
          rw (other, found, take_version) at e in
        ground (arith, take_version-version v es rest t found)
  ]
]

promoted-manifest :
    (host : Host) (now : String) (s : SkillStore) (id : String) (made : Promoted)
    → (promote_skill host now s id).1 ≡ success made
    → (m : SkillManifest) × (hash : String) × (read_candidate_manifest host s id ≡ some m)
      × (m.sha256 ≡ some hash)
      × (is_inherited (load_registry s.registry_file) m.name ≡ false)
unfolding promote_skill
promoted-manifest host now s id made ok = elim (Option-cases (read_candidate_manifest host s id)) [
  | inl bad ↦ absurd (ground arith)
  | inr (m, parsed) ↦ elim (Option-cases m.sha256) [
    | inl unbound ↦ absurd (ground arith)
    | inr (hash, bound) ↦ elim (Bool-cases (is_inherited (load_registry s.registry_file) m.name)) [
      | inl inherited ↦ absurd (ground (arith, ok, parsed, bound, inherited))
      | inr own ↦ (m, hash, parsed, bound, own)
    ]
  ]
]

bind_version-extends :
    (now : String) (s : SkillStore) (id : String) (m : SkillManifest) (hash : String)
    (made : Promoted)
    → (bind_version now s id m hash).1 ≡ success made
    → (r : SkillRegistryRecord) × (get
          (load_registry (bind_version now s id m hash).0.registry_file)
          made.name
        ≡ some r)
      × (r.active_version ≡ made.version)
      × (r.is_disabled ≡ false)
      × ((p : ℕ → String → String → Bool)
          → tally p (history r)
            ≡ tally p (archived (get (load_registry s.registry_file) made.name))
              + (if p made.version id made.content_hash then 1 else 0))
unfolding bind_version save_registry load_registry
bind_version-extends now s id m hash made ok =
    let existing = get (load_registry s.registry_file) m.name in
    let r : SkillRegistryRecord = record {
      name = m.name;
      active_version = next_version existing;
      candidate_id = id;
      activated_at = now;
      is_disabled = false;
      content_hash = hash;
      previous_versions = archived existing;
    } in
    let reply : made ≡ record {
      name = m.name;
      version = next_version existing;
      content_hash = hash;
      candidate_id = id;
    } =
      cc ok in
    rw reply (
      r,
      get-put_same m.name r (load_registry s.registry_file),
      refl,
      refl,
      λ p.
          tally-concat p (archived existing) (archive_entry r ∷ [])
          ∙ unfold tally archive_entry in refl,
    )

-- A promotion adds one version and keeps those that were there, the active one with them.
promote_extends :
    (host : Host) (now : String) (s : SkillStore) (id : String) (made : Promoted)
    → (promote_skill host now s id).1 ≡ success made
    → (r : SkillRegistryRecord) × (get
          (load_registry (promote_skill host now s id).0.registry_file)
          made.name
        ≡ some r)
      × (r.active_version ≡ made.version)
      × (r.is_disabled ≡ false)
      × ((p : ℕ → String → String → Bool)
          → tally p (history r)
            ≡ tally p (archived (get (load_registry s.registry_file) made.name))
              + (if p made.version id made.content_hash then 1 else 0))
promote_extends host now s id made ok =
    let (m, hash, parsed, bound, own) = promoted-manifest host now s id made ok in
    let same = promote-bound host now s id m hash parsed bound own in
    rw same (
      bind_version-extends now s id m hash made
        (ap (λ (r : SkillStore × Outcome Promoted). r.1) (sym same) ∙ ok))
