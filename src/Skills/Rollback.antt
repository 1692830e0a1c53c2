-- ===== src/Skills/Rollback.antt =====
-- What `rollbackSkill` of src/skills/skill-lifecycle.ts keeps, and how it is undone.
use claude_powerplant.Prelude.{
  ℕ, ◌≡◌, refl, inl, inr, String, Bool, true, false, not, some, List, [], ◌∷◌, ◌++◌, get, put,
  get-put_same, eqb, eqb_iff, all, arith, Bool-cases, Option-cases,
}
use claude_powerplant.Skills.{
  SkillRegistryVersionEntry, SkillRegistryRecord, SkillStore, rolled_back,
}
use claude_powerplant.Skills.Lifecycle.{
  success, RolledBack, load_registry, save_registry, archive_entry, take_version, restore,
  rollback_skill,
}
use claude_powerplant.Skills.Versions.{
  VersionTest, tally, history, tally-concat, tally-take, take_version-version,
}

history-restore :
    (p : VersionTest) (now : String) (r : SkillRegistryRecord) (v : ℕ)
    (target : SkillRegistryVersionEntry) (remaining : List SkillRegistryVersionEntry)
    → take_version v r.previous_versions ≡ some (target, remaining)
    → tally p (history (restore now r target remaining)) ≡ tally p (history r)
unfolding restore archive_entry tally
history-restore p now r v target remaining found =
    let archived_first = tally-concat p remaining (archive_entry r ∷ []) in
    let archived_then =
      tally-concat p (remaining ++ archive_entry r ∷ [])
        (archive_entry (restore now r target remaining) ∷ []) in
    let before = tally-concat p r.previous_versions (archive_entry r ∷ []) in
    let taken = tally-take p v r.previous_versions remaining target found in
    ground (arith, archived_first, archived_then, before, taken)

take_version-last :
    (e : SkillRegistryVersionEntry) (es : List SkillRegistryVersionEntry)
    → all (λ x. not (eqb x.version e.version)) es ≡ true
    → take_version e.version (es ++ e ∷ []) ≡ some (e, es)
unfolding take_version
take_version-last e [] h = ground (arith, eqb_iff e.version e.version)
take_version-last e (x ∷ es) h = ground (arith, take_version-last e es)

all-take :
    (q : SkillRegistryVersionEntry → Bool) (v : ℕ) (es remaining : List SkillRegistryVersionEntry)
    (target : SkillRegistryVersionEntry)
    → take_version v es ≡ some (target, remaining)
    → all q es ≡ true
    → all q remaining ≡ true
unfolding take_version
all-take q v [] remaining target e h = cc e
all-take q v (x ∷ es) remaining target e h = elim (Bool-cases (eqb x.version v)) [
  | inl same ↦ ground arith
  | inr other ↦ elim (Option-cases (take_version v es)) [
    | inl gone ↦ absurd (ground arith)
    | inr ((t, rest), found) ↦ ground (arith, all-take q v es rest t found)
  ]
]

-- The store after a rollback that found its target.
abbrev rolled :
    String
    → SkillStore
    → String
    → ℕ
    → SkillRegistryRecord
    → SkillRegistryVersionEntry
    → List SkillRegistryVersionEntry
    → SkillStore
rolled now s name v r target remaining =
    save_registry s (put name (restore now r target remaining) (load_registry s.registry_file))
      (rolled_back name r.active_version v "operator rollback")

pub rollback-rolled :
    (now : String) (s : SkillStore) (name : String) (v : ℕ) (r : SkillRegistryRecord)
    (target : SkillRegistryVersionEntry) (remaining : List SkillRegistryVersionEntry)
    → get (load_registry s.registry_file) name ≡ some r
    → take_version v r.previous_versions ≡ some (target, remaining)
    → (rollback_skill now s name v).0 ≡ rolled now s name v r target remaining
unfolding rollback_skill
rollback-rolled now s name v r target remaining known found = rw (known, found, rollback_skill) refl

rolled-get :
    (now : String) (s : SkillStore) (name : String) (v : ℕ) (r : SkillRegistryRecord)
    (target : SkillRegistryVersionEntry) (remaining : List SkillRegistryVersionEntry)
    → get (load_registry (rolled now s name v r target remaining).registry_file) name
      ≡ some (restore now r target remaining)
unfolding save_registry load_registry
rolled-get now s name v r target remaining =
    get-put_same name (restore now r target remaining) (load_registry s.registry_file)

rollback-target :
    (now : String) (s : SkillStore) (name : String) (v : ℕ) (r : SkillRegistryRecord)
    (done : RolledBack)
    → get (load_registry s.registry_file) name ≡ some r
    → (rollback_skill now s name v).1 ≡ success done
    → (t : SkillRegistryVersionEntry × List SkillRegistryVersionEntry) × (take_version v
          r.previous_versions
        ≡ some t)
unfolding rollback_skill
rollback-target now s name v r done known ok =
    elim (Option-cases (take_version v r.previous_versions)) [
      | inl gone ↦ absurd (ground (arith, known, gone))
      | inr found ↦ found
    ]

-- A rollback keeps the history: the versions, with their candidates and hashes, are the same ones,
-- each as often as before.
pub rollback_conserves :
    (now : String) (s : SkillStore) (name : String) (v : ℕ) (r : SkillRegistryRecord)
    (done : RolledBack)
    → get (load_registry s.registry_file) name ≡ some r
    → (rollback_skill now s name v).1 ≡ success done
    → (r' : SkillRegistryRecord) × (get
          (load_registry (rollback_skill now s name v).0.registry_file)
          name
        ≡ some r')
      × (r'.active_version ≡ v)
      × (r'.is_disabled ≡ false)
      × ((p : ℕ → String → String → Bool) → tally p (history r') ≡ tally p (history r))
rollback_conserves now s name v r done known ok =
    let ((target, remaining), found) = rollback-target now s name v r done known ok in
    rw (rollback-rolled now s name v r target remaining known found) (
      restore now r target remaining,
      rolled-get now s name v r target remaining,
      unfold restore in take_version-version v r.previous_versions remaining target found,
      unfold restore in refl,
      λ p. history-restore p now r v target remaining found,
    )

-- A rollback can be undone: where the active version's number is not in the archive, rolling back
-- and then rolling back to it brings back the version, its candidate and its hash, enabled.
pub rollback_undone :
    (now later : String) (s : SkillStore) (name : String) (v : ℕ) (r : SkillRegistryRecord)
    (done : RolledBack)
    → get (load_registry s.registry_file) name ≡ some r
    → all (λ x. not (eqb x.version r.active_version)) r.previous_versions ≡ true
    → (rollback_skill now s name v).1 ≡ success done
    → (r' : SkillRegistryRecord) × (get
          (load_registry
            (rollback_skill later
              (rollback_skill now s name v).0
              name
              r.active_version).0.registry_file)
          name
        ≡ some r')
      × (r'.active_version ≡ r.active_version)
      × (r'.candidate_id ≡ r.candidate_id)
      × (r'.content_hash ≡ r.content_hash)
      × (r'.is_disabled ≡ false)
rollback_undone now later s name v r done known fresh ok =
    let ((target, remaining), found) = rollback-target now s name v r done known ok in
    let r1 = restore now r target remaining in
    let s1 = rolled now s name v r target remaining in
    let back : take_version r.active_version r1.previous_versions
        ≡ some (archive_entry r, remaining) =
      unfold restore archive_entry in
      take_version-last (archive_entry r) remaining (
        all-take (λ x. not (eqb x.version r.active_version)) v r.previous_versions remaining target
          found fresh) in
    let again = rolled-get now s name v r target remaining in
    rw (rollback-rolled now s name v r target remaining known found) (
      rw (rollback-rolled later s1 name r.active_version r1 (archive_entry r) remaining again back)
        (
          restore later r1 (archive_entry r) remaining,
          rolled-get later s1 name r.active_version r1 (archive_entry r) remaining,
          unfold restore archive_entry in refl,
          unfold restore archive_entry in refl,
          unfold restore archive_entry in refl,
          unfold restore in refl,
        ))
