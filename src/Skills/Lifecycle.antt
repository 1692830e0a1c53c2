-- ===== src/Skills/Lifecycle.antt =====
-- The operations of src/skills/skill-lifecycle.ts, each in a process of its own, as the commands run
-- them. `now` is the reading of the clock. The registry is a plain object, where a lookup of a name of
-- `Object.prototype` that is no key finds a value without the fields of a record.
use mathlib.Core.Option
use claude_powerplant.Prelude.{
  ℕ, ◌+◌, String, Bool, true, false, Option, none, some, List, [], ◌∷◌, ◌++◌, get, put, map, eqb,
  is_some, not, ◌&&◌, has, inherited_names, if◌then◌else◌,
}
use claude_powerplant.Skills.{
  SkillManifest, SkillRegistryVersionEntry, SkillRegistryRecord, Registry, RegistryFile, absent,
  unreadable, stored, SkillAuditEvent, evaluated, promoted, rolled_back, disabled,
  disabled_inherited, file, folder, Entries, get_node, put_node, SkillStore, Host,
}
use claude_powerplant.Skills.Hash.{compute_skill_content_hash}

pub data Refusal : Type 0 where
  candidate_not_found manifest_invalid already_validated not_validated : Refusal
  not_in_registry already_disabled version_not_found : Refusal

-- The result types: a success or a failure with its reason; `crashed` is a `TypeError` that leaves the
-- operation.
pub data Outcome (A : Type 0) : Type 0 where
  success : A → Outcome A
  failure : Refusal → Outcome A
  crashed : Outcome A

pub record Validated : Type 0 where
  pub candidate_id : String
  pub content_hash : String
  pub name : String

pub record Promoted : Type 0 where
  pub name : String
  pub version : ℕ
  pub content_hash : String
  pub candidate_id : String

-- The version is `undefined` where the name is inherited.
pub record Disabled : Type 0 where
  pub name : String
  pub version : Option ℕ

pub record RolledBack : Type 0 where
  pub name : String
  pub from_version : ℕ
  pub to_version : ℕ

pub record SkillSummary : Type 0 where
  pub name : String
  pub active_version : ℕ
  pub candidate_id : String
  pub activated_at : String
  pub is_disabled : Bool
  pub content_hash : String

pub record SkillInspection : Type 0 where
  pub summary : SkillSummary
  pub manifest : SkillManifest
  pub skill_md_content : String
  pub previous_versions : List SkillRegistryVersionEntry

unfoldable pub load_registry : RegistryFile → Registry
load_registry absent = []
load_registry unreadable = []
load_registry (stored registry) = registry

-- Does `registry.skills[name]` find a member of `Object.prototype`?
unfoldable pub is_inherited : Registry → String → Bool
is_inherited registry name = not (is_some (get registry name)) && has inherited_names name

-- `saveRegistry`, then `appendAuditEvent`
unfoldable pub save_registry : SkillStore → Registry → SkillAuditEvent → SkillStore
save_registry s registry event = record s {
  registry_file = stored registry;
  audit = s.audit ++ event ∷ [];
}

-- `readFileSync` of a name in a directory; `none` where it throws.
unfoldable pub read_text : Entries → String → Option String
read_text es name = elim (get_node es name) [
  | none ↦ none
  | some n ↦ elim n [ file content ↦ some content | folder inner ↦ none ]
]

unfoldable pub read_candidate_manifest : Host → SkillStore → String → Option SkillManifest
unfolding read_text
read_candidate_manifest host s id = elim (get s.candidates id) [
  | none ↦ none
  | some root ↦ elim (read_text root "manifest.json") [
    | none ↦ none
    | some content ↦ host.parse_manifest content
  ]
]

-- The part of `validateSkill` after its tests.
unfoldable pub bind_hash :
    Host → String → SkillStore → String → Entries → SkillManifest → SkillStore × Outcome Validated
bind_hash host now s id root manifest =
    let hash = compute_skill_content_hash host.sha root in
    let updated = record manifest {
      sha256 = some hash;
      evaluation_passed = true;
      evaluation_at = some now;
    } in
    (
      record s {
        candidates =
            put id (put_node "manifest.json" (file (host.print_manifest updated)) root)
              s.candidates;
        audit = s.audit ++ evaluated id manifest.name true none hash ∷ [];
      },
      success (record { candidate_id = id; content_hash = hash; name = manifest.name }),
    )

unfoldable pub validate_skill : Host → String → SkillStore → String → SkillStore × Outcome Validated
validate_skill host now s id = elim (get s.candidates id) [
  | none ↦ (s, failure candidate_not_found)
  | some root ↦ elim (read_candidate_manifest host s id) [
    | none ↦ (s, failure manifest_invalid)
    | some manifest ↦
        if is_some manifest.sha256
        then (s, failure already_validated)
        else bind_hash host now s id root manifest
  ]
]

-- The active entry as it goes to `previousVersions`.
unfoldable pub archive_entry : SkillRegistryRecord → SkillRegistryVersionEntry
archive_entry r = record {
  version = r.active_version;
  candidate_id = r.candidate_id;
  activated_at = r.activated_at;
  content_hash = r.content_hash;
}

unfoldable pub next_version : Option SkillRegistryRecord → ℕ
next_version none = 1
next_version (some r) = r.active_version + 1

unfoldable pub archived : Option SkillRegistryRecord → List SkillRegistryVersionEntry
archived none = []
archived (some r) = r.previous_versions ++ archive_entry r ∷ []

-- The part of `promoteSkill` after its tests.
unfoldable pub bind_version :
    String → SkillStore → String → SkillManifest → String → SkillStore × Outcome Promoted
bind_version now s id manifest hash =
    let registry = load_registry s.registry_file in
    let existing = get registry manifest.name in
    let version = next_version existing in
    (
      save_registry s
          (put manifest.name
            (record {
              name = manifest.name;
              active_version = version;
              candidate_id = id;
              activated_at = now;
              is_disabled = false;
              content_hash = hash;
              previous_versions = archived existing;
            })
            registry)
          (promoted id manifest.name version (Option.map (λ r. r.active_version) existing) hash),
      success (record {
        name = manifest.name;
        version = version;
        content_hash = hash;
        candidate_id = id;
      }),
    )

-- The spread of `previousVersions` of an inherited member throws before anything is written.
unfoldable pub promote_skill : Host → String → SkillStore → String → SkillStore × Outcome Promoted
promote_skill host now s id = elim (read_candidate_manifest host s id) [
  | none ↦ (s, failure manifest_invalid)
  | some manifest ↦ elim manifest.sha256 [
    | none ↦ (s, failure not_validated)
    | some hash ↦
        if is_inherited (load_registry s.registry_file) manifest.name
        then (s, crashed)
        else bind_version now s id manifest hash
  ]
]

-- An inherited member is marked as disabled where it stands, outside of the registry, which is saved
-- as it was.
unfoldable pub disable_inherited : SkillStore → String → SkillStore × Outcome Disabled
disable_inherited s name = (
  save_registry s (load_registry s.registry_file) (disabled_inherited name),
  success (record { name = name; version = none }),
)

unfoldable pub disable_skill : SkillStore → String → SkillStore × Outcome Disabled
disable_skill s name = elim (get (load_registry s.registry_file) name) [
  | none ↦
      if is_inherited (load_registry s.registry_file) name
      then disable_inherited s name
      else (s, failure not_in_registry)
  | some r ↦ if r.is_disabled then (s, failure already_disabled) else (
    save_registry s (put name (record r { is_disabled = true }) (load_registry s.registry_file))
        (disabled name r.active_version r.candidate_id r.content_hash),
    success (record { name = name; version = some r.active_version }),
  )
]

-- `findIndex`, with the entries that `filter` leaves.
unfoldable pub take_version :
    ℕ
    → List SkillRegistryVersionEntry
    → Option (SkillRegistryVersionEntry × List SkillRegistryVersionEntry)
take_version v [] = none
take_version v (e ∷ es) =
    let later = take_version v es in
    if eqb e.version v
    then some (e, es)
    else Option.map
        (λ (found : SkillRegistryVersionEntry × List SkillRegistryVersionEntry).
          (found.0, e ∷ found.1))
        later

unfoldable pub restore :
    String
    → SkillRegistryRecord
    → SkillRegistryVersionEntry
    → List SkillRegistryVersionEntry
    → SkillRegistryRecord
restore now r target remaining = record r {
  active_version = target.version;
  candidate_id = target.candidate_id;
  activated_at = now;
  is_disabled = false;
  content_hash = target.content_hash;
  previous_versions = remaining ++ archive_entry r ∷ [];
}

unfoldable pub rollback_skill : String → SkillStore → String → ℕ → SkillStore × Outcome RolledBack
rollback_skill now s name to_version = elim (get (load_registry s.registry_file) name) [
  | none ↦ (
    s,
    if is_inherited (load_registry s.registry_file) name then crashed else failure not_in_registry,
  )
  | some r ↦ elim (take_version to_version r.previous_versions) [
    | none ↦ (s, failure version_not_found)
    | some (target, remaining) ↦ (
      save_registry s (put name (restore now r target remaining) (load_registry s.registry_file))
          (rolled_back name r.active_version to_version "operator rollback"),
      success (record { name = name; from_version = r.active_version; to_version = to_version }),
    )
  ]
]

unfoldable pub summary_of : SkillRegistryRecord → SkillSummary
summary_of r = record {
  name = r.name;
  active_version = r.active_version;
  candidate_id = r.candidate_id;
  activated_at = r.activated_at;
  is_disabled = r.is_disabled;
  content_hash = r.content_hash;
}

unfoldable pub list_skills : SkillStore → List SkillSummary
unfolding load_registry
list_skills s = map (λ e. summary_of e.1) (load_registry s.registry_file)

-- The outer `none` is a `TypeError`: the path of an inherited member's candidate is `undefined`.
unfoldable pub inspect_skill : Host → SkillStore → String → Option (Option SkillInspection)
inspect_skill host s name = elim (get (load_registry s.registry_file) name) [
  | none ↦ if is_inherited (load_registry s.registry_file) name then none else some none
  | some r ↦ elim (read_candidate_manifest host s r.candidate_id) [
    | none ↦ some none
    | some manifest ↦
        let root =
          Option.bind (get s.candidates r.candidate_id) (λ root. read_text root "SKILL.md") in
        some (
          some (record {
            summary = summary_of r;
            manifest = manifest;
            skill_md_content = Option.get_or root "";
            previous_versions = r.previous_versions;
          }))
  ]
]
