-- ===== src/Skills.antt =====
-- src/skills/skill-types.ts and the data of src/skills/skill-lifecycle.ts: manifests, the registry,
-- the audit log, and the snapshot directories of the candidates.
pub mod Hash
pub mod Lifecycle
pub mod Envelope
pub mod Validation
pub mod Rendering
pub mod Versions
pub mod Rollback
pub mod Replay
mod Tests
use claude_powerplant.Prelude.{
  ℕ, String, Bool, Option, none, some, List, [], Dict, ◌==◌, if◌then◌else◌, is_some, true, false,
}

pub record SkillManifest : Type 0 where
  pub id : String
  pub name : String
  pub version : ℕ
  pub description : String
  pub tags : List String
  pub created_at : String
  pub promoted_at : Option String
  pub source_run_id : Option String
  pub sha256 : Option String
  pub evaluation_passed : Bool
  pub evaluation_at : Option String

pub record SkillRegistryVersionEntry : Type 0 where
  pub version : ℕ
  pub candidate_id : String
  pub activated_at : String
  pub content_hash : String

pub record SkillRegistryRecord : Type 0 where
  pub name : String
  pub active_version : ℕ
  pub candidate_id : String
  pub activated_at : String
  pub is_disabled : Bool
  pub content_hash : String
  pub previous_versions : List SkillRegistryVersionEntry

-- `skills` of `SkillRegistry`, its own keys only.
abbrev pub Registry : Type 0
Registry = Dict SkillRegistryRecord

-- What stands under the path of the registry: nothing, a text that is no JSON, or a registry.
pub data RegistryFile : Type 0 where
  absent unreadable : RegistryFile
  stored : Registry → RegistryFile

-- The variants of `SkillAuditEvent`, without `eventId`, `at` and `command`. The last is a `disabled`
-- event whose version, candidate and hash are `undefined`, so that its JSON has only the name.
pub data SkillAuditEvent : Type 0 where
  imported : String → String → Option String → SkillAuditEvent
  import_rejected : String → String → String → Option String → SkillAuditEvent
  evaluated : String → String → Bool → Option String → String → SkillAuditEvent
  promoted : String → String → ℕ → Option ℕ → String → SkillAuditEvent
  rolled_back : String → ℕ → ℕ → String → SkillAuditEvent
  quarantined : String → String → String → Option String → SkillAuditEvent
  disabled : String → ℕ → String → String → SkillAuditEvent
  disabled_inherited : String → SkillAuditEvent

-- A directory, in the order in which the system lists it.
mutual
  pub data Node : Type 0 where
    file : String → Node
    folder : Entries → Node

  pub data Entries : Type 0 where
    nothing : Entries
    entry : String → Node → Entries → Entries

unfoldable pub get_node : Entries → String → Option Node
get_node nothing k = none
get_node (entry j n es) k = if j == k then some n else get_node es k

-- `writeFileSync` on a file of the directory
unfoldable pub put_node : String → Node → Entries → Entries
put_node k n nothing = entry k n nothing
put_node k n (entry j m es) =
    let rest = put_node k n es in if j == k then entry k n es else entry j m rest

pub record SkillStore : Type 0 where
  pub candidates : Dict Entries
  pub registry_file : RegistryFile
  pub audit : List SkillAuditEvent

-- The digest of node's `crypto`, and JSON with the schema of the manifest.
pub record Host : Type 0 where
  pub sha : String → String
  pub parse_manifest : String → Option SkillManifest
  pub print_manifest : SkillManifest → String
