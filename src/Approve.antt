-- ===== src/Approve.antt =====
-- The application of a run's patch: src/runs/apply-patch.ts, src/sessions/session-chain.ts and
-- src/cli/commands/approve.ts. Here are the artifacts of a run, the drift of its source, and the
-- chain of patches that a session keeps.
pub mod Command
pub mod Drift
pub mod Cleared
pub mod Willing
pub mod Gate
pub mod Chain
mod Tests
use claude_powerplant.Prelude.{
  ℕ, String, ◌==◌, Bool, true, false, not, ◌&&◌, Option, none, some, List, [], ◌∷◌, ◌++◌, Dict, get,
  put, eqb, length, if◌then◌else◌,
}
use claude_powerplant.Broker.{Attempt, done, threw}

pub record ManifestFile : Type 0 where
  pub relative_path : String
  pub sha256 : String

pub record SourceManifest : Type 0 where
  pub project_id : Option String
  pub source_path : String
  pub files : List ManifestFile

-- What stands under a path of the source
pub data OnDisk : Type 0 where
  absent unreadable : OnDisk
  content : List ℕ → OnDisk

pub record DriftResult : Type 0 where
  pub changed_files : List String
  pub missing_files : List String

abbrev pub is_clean : DriftResult → Bool
is_clean d = eqb (length d.changed_files) 0 && eqb (length d.missing_files) 0

abbrev pub with_file : Bool → Bool → String → DriftResult → DriftResult
with_file is_missing same p d =
    if is_missing
    then record d { missing_files = p ∷ d.missing_files }
    else if same
    then d
    else record d { changed_files = p ∷ d.changed_files }

module _ (sha : List ℕ → String) (disk : String → OnDisk) where
  -- `checkSourceDrift`
  unfoldable pub check_source_drift : List ManifestFile → Attempt DriftResult
  check_source_drift [] = done (record { changed_files = []; missing_files = [] })
  check_source_drift (f ∷ fs) =
      let rest = check_source_drift fs in
      elim (disk f.relative_path) [
        | unreadable ↦ threw "read"
        | absent ↦ elim rest [
          | threw why ↦ threw why
          | done d ↦ done (with_file true true f.relative_path d)
        ]
        | content bytes ↦ elim rest [
          | threw why ↦ threw why
          | done d ↦ done (with_file false (sha bytes == f.sha256) f.relative_path d)
        ]
      ]

pub record ChainLink : Type 0 where
  pub run_id : String
  pub task : List ℕ
  pub evidence_hash : String
  pub applied_at : String
  pub workspace_manifest_hash : String

pub data SessionStatus : Type 0 where
  running closed : SessionStatus

pub record SessionState : Type 0 where
  pub session_id : String
  pub project_id : String
  pub project_path : String
  pub created_at : String
  pub status : SessionStatus
  pub base_manifest_hash : String
  pub chain_links : List ChainLink

-- A file `SESSION.json`, and the directory of all sessions
pub data SessionFile : Type 0 where
  no_session : SessionFile
  stored : SessionState → SessionFile

abbrev pub Sessions : Type 0
Sessions = Dict SessionFile

unfoldable pub load_session : Sessions → String → Attempt SessionState
load_session files id = elim (get files id) [
  | none ↦ threw "not found"
  | some file ↦ elim file [ no_session ↦ threw "invalid" | stored s ↦ done s ]
]

unfoldable pub save_session : SessionState → Sessions → Sessions
save_session s files = put s.session_id (stored s) files

unfoldable pub create_session :
    String → String → String → String → String → Sessions → SessionState × Sessions
create_session id project path base now files =
    let s : SessionState = record {
      session_id = id;
      project_id = project;
      project_path = path;
      created_at = now;
      status = running;
      base_manifest_hash = base;
      chain_links = [];
    } in
    (s, save_session s files)

unfoldable pub close_session : String → Sessions → Attempt (SessionState × Sessions)
close_session id files = elim (load_session files id) [
  | threw why ↦ threw why
  | done s ↦ done (record s { status = closed }, save_session (record s { status = closed }) files)
]

abbrev pub is_closed : SessionStatus → Bool
is_closed running = false
is_closed closed = true

abbrev pub with_link : SessionState → ChainLink → SessionState
with_link s link = record s { chain_links = s.chain_links ++ link ∷ [] }

unfoldable pub extend_session : String → ChainLink → Sessions → Attempt (SessionState × Sessions)
extend_session id link files = elim (load_session files id) [
  | threw why ↦ threw why
  | done s ↦
      if is_closed s.status
      then threw "closed"
      else done (with_link s link, save_session (with_link s link) files)
]
