-- ===== src/Ingest/Import.antt =====
-- `ingestSkillPackage` of src/skills/skill-ingestion.ts: both gates, the quarantine, the stored metadata
-- and the audit events. An identifier, the clock and the source tree with what becomes of its files
-- are arguments. What `rmSync` and `renameSync` do is an argument too, since their errors are caught.
use claude_powerplant.Prelude.{
  ℕ, String, Bool, Option, none, some, List, [], ◌∷◌, ◌++◌, Dict, put, if◌then◌else◌,
}
use claude_powerplant.Text.{units}
use claude_powerplant.Ingest.{
  Gate0Limits, Directory, ValidatedFileEntry, Rejection, rejection, acceptance,
}
use claude_powerplant.Ingest.Walk.{walk_source_directory}
use claude_powerplant.Ingest.Copy.{
  SourceFile, CopyFailure, copied, failed, threw, Snapshot, copy_to_snapshot,
}
use claude_powerplant.Ingest.Schema.{
  CandidateManifest, Reader, Gate1Issue, gate1_success, gate1_failure, validate_candidate_schema,
}

-- What `lstat` says of the source path.
pub data SourcePath : Type 0 where
  missing link not_directory : SourcePath
  root : Directory → SourcePath

pub data Gate0Reason : Type 0 where
  source_missing source_link source_not_directory : Gate0Reason
  walk_rejected : Rejection → Gate0Reason
  copy_failed : CopyFailure → Gate0Reason

-- The audit events of an import, with the source path left out
pub data ImportEvent : Type 0 where
  rejected_at_gate0 : Gate0Reason → ImportEvent
  rejected_at_gate1 : Gate1Issue → String → ImportEvent
  imported : String → List ℕ → ImportEvent

-- A candidate: its snapshot, and the manifest in `.powerplant-meta.json` beside it.
pub record Candidate : Type 0 where
  pub snapshot : Snapshot
  pub meta : Option CandidateManifest

pub record ImportStore : Type 0 where
  pub candidates : Dict Candidate
  pub quarantine : Dict Snapshot
  pub audit : List ImportEvent

pub data IngestionResult : Type 0 where
  ingested : String → List ℕ → IngestionResult
  failed_gate0 : Gate0Reason → IngestionResult
  failed_gate1 : Gate1Issue → String → IngestionResult
  ingestion_threw : IngestionResult

pub record ImportEnv : Type 0 where
  pub source_path : SourcePath
  pub escapes : String → Bool
  pub source : ValidatedFileEntry → SourceFile
  pub candidate_id : String
  pub now : List ℕ
  pub reader : Reader
  pub removes : Bool
  pub moves : Bool

abbrev pub log : ImportEvent → ImportStore → ImportStore
log event s = record s { audit = s.audit ++ event ∷ [] }

unfoldable pub reject_gate0 : Gate0Reason → ImportStore → IngestionResult × ImportStore
reject_gate0 reason s = (failed_gate0 reason, log (rejected_at_gate0 reason) s)

-- The directory of the candidate with the files of a snapshot
abbrev pub with_candidate : String → Snapshot → Option CandidateManifest → ImportStore → ImportStore
with_candidate id snapshot meta s = record s {
  candidates = put id (record { snapshot = snapshot; meta = meta }) s.candidates;
}

-- The move of a candidate to the quarantine
unfoldable pub quarantined : Bool → String → Snapshot → ImportStore → ImportStore
quarantined moves id snapshot s =
    if moves
    then record s { quarantine = put id snapshot s.quarantine }
    else with_candidate id snapshot none s

unfoldable pub gate1 : ImportEnv → Snapshot → ImportStore → IngestionResult × ImportStore
gate1 env snapshot s =
    elim (validate_candidate_schema env.reader env.now snapshot env.candidate_id
      (units env.candidate_id)) [
        | gate1_failure issue ↦ (
          failed_gate1 issue env.candidate_id,
          log (rejected_at_gate1 issue env.candidate_id)
              (quarantined env.moves env.candidate_id snapshot s),
        )
        | gate1_success m ↦ (
          ingested env.candidate_id m.name,
          log (imported env.candidate_id m.name)
              (with_candidate env.candidate_id snapshot (some m) s),
        )
      ]

-- A snapshot that could not be made is removed, if that succeeds.
unfoldable pub copy_package :
    ImportEnv → Gate0Limits → List ValidatedFileEntry → ImportStore → IngestionResult × ImportStore
copy_package env l files s =
    let (result, snapshot) = copy_to_snapshot l env.source files in
    elim result [
      | copied n ↦ gate1 env snapshot s
      | failed failure ↦
          reject_gate0 (copy_failed failure)
            (if env.removes then s else with_candidate env.candidate_id snapshot none s)
      | threw ↦ (ingestion_threw, with_candidate env.candidate_id snapshot none s)
    ]

unfoldable pub ingest_skill_package :
    ImportEnv → Gate0Limits → ImportStore → IngestionResult × ImportStore
ingest_skill_package env l s = elim env.source_path [
  | missing ↦ reject_gate0 source_missing s
  | link ↦ reject_gate0 source_link s
  | not_directory ↦ reject_gate0 source_not_directory s
  | root d ↦ elim (walk_source_directory env.escapes l d) [
    | rejection r ↦ reject_gate0 (walk_rejected r) s
    | acceptance w ↦ copy_package env l w.files s
  ]
]
