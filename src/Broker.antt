-- ===== src/Broker.antt =====
-- src/broker/project-tool-broker.ts: the state of the broker, what it asks of the machine around
-- it, and the replies of its tools. The handlers and the session loop are in the modules below.
pub mod Handlers
pub mod Session
pub mod Transcript
pub mod Passive
pub mod Gate
pub mod Finalize
pub mod Receipts
pub mod Conversation
pub mod Sound
pub mod Confinement
pub mod Budget
pub mod Tests
use claude_powerplant.Prelude.{
  ℕ, zero, suc, ◌+◌, ℤ, pos, negsuc, String, ◌==◌, Bool, true, false, not, ◌&&◌, ◌||◌, Option, none,
  some, List, [], ◌∷◌, ◌++◌, Dict, get, put, keys, has, add, delete, length, keep, eqb, leb,
  is_none, if◌then◌else◌,
}
use claude_powerplant.Text.{units, includes, includes_word}
use claude_powerplant.Artifact.{Corruption, detect_artifact_corruption}
use claude_powerplant.Contracts.Verdict.{
  CheckVerdict, CheckResult, is_pass, RunnerKind, test, typecheck, RunCheckDiagnostics,
}
use claude_powerplant.Contracts.Tools.{
  PilotToolName, list_files, read_file, write_file, run_check, finalize, Input, parse_read_file,
  parse_write_file, parse_run_check, parse_finalize, is_read_path_authorized,
  is_write_path_authorized, is_check_authorized, CheckEntry,
}

-- What an effect outside of the program returns: a value, or the error that it throws.
pub data Attempt {ℓ} (A : Type ℓ) : Type ℓ where
  done : A → Attempt A
  threw : String → Attempt A

pub record SourceVerification : Type 0 where
  pub source_unmodified : Bool
  pub changed_files : List String
  pub missing_files : List String
  pub new_files : List String

pub record PatchPackage : Type 0 where
  pub patch_dir : String
  pub patch_files : List String

-- The part of `LoadedProjectContract` that the handlers read.
pub record Contract : Type 0 where
  pub allowed_read_paths : List String
  pub allowed_write_paths : List String
  pub allowed_checks : Dict CheckEntry
  pub verification_profile : Option String

-- What `handleFinalize` passes to `generatePatchPackage`, beside the constants of the run.
pub record PatchRequest : Type 0 where
  pub source_verification : SourceVerification
  pub check_results : Option (List CheckResult)
  pub checks_valid_after_last_write : Bool
  pub custom_tool_counts : Dict ℕ
  pub summary : String

-- The machine around the broker: its files as a value of `Disk`, Docker, the clock, and the
-- functions that only format text. `clock n` is the reading of `Date.now()` after n writes and
-- checks.
pub record Machine (Disk : Type 0) : Type 0 where
  pub walk : Disk → Attempt (List String)
  pub exists : Disk → String → Bool
  pub read : Disk → String → Attempt String
  pub write : Disk → String → String → Disk × Attempt (Unit {0})
  pub run_capsule_check : Disk → String → String → Option String → Disk × Attempt CheckResult
  pub verify_source : Disk → Attempt SourceVerification
  pub generate_patch : Disk → PatchRequest → Disk × Attempt PatchPackage
  pub diagnose : RunnerKind → CheckResult → RunCheckDiagnostics
  pub summarize : Bool → CheckResult → RunCheckDiagnostics → String
  pub clock : ℕ → ℕ

pub data ToolError : Type 0 where
  input_rejected : PilotToolName → ToolError
  read_rejected write_rejected : String → ToolError
  forbidden_marker : ToolError
  corrupt : Corruption → ToolError
  check_rejected : String → List String → ToolError
  missing_checks : List String → ToolError
  checks_stale : ToolError
  finalize_repeated : ToolError
  failed : String → ToolError

pub record RunCheckResult : Type 0 where
  pub check_id : String
  pub passed : Bool
  pub exit_code : ℤ
  pub summary : String
  pub diagnostics : Option RunCheckDiagnostics
  pub advisory : Option Bool

-- The text that a handler returns, before `JSON.stringify`.
pub data Reply : Type 0 where
  files : List String → Reply
  file : String → String → Reply
  not_found : String → Reply
  written : String → Reply
  checked : RunCheckResult → Reply
  finalized : PatchPackage → Reply
  error : ToolError → Reply

pub record BrokerState (Disk : Type 0) : Type 0 where
  pub disk : Disk
  pub passed_required_checks : List String
  pub test_check_passed : Bool
  pub finalize_received : Bool
  pub check_results : List CheckResult
  pub last_check_result : Option CheckResult
  pub patch_package : Option PatchPackage
  pub custom_tool_counts : Dict ℕ
  pub builtin_tool_use_count : ℕ
  pub final_response : String
  pub total_custom_tool_calls : ℕ
  pub checks_valid_after_last_write : Bool
  pub last_write_at : Option ℕ
  pub last_check_passed_at : Option ℕ
  pub computed_results : Dict Reply
  pub read_count : ℕ
  pub write_count : ℕ
  pub check_count : ℕ
  pub finalize_attempted : Bool
  pub budget_exhausted : Bool
  pub last_failed_diagnostic : Option RunCheckDiagnostics
  pub check_fail_streaks : Dict ℕ

-- The ids of the entries that VERIFY.yaml marks as required.
unfoldable pub required_ids : Dict CheckEntry → List String
required_ids [] = []
required_ids ((id, c) ∷ m) = let rest = required_ids m in if c.required then id ∷ rest else rest

abbrev pub forbidden_write_content_marker : String
forbidden_write_content_marker = "POWERPLANT_FORBIDDEN"
