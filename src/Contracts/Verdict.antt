-- ===== src/Contracts/Verdict.antt =====
-- src/contracts/verification-preflight-report.ts and the diagnostics of
-- src/contracts/project-tool-contracts.ts: the result of one check.
use claude_powerplant.Prelude.{ℕ, String, Bool, true, false, Option, List}

pub data CheckVerdict : Type 0 where
  pass fail_check blocked_missing_tooling fail_boundary fail_verification_integrity : CheckVerdict

pub record CheckResult : Type 0 where
  pub check_id : String
  pub command : String
  pub verdict : CheckVerdict
  pub exit_code : Option ℕ
  pub stdout_tail : String
  pub stderr_tail : String
  pub detail : Option String
  pub advisory : Option Bool

-- `verdict === 'PASS'`
abbrev pub is_pass : CheckVerdict → Bool
is_pass pass = true
is_pass _ = false

-- `verdict === 'FAIL_VERIFICATION_INTEGRITY'`
abbrev pub is_integrity_failure : CheckVerdict → Bool
is_integrity_failure fail_verification_integrity = true
is_integrity_failure _ = false

pub data RunnerKind : Type 0 where
  test typecheck : RunnerKind

pub record TestFailureEntry : Type 0 where
  pub file : Option String
  pub name : Option String
  pub message : Option String
  pub expected : Option String
  pub received : Option String
  pub location : Option String

pub record TypescriptErrorEntry : Type 0 where
  pub file : String
  pub line : ℕ
  pub col : ℕ
  pub code : String
  pub message : String

pub record RunCheckDiagnostics : Type 0 where
  pub runner_kind : RunnerKind
  pub verdict : CheckVerdict
  pub exit_code : Option ℕ
  pub failing_tests : Option (List TestFailureEntry)
  pub typescript_errors : Option (List TypescriptErrorEntry)
  pub truncated : Bool
