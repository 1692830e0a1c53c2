-- ===== src/Outcome.antt =====
-- src/projects/evaluate-terminal-outcome.ts: the verdict on a finished run.
pub mod Verdicts
mod Tests
use claude_powerplant.Prelude.{
  ℕ, String, ◌==◌, Bool, true, false, not, ◌&&◌, ◌||◌, Option, none, some, List, [], ◌∷◌, Dict, any,
  last?, leb, ltb, eqb, if◌then◌else◌,
}
use claude_powerplant.Text.{units, includes, trim}
use claude_powerplant.Contracts.Verdict.{CheckResult, is_integrity_failure, RunCheckDiagnostics}

pub data RunTerminationReason : Type 0 where
  completed failed_incomplete_agent_run failed_tool_budget_exhausted : RunTerminationReason

pub data FailureReason : Type 0 where
  terminated : RunTerminationReason → FailureReason
  check_failed checks_invalidated source_modified builtin_tools_used no_patch : FailureReason

-- The argument of `evaluateTerminalRunOutcome`; `final_response` in code units.
pub record RunEvidence : Type 0 where
  pub check_results : List CheckResult
  pub checks_valid_after_last_write : Bool
  pub test_check_passed : Bool
  pub finalize_received : Bool
  pub finalize_attempted : Bool
  pub budget_exhausted : Bool
  pub builtin_tool_use_count : ℕ
  pub source_unmodified : Bool
  pub final_response : List ℕ
  pub check_fail_streaks : Dict ℕ
  pub patch_package_present : Bool
  pub read_count : ℕ
  pub write_count : ℕ
  pub check_count : ℕ
  pub last_failed_diagnostic : Option RunCheckDiagnostics

pub record TerminalRunOutcome : Type 0 where
  pub termination_reason : RunTerminationReason
  pub final_verification_passed : Bool
  pub patch_eligible_for_application : Bool
  pub ordered_check_attempt_history : List CheckResult
  pub final_check_result : Option CheckResult
  pub read_count : ℕ
  pub write_count : ℕ
  pub check_count : ℕ
  pub finalize_attempted : Bool
  pub artifacts_complete : Bool
  pub repeated_check_failures : Bool
  pub failure_reason : Option FailureReason
  pub last_failed_diagnostic : Option RunCheckDiagnostics

pub record RunClassification : Type 0 where
  pub termination_reason : RunTerminationReason
  pub patch_eligible_for_application : Bool
  pub read_count : ℕ
  pub write_count : ℕ
  pub check_count : ℕ
  pub finalize_attempted : Bool
  pub artifacts_complete : Bool
  pub repeated_check_failures : Bool
  pub last_failed_diagnostic : Option RunCheckDiagnostics

abbrev pub final_response_marker : String
final_response_marker = "SANITIZED PILOT PATCH COMPLETE"

pub termination_of : Bool → Bool → RunTerminationReason
termination_of budget_exhausted finalize_received =
    if budget_exhausted
    then failed_tool_budget_exhausted
    else if not finalize_received
    then failed_incomplete_agent_run
    else completed

abbrev pub is_completed : RunTerminationReason → Bool
is_completed completed = true
is_completed _ = false

-- `finalCheckResult?.verdict === 'FAIL_VERIFICATION_INTEGRITY'`
abbrev pub ends_without_integrity : Option CheckResult → Bool
ends_without_integrity none = false
ends_without_integrity (some r) = is_integrity_failure r.verdict

abbrev any_streak : Dict ℕ → Bool
any_streak [] = false
any_streak ((k, n) ∷ m) = leb 3 n || any_streak m

pub completion_signal_ok : RunEvidence → Bool
completion_signal_ok e =
    (e.finalize_received && e.patch_package_present)
    || includes (trim e.final_response) (units final_response_marker)

pub final_verification : RunEvidence → Bool
unfolding termination_of completion_signal_ok
final_verification e =
    is_completed (termination_of e.budget_exhausted e.finalize_received)
    && e.finalize_received
    && e.patch_package_present
    && e.checks_valid_after_last_write
    && e.test_check_passed
    && not (ends_without_integrity (last? e.check_results))
    && e.source_unmodified
    && eqb e.builtin_tool_use_count 0
    && completion_signal_ok e

-- The cascade of the failed run; `none` where no test of it applies.
pub failure_of : RunEvidence → Option FailureReason
unfolding termination_of
failure_of e =
    if not (is_completed (termination_of e.budget_exhausted e.finalize_received))
    then some (terminated (termination_of e.budget_exhausted e.finalize_received))
    else if not e.test_check_passed || ends_without_integrity (last? e.check_results)
    then some check_failed
    else if not e.checks_valid_after_last_write
    then some checks_invalidated
    else if not e.source_unmodified
    then some source_modified
    else if ltb 0 e.builtin_tool_use_count
    then some builtin_tools_used
    else if not e.patch_package_present
    then some no_patch
    else none

pub evaluate_terminal_run_outcome : RunEvidence → TerminalRunOutcome
unfolding final_verification failure_of termination_of
evaluate_terminal_run_outcome e =
    let passed = final_verification e in
    record {
      termination_reason = termination_of e.budget_exhausted e.finalize_received;
      final_verification_passed = passed;
      patch_eligible_for_application = passed;
      ordered_check_attempt_history = e.check_results;
      final_check_result = last? e.check_results;
      read_count = e.read_count;
      write_count = e.write_count;
      check_count = e.check_count;
      finalize_attempted = e.finalize_attempted;
      artifacts_complete = e.patch_package_present;
      repeated_check_failures = any_streak e.check_fail_streaks;
      failure_reason = if passed then none else failure_of e;
      last_failed_diagnostic = if passed then none else e.last_failed_diagnostic;
    }

pub to_run_classification : TerminalRunOutcome → RunClassification
to_run_classification o = record {
  termination_reason = o.termination_reason;
  patch_eligible_for_application = o.patch_eligible_for_application;
  read_count = o.read_count;
  write_count = o.write_count;
  check_count = o.check_count;
  finalize_attempted = o.finalize_attempted;
  artifacts_complete = o.artifacts_complete;
  repeated_check_failures = o.repeated_check_failures;
  last_failed_diagnostic = o.last_failed_diagnostic;
}
