-- ===== src/Outcome/Tests.antt =====
-- The verdict of src/projects/evaluate-terminal-outcome.ts at one run that passes.
use claude_powerplant.Prelude.{◌≡◌, ◌↔◌, true, false, none, []}
use claude_powerplant.Outcome.{RunEvidence, evaluate_terminal_run_outcome}
use claude_powerplant.Outcome.Verdicts.{IsVerified, IsVerified-iff, failure_reason_iff}

abbrev run : RunEvidence
run = record {
  check_results = [];
  checks_valid_after_last_write = true;
  test_check_passed = true;
  finalize_received = true;
  finalize_attempted = true;
  budget_exhausted = false;
  builtin_tool_use_count = 0;
  source_unmodified = true;
  final_response = [];
  check_fail_streaks = [];
  patch_package_present = true;
  read_count = 1;
  write_count = 1;
  check_count = 1;
  last_failed_diagnostic = none;
}

-- The same run after a call of a built-in tool.
abbrev strayed : RunEvidence
strayed = record run { builtin_tool_use_count = 1 }

IsVerified-iff_example :
    ((evaluate_terminal_run_outcome run).final_verification_passed ≡ true) ↔ IsVerified run
IsVerified-iff_example = IsVerified-iff run

failure_reason_iff_example :
    ((evaluate_terminal_run_outcome strayed).failure_reason ≡ none)
    ↔ ((evaluate_terminal_run_outcome strayed).final_verification_passed ≡ true)
failure_reason_iff_example = failure_reason_iff strayed
