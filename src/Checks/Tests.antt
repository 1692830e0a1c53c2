-- ===== src/Checks/Tests.antt =====
-- The classification of the runs of checks, the tail of an output, and the property at a run that passes.
use claude_powerplant.Prelude.{◌≡◌, refl, ◌↔◌, none, some, true}
use claude_powerplant.Text.{units, includes, lower_all, is_word}
use claude_powerplant.Contracts.Verdict.{pass, test}
use claude_powerplant.Checks.{
  CheckClassificationInput, tooling_missing, zero_tests, classify_check_result, includes_any_case,
  starts_line_with, ends_line, tail_output,
}
use claude_powerplant.Checks.Classification.{Says, verdict_iff}

abbrev green : CheckClassificationInput
green = record {
  spawn_error = none;
  exit_code = some 0;
  stdout = units "Tests 3 passed";
  stderr = units "";
  check_kind = some test;
}

tap_summary : zero_tests (units "ok\n# tests 0\n") ≡ true
unfolding zero_tests starts_line_with units ends_line is_word
tap_summary = refl

shell_message : tooling_missing (units "sh: 1: Vitest: NOT found") ≡ true
unfolding tooling_missing includes_any_case includes lower_all units
shell_message = refl

short_is_kept : tail_output (units "ok") ≡ units "ok"
unfolding tail_output units
short_is_kept = refl

verdict_iff_example : (classify_check_result green ≡ pass) ↔ Says pass green
verdict_iff_example = verdict_iff pass green
