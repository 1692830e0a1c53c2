-- ===== src/Checks.antt =====
-- src/verification/classify-check-result.ts: the verdict on the run of a check, from its exit code and
-- its output. A text is a sequence of UTF-16 code units.
pub mod Signs
pub mod Classification
mod Tests
use claude_powerplant.Prelude.{
  ℕ, zero, suc, ◌-◌, length, leb, String, Bool, true, false, ◌&&◌, ◌||◌, ◌==◌, Option, none, some,
  List, [], ◌∷◌, ◌++◌, any, eqb, if◌then◌else◌,
}
use claude_powerplant.Text.{units, includes, includes_word, lower_all, word_prefix}
use claude_powerplant.Contracts.Verdict.{
  CheckVerdict, pass, fail_check, blocked_missing_tooling, fail_boundary,
  fail_verification_integrity, RunnerKind, test, typecheck,
}

-- `new RegExp(p, 'i').test(s)`, for a `p` of letters, digits and marks that stand for themselves
unfoldable pub includes_any_case : List ℕ → String → Bool
includes_any_case s p = includes (lower_all s) (lower_all (units p))

-- `/\bp\b/i.test(s)`
unfoldable pub includes_word_any_case : List ℕ → String → Bool
includes_word_any_case s p = includes_word (lower_all s) (lower_all (units p))

abbrev pub any_case_signals : List String
any_case_signals =
    "command not found" ∷ ": not found" ∷ "Cannot find module 'vitest'"
    ∷ "Cannot find module 'typescript'" ∷ "Cannot find module '@vitest/" ∷ "npm ERR! missing script"
    ∷ []

-- Does one of the patterns of missing tools match?
unfoldable pub tooling_missing : List ℕ → Bool
tooling_missing s =
    any (includes_any_case s) any_case_signals || includes_word s (units "MODULE_NOT_FOUND")

-- What ends a line for `^` under the flag `m`
unfoldable pub ends_line : ℕ → Bool
ends_line c = eqb c 10 || eqb c 13 || eqb c 0x2028 || eqb c 0x2029

unfoldable pub starts_line_with : Bool → List ℕ → List ℕ → Bool
starts_line_with at_start p [] = at_start && word_prefix p []
starts_line_with at_start p (c ∷ s) =
    (at_start && word_prefix p (c ∷ s)) || starts_line_with (ends_line c) p s

-- Does one of the patterns of a run without tests match?
unfoldable pub zero_tests : List ℕ → Bool
zero_tests s =
    starts_line_with true (units "# tests 0") s
    || includes_word_any_case s "No test files found"
    || includes_word_any_case s "ran 0 tests"

unfoldable pub classify_test_check_integrity : List ℕ → CheckVerdict
classify_test_check_integrity stdout =
    if zero_tests stdout then fail_verification_integrity else pass

-- A spawn error is its code, where it has one.
pub record CheckClassificationInput : Type 0 where
  pub spawn_error : Option (Option String)
  pub exit_code : Option ℕ
  pub stdout : List ℕ
  pub stderr : List ℕ
  pub check_kind : Option RunnerKind

-- `spawnError !== null` and its code is `ENOENT`
unfoldable pub binary_missing : Option (Option String) → Bool
binary_missing (some (some error_code)) = error_code == "ENOENT"
binary_missing (some none) = false
binary_missing none = false

-- `exitCode === 127`
unfoldable pub command_missing : Option ℕ → Bool
command_missing (some n) = eqb n 127
command_missing none = false

-- `checkKind === 'test'`
unfoldable pub is_test : Option RunnerKind → Bool
is_test (some test) = true
is_test (some typecheck) = false
is_test none = false

-- The exit code, where no sign of a missing tool was found
unfoldable pub judge_exit : Option ℕ → Option RunnerKind → List ℕ → CheckVerdict
judge_exit none kind stdout = fail_boundary
judge_exit (some n) kind stdout =
    if eqb n 0
    then if is_test kind then classify_test_check_integrity stdout else pass
    else fail_check

unfoldable pub classify_check_result : CheckClassificationInput → CheckVerdict
classify_check_result i =
    if binary_missing i.spawn_error
    then blocked_missing_tooling
    else if command_missing i.exit_code
    then blocked_missing_tooling
    else if tooling_missing (i.stdout ++ 10 ∷ i.stderr)
    then blocked_missing_tooling
    else judge_exit i.exit_code i.check_kind i.stdout

abbrev drop_units : ℕ → List ℕ → List ℕ
drop_units zero s = s
drop_units (suc n) [] = []
drop_units (suc n) (c ∷ s) = drop_units n s

abbrev pub safe_output_tail_bytes : ℕ
safe_output_tail_bytes = 2048

-- `tailOutput`, which counts code units
unfoldable pub tail_output : List ℕ → List ℕ
tail_output raw =
    if leb (length raw) safe_output_tail_bytes
    then raw
    else 0x2026 ∷ drop_units (length raw - safe_output_tail_bytes) raw
