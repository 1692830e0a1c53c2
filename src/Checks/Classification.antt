-- ===== src/Checks/Classification.antt =====
-- What a verdict of src/verification/classify-check-result.ts says of the run.
use claude_powerplant.Prelude.{
  ◌≡◌, refl, ap, ◌∙◌, ◌↔◌, ◌≢◌, ℕ, true, false, Option, none, some, List, arith, inl, inr,
  Bool-cases, Option-cases, ◌⊎◌,
}
use claude_powerplant.Contracts.Verdict.{
  CheckVerdict, pass, fail_check, blocked_missing_tooling, fail_boundary,
  fail_verification_integrity, RunnerKind, test,
}
use claude_powerplant.Checks.{
  CheckClassificationInput, zero_tests, classify_test_check_integrity, is_test, judge_exit,
  classify_check_result,
}
use claude_powerplant.Checks.Signs.{
  LacksTool, TellsOfNoTests, lacks_tool, zero_tests_iff, is_test_iff, lacks_iff, refuted_iff,
}

-- What each verdict says of a run
abbrev pub Says : CheckVerdict → CheckClassificationInput → Type 0
Says blocked_missing_tooling i = LacksTool i
Says fail_boundary i = (LacksTool i → ⊥) × (i.exit_code ≡ none)
Says pass i =
    (LacksTool i → ⊥)
    × (i.exit_code ≡ some 0)
    × (i.check_kind ≡ some test → TellsOfNoTests i.stdout → ⊥)
Says fail_verification_integrity i =
    (LacksTool i → ⊥)
    × (i.exit_code ≡ some 0)
    × (i.check_kind ≡ some test)
    × TellsOfNoTests i.stdout
Says fail_check i = (LacksTool i → ⊥) × ((n : ℕ) × ((i.exit_code ≡ some n) × (n ≢ 0)))

-- What each verdict says of a run, by the tests of the source
abbrev Judged : CheckVerdict → CheckClassificationInput → Type 0
Judged blocked_missing_tooling i = lacks_tool i ≡ true
Judged fail_boundary i = (lacks_tool i ≡ false) × (i.exit_code ≡ none)
Judged pass i =
    (lacks_tool i ≡ false)
    × (i.exit_code ≡ some 0)
    × (is_test i.check_kind ≡ true → zero_tests i.stdout ≡ false)
Judged fail_verification_integrity i =
    (lacks_tool i ≡ false)
    × (i.exit_code ≡ some 0)
    × (is_test i.check_kind ≡ true)
    × (zero_tests i.stdout ≡ true)
Judged fail_check i = (lacks_tool i ≡ false) × ((n : ℕ) × ((i.exit_code ≡ some n) × (n ≢ 0)))

blocked :
    (i : CheckClassificationInput)
    → lacks_tool i ≡ true
    → classify_check_result i ≡ blocked_missing_tooling
unfolding classify_check_result
blocked i lacks = ground (arith, lacks)

judged :
    (i : CheckClassificationInput)
    → lacks_tool i ≡ false
    → classify_check_result i ≡ judge_exit i.exit_code i.check_kind i.stdout
unfolding classify_check_result
judged i has = ground (arith, has)

-- With the exit code 0 a check is a test without tests or is not.
found_or_not :
    (kind : Option RunnerKind) (stdout : List ℕ)
    → (is_test kind ≡ true → zero_tests stdout ≡ false)
      ⊎ ((is_test kind ≡ true) × (zero_tests stdout ≡ true))
found_or_not kind stdout = elim (Bool-cases (zero_tests stdout)) [
  | inr found ↦ inl (λ _. found)
  | inl none_found ↦ elim (Bool-cases (is_test kind)) [
    | inl tests ↦ inr (tests, none_found)
    | inr other ↦ inl (λ tests. absurd (ground (arith, other, tests)))
  ]
]

judge_exit-nonzero :
    (n : ℕ) (kind : Option RunnerKind) (stdout : List ℕ)
    → n ≢ 0
    → judge_exit (some n) kind stdout ≡ fail_check
unfolding judge_exit
judge_exit-nonzero n kind stdout nonzero = ground (arith, nonzero)

-- The two cases of the exit code that a verdict tells apart.
zero_or_not : (n : ℕ) → (n ≡ 0) ⊎ (n ≢ 0)
zero_or_not n = ground arith

passing :
    (kind : Option RunnerKind) (stdout : List ℕ)
    → (is_test kind ≡ true → zero_tests stdout ≡ false)
    → judge_exit (some 0) kind stdout ≡ pass
unfolding judge_exit classify_test_check_integrity
passing kind stdout found = elim (Bool-cases (is_test kind)) [
  | inl tests ↦ rw (tests, found tests) refl
  | inr other ↦ rw other refl
]

testless :
    (kind : Option RunnerKind) (stdout : List ℕ)
    → is_test kind ≡ true
    → zero_tests stdout ≡ true
    → judge_exit (some 0) kind stdout ≡ fail_verification_integrity
unfolding judge_exit classify_test_check_integrity
testless kind stdout tests none_found = rw (tests, none_found) refl

given : (v : CheckVerdict) (i : CheckClassificationInput) → Judged v i → classify_check_result i ≡ v
unfolding judge_exit
given blocked_missing_tooling i lacks = blocked i lacks
given fail_boundary i (has, never) = rw (judged i has, never) refl
given pass i (has, ended, found) = rw (judged i has, ended) (passing i.check_kind i.stdout found)
given fail_verification_integrity i (has, ended, tests, none_found) =
    rw (judged i has, ended) (testless i.check_kind i.stdout tests none_found)
given fail_check i (has, (n, (ended, nonzero))) =
    rw (judged i has, ended) (judge_exit-nonzero n i.check_kind i.stdout nonzero)

ended_well :
    (i : CheckClassificationInput)
    → lacks_tool i ≡ false
    → i.exit_code ≡ some 0
    → Judged (classify_check_result i) i
ended_well i has ended = elim (found_or_not i.check_kind i.stdout) [
  | inl found ↦ rw (given pass i (has, ended, found)) (has, ended, found)
  | inr (tests, none_found) ↦
      rw (given fail_verification_integrity i (has, ended, tests, none_found))
        (has, ended, tests, none_found)
]

classified : (i : CheckClassificationInput) → Judged (classify_check_result i) i
classified i = elim (Bool-cases (lacks_tool i)) [
  | inl lacks ↦ rw (given blocked_missing_tooling i lacks) lacks
  | inr has ↦ elim (Option-cases i.exit_code) [
    | inl never ↦ rw (given fail_boundary i (has, never)) (has, never)
    | inr (n, ended) ↦ elim (zero_or_not n) [
      | inl zero_code ↦ ended_well i has (ended ∙ ap some zero_code)
      | inr nonzero ↦
          rw (given fail_check i (has, (n, (ended, nonzero)))) (has, (n, (ended, nonzero)))
    ]
  ]
]

spoken : (v : CheckVerdict) (i : CheckClassificationInput) → Judged v i → Says v i
spoken blocked_missing_tooling i lacks = (lacks_iff i).0 lacks
spoken fail_boundary i (has, never) = ((refuted_iff (lacks_tool i) (lacks_iff i)).0 has, never)
spoken pass i (has, ended, found) = (
  (refuted_iff (lacks_tool i) (lacks_iff i)).0 has,
  ended,
  (λ tests.
      (refuted_iff (zero_tests i.stdout) (zero_tests_iff i.stdout)).0
        (found ((is_test_iff i.check_kind).1 tests))),
)
spoken fail_verification_integrity i (has, ended, tests, none_found) = (
  (refuted_iff (lacks_tool i) (lacks_iff i)).0 has,
  ended,
  (is_test_iff i.check_kind).0 tests,
  (zero_tests_iff i.stdout).0 none_found,
)
spoken fail_check i (has, ended) = ((refuted_iff (lacks_tool i) (lacks_iff i)).0 has, ended)

tested : (v : CheckVerdict) (i : CheckClassificationInput) → Says v i → Judged v i
tested blocked_missing_tooling i lacks = (lacks_iff i).1 lacks
tested fail_boundary i (has, never) = ((refuted_iff (lacks_tool i) (lacks_iff i)).1 has, never)
tested pass i (has, ended, found) = (
  (refuted_iff (lacks_tool i) (lacks_iff i)).1 has,
  ended,
  (λ tests.
      (refuted_iff (zero_tests i.stdout) (zero_tests_iff i.stdout)).1
        (found ((is_test_iff i.check_kind).0 tests))),
)
tested fail_verification_integrity i (has, ended, tests, none_found) = (
  (refuted_iff (lacks_tool i) (lacks_iff i)).1 has,
  ended,
  (is_test_iff i.check_kind).1 tests,
  (zero_tests_iff i.stdout).1 none_found,
)
tested fail_check i (has, ended) = ((refuted_iff (lacks_tool i) (lacks_iff i)).1 has, ended)

-- A verdict is given exactly if what it says of the run is so: `BLOCKED_MISSING_TOOLING` if the spawn
-- error is `ENOENT`, the exit code 127, or the output, both channels together, has one of the six
-- phrases of a missing tool, in any case, or the word MODULE_NOT_FOUND; else `FAIL_BOUNDARY` if there
-- is no exit code, `FAIL_CHECK` if it is not 0, and with the exit code 0
-- `FAIL_VERIFICATION_INTEGRITY` if the check is a test whose output tells of no tests (a line that
-- begins with `# tests 0`, or one of two phrases in any case), and `PASS` if it is no such check.
pub verdict_iff :
    (v : CheckVerdict) (i : CheckClassificationInput) → (classify_check_result i ≡ v) ↔ Says v i
verdict_iff v i =
    ((λ e. spoken v i (rw e at (classified i))), (λ says. given v i (tested v i says)))
