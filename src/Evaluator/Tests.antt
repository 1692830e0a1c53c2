-- ===== src/Evaluator/Tests.antt =====
-- Runs of the evaluators, and their properties at inputs that meet their hypotheses.
use claude_powerplant.Prelude.{
  ℕ, ◌≡◌, refl, ◌↔◌, true, false, Option, none, some, List, [], ◌∷◌, ◌++◌, All, ltb, arith,
}
use claude_powerplant.Text.{units}
use claude_powerplant.Evaluator.{Json, value, pass, create_oracle_bundle, is_tampered}
use claude_powerplant.Evaluator.Spawn.{
  ChildEvent, stdout_data, stderr_data, timer_fired, closed, SpawnCapsuleResult, new_child,
  on_stdout, settled, run_child,
}
use claude_powerplant.Evaluator.Capsule.{
  digests, contents, CapsuleEnv, CapsuleOptions, CapsuleReceipt, refused, finished,
  run_oracle_in_capsule,
}
use claude_powerplant.Evaluator.Oracle.{SyncEnv, EvaluatorReceipt, run_oracle_with_fixture}
use claude_powerplant.Evaluator.Channels.{Approved, FileSays}
use claude_powerplant.Evaluator.Verdict.{Vouched, capsule_pass_iff}
use claude_powerplant.Evaluator.Fixture.{Ended, fixture_pass_iff}
use claude_powerplant.Evaluator.Reports.{
  Flowing, Ends, stdout_bytes, stdout_text, fired, child_reports,
}

abbrev last_parse : List ℕ → Option Json
last_parse [] = none
last_parse (c ∷ s) = some (value (some "PASS"))

abbrev chatty : List ChildEvent
chatty =
    stdout_data 3 (units "abc")
    ∷ stderr_data (units "warn")
    ∷ stdout_data 2 (units "de")
    ∷ timer_fired
    ∷ closed (some 137)
    ∷ []

abbrev cut_off : SpawnCapsuleResult
cut_off = record {
  exit_code = some 137;
  timed_out = true;
  output_capped = true;
  diagnostics = units "abcwarnde";
  stdout = units "abcde";
}

chatty_is_cut : run_child 4 new_child chatty ≡ some cut_off
unfolding run_child new_child on_stdout settled units
chatty_is_cut = refl

child_reports_example :
    (before : List ChildEvent) × ((last : ChildEvent) × ((after : List ChildEvent) × (chatty
          ≡ before ++ last ∷ after)
        × All Flowing before
        × Ends last (some 137)
        × (units "abcde" ≡ stdout_text before)
        × (true ≡ ltb 4 (stdout_bytes before))
        × (true ≡ fired before)))
child_reports_example = child_reports 4 chatty cut_off chatty_is_cut

abbrev env : CapsuleEnv
env = record {
  sha = λ bytes. "h";
  parse = last_parse;
  inspection = digests ("node@sha256:1" ∷ []);
  oracle_file = [];
  sets_up = true;
  child_events = stdout_data 28 (units "ORACLE_TRUSTED_RESULT: {\"a\"}") ∷ closed (some 0) ∷ [];
  output_file = contents [];
  removes = true;
}

abbrev options : CapsuleOptions
options = record {
  bundle = record { oracle_sha256 = "other"; bundled_oracle_path = "/tmp/oracle.js" };
  fixture = [];
  max_output_bytes = 100;
  expected_reference = "node@sha256:1";
}

capsule_pass_iff_example :
    (((receipt : CapsuleReceipt) × (run_oracle_in_capsule env options ≡ finished receipt)
        × (receipt.evaluation.status ≡ pass))
      ↔ Vouched env options)
    × (¬ Approved (digests ("node@sha256:1" ∷ [])) "node@sha256:1"
        → run_oracle_in_capsule env options ≡ refused)
capsule_pass_iff_example = capsule_pass_iff env options

copy_is_intact :
    is_tampered (λ bytes. "h") [] (create_oracle_bundle (λ bytes. "h") "/tmp/o" []).oracle_sha256
    ≡ false
unfolding is_tampered create_oracle_bundle
copy_is_intact = ground arith

abbrev quiet : SyncEnv
quiet = record {
  sha = λ bytes. "h";
  parse = last_parse;
  oracle_file = [];
  sets_up = true;
  result = record { error_code = none; signal = none; stdout = []; stderr = [] };
  shown = record { error_text = []; kill_text = [] };
  output_file = contents (units "{\"a\"}");
  removes = true;
}

fixture_pass_iff_example :
    ((run_oracle_with_fixture quiet options.bundle [] 65536 ≡ none) ↔ (quiet.sets_up ≡ false))
    × ((receipt : EvaluatorReceipt)
        → run_oracle_with_fixture quiet options.bundle [] 65536 ≡ some receipt
        → ((receipt.judgement.status ≡ pass) ↔ (
            Ended 65536 quiet.result
            × FileSays last_parse (contents (units "{\"a\"}")) (some "PASS")))
          × ((receipt.tamper_check_passed ≡ true)
              ↔ (quiet.sha quiet.oracle_file ≡ options.bundle.oracle_sha256)))
fixture_pass_iff_example = fixture_pass_iff quiet options.bundle [] 65536
