-- ===== src/Broker/Tests.antt =====
-- A machine for src/broker/project-tool-broker.ts whose disk is a table of files, and a contract.
mod Calls
mod Runs
use mathlib.Core.Path.{subst}
use claude_powerplant.Prelude.{
  ℕ, zero, suc, eq_iff, ◌≡◌, ◌≢◌, refl, ◌↔◌, String, true, false, none, some, List, [], ◌∷◌, Dict,
  get, put, keys, get-put, add, is_some, Distinct, arith, has,
}
use claude_powerplant.Text.{units, includes, is_letter, is_digit, unit_pair}
use claude_powerplant.Glob.{matches_glob}
use claude_powerplant.Artifact.{
  detect_artifact_corruption, detect_newline_escape_corruption, detect_quote_escape_corruption,
  has_extension, count, count_escaped, longest_line,
}
use claude_powerplant.Contracts.Verdict.{CheckResult, pass, fail_check, RunCheckDiagnostics}
use claude_powerplant.Contracts.Tools.{
  known_tool, text, Input, fields, no_object, write_file, run_check, finalize, CheckEntry,
  parse_finalize, in_length, parse_run_check, is_check_id, is_safe_relative_path,
  is_write_path_authorized, parse_write_file, valid_path,
}
use claude_powerplant.Outcome.{failed_tool_budget_exhausted}
use claude_powerplant.Outcome.Verdicts.{IsVerified, IsVerified-iff}
use claude_powerplant.Broker.{
  Attempt, done, threw, Contract, Machine, PatchPackage, SourceVerification, BrokerState, finalized,
  written, checked, Reply, required_ids,
}
use claude_powerplant.Broker.Handlers.{
  finalize_refusal, handle, handle_finalize, missing_ids, handle_run_check, run_declared_check,
  record_check, record_verdict, mark_advisory, check_reply, finalize_admitted, handle_write_file,
  invalidate_checks, runner_kind, write_admitted, write_refusal,
}
use claude_powerplant.Broker.Session.{
  StreamEvent, custom_tool_use, requires_action, idle, Progress, stopped, initial, count_custom,
  round, read_stream, start_turn, run_tools, run_tool, result_events, session, session_result,
  evidence,
}
use claude_powerplant.Broker.Transcript.{
  passed_since, checked_since, expected_refusal, Reachable, begin, call,
}
use claude_powerplant.Broker.Gate.{Tracks, Reachable-Tracks}
use claude_powerplant.Broker.Finalize.{finalized_verified, finalize_accepted_iff}
use claude_powerplant.Broker.Receipts.{Receipts, Reachable-Receipts}
use claude_powerplant.Broker.Conversation.{Ends}
use claude_powerplant.Broker.Sound.{Vouches, passed_sound}
use claude_powerplant.Broker.Confinement.{KeptBy, session_confined}
use claude_powerplant.Broker.Budget.{calls, is_waiting, session_bounded, budget_denies}

abbrev pub read_table : Dict String → String → Attempt String
read_table d p = elim (get d p) [ none ↦ threw "ENOENT" | some c ↦ done c ]

abbrev pub clean : SourceVerification
clean = record { source_unmodified = true; changed_files = []; missing_files = []; new_files = [] }

abbrev pub patched : PatchPackage
patched = record { patch_dir = "runs/1/patch"; patch_files = "CHANGES.patch" ∷ [] }

-- A check passes once `src/a.ts` is there.
abbrev pub check_of : Dict String → String → String → CheckResult
check_of d id command = record {
  check_id = id;
  command = command;
  verdict = elim (get d "src/a.ts") [ none ↦ fail_check | some _ ↦ pass ];
  exit_code = some 0;
  stdout_tail = "";
  stderr_tail = "";
  detail = none;
  advisory = none;
}

abbrev pub machine : Machine (Dict String)
machine = record {
  walk = λ d. done (keys d);
  exists = λ d p. is_some (get d p);
  read = read_table;
  write = λ d p c. (put p c d, done tt);
  run_capsule_check = λ d id command profile. (d, done (check_of d id command));
  verify_source = λ d. done clean;
  generate_patch = λ d request. (d, done patched);
  diagnose = λ kind result. record {
    runner_kind = kind;
    verdict = result.verdict;
    exit_code = result.exit_code;
    failing_tests = none;
    typescript_errors = none;
    truncated = false;
  };
  summarize = λ passed result diagnostics. "";
  clock = λ n. n;
}

abbrev pub contract : Contract
contract = record {
  allowed_read_paths = "src/**" ∷ [];
  allowed_write_paths = "src/**" ∷ [];
  allowed_checks =
      ("test", record { command = "npm test"; required = true })
      ∷ ("lint", record { command = "npm run lint"; required = false })
      ∷ [];
  verification_profile = none;
}

abbrev pub write_input : Input
write_input = fields (("path", text "src/a.ts") ∷ ("content", text "export {}") ∷ [])

abbrev pub check_input : Input
check_input = fields (("check", text "test") ∷ [])

abbrev pub finalize_input : Input
finalize_input = fields (("summary", text "done") ∷ [])

pub distinct : Distinct (keys contract.allowed_checks)
unfolding keys has
distinct = (refl, (refl, tt))
