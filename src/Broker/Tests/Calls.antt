-- ===== src/Broker/Tests/Calls.antt =====
-- Tool calls of src/broker/project-tool-broker.ts one after another, and the properties of the gates
-- at inputs that meet their hypotheses.
use mathlib.Core.Path.{subst}
use claude_powerplant.Prelude.{
  ◌≡◌, refl, ◌↔◌, String, true, false, none, some, List, [], ◌∷◌, Dict, get, put, keys, add, has,
}
use claude_powerplant.Text.{units, includes, is_letter, is_digit, unit_pair}
use claude_powerplant.Glob.{matches_glob}
use claude_powerplant.Artifact.{
  detect_artifact_corruption, detect_newline_escape_corruption, detect_quote_escape_corruption,
  has_extension, count, count_escaped, longest_line,
}
use claude_powerplant.Contracts.Verdict.{CheckResult, RunCheckDiagnostics}
use claude_powerplant.Contracts.Tools.{
  write_file, run_check, finalize, CheckEntry, parse_finalize, in_length, parse_run_check,
  is_check_id, is_safe_relative_path, is_write_path_authorized, parse_write_file, valid_path,
}
use claude_powerplant.Broker.{
  ToolError, error, BrokerState, finalized, written, checked, Reply, required_ids,
}
use claude_powerplant.Broker.Handlers.{
  finalize_refusal, handle, handle_finalize, missing_ids, handle_run_check, run_declared_check,
  record_check, record_verdict, mark_advisory, check_reply, finalize_admitted, handle_write_file,
  invalidate_checks, runner_kind, write_admitted, write_refusal,
}
use claude_powerplant.Broker.Session.{initial}
use claude_powerplant.Broker.Transcript.{
  passed_since, checked_since, expected_refusal, Reachable, begin, call, Call, Called, opened,
  called,
}
use claude_powerplant.Broker.Gate.{Tracks, Reachable-Tracks}
use claude_powerplant.Broker.Finalize.{finalized_verified, finalize_accepted_iff}
use claude_powerplant.Broker.Receipts.{Receipts, Reachable-Receipts}
use claude_powerplant.Broker.Tests.{
  machine, contract, check_of, patched, write_input, check_input, finalize_input, distinct,
}

abbrev S0 : BrokerState (Dict String)
S0 = initial machine contract []

abbrev S1 : BrokerState (Dict String)
S1 = invalidate_checks machine contract (record S0 { disk = put "src/a.ts" "export {}" [] })

abbrev entry : CheckEntry
entry = record { command = "npm test"; required = true }

abbrev result : CheckResult
result = check_of S1.disk "test" "npm test"

abbrev diagnostics : RunCheckDiagnostics
diagnostics = machine.diagnose (runner_kind "test" "npm test") result

abbrev S2 : BrokerState (Dict String)
S2 = record_check machine contract S1 "test" entry result diagnostics

abbrev H2 : List Reply
H2 =
    checked (check_reply machine contract "test" entry result diagnostics) ∷ written "src/a.ts" ∷ []

write_parsed : parse_write_file write_input ≡ some ("src/a.ts", "export {}")
unfolding parse_write_file get valid_path in_length is_safe_relative_path includes units unit_pair
write_parsed = refl

write_allowed : write_refusal contract "src/a.ts" "export {}" ≡ none
unfolding write_refusal is_write_path_authorized matches_glob includes units unit_pair
    detect_artifact_corruption detect_newline_escape_corruption detect_quote_escape_corruption
    has_extension count count_escaped longest_line
write_allowed = refl

wrote : handle machine contract write_file S0 write_input ≡ (S1, written "src/a.ts")
unfolding handle write_admitted handle_write_file invalidate_checks initial
wrote = rw (write_parsed, handle_write_file) (rw write_allowed refl)

check_parsed : parse_run_check check_input ≡ some "test"
unfolding parse_run_check get in_length is_check_id is_letter is_digit units unit_pair
check_parsed = refl

ran :
    handle machine contract run_check S1 check_input
    ≡ (S2, checked (check_reply machine contract "test" entry result diagnostics))
unfolding handle get run_declared_check mark_advisory handle_run_check
ran = rw (check_parsed, handle_run_check) refl

finalize_parsed : parse_finalize finalize_input ≡ some "done"
unfolding parse_finalize get in_length units unit_pair
finalize_parsed = refl

accepted : (handle machine contract finalize S2 finalize_input).1 ≡ finalized patched
unfolding handle handle_finalize finalize_admitted finalize_refusal missing_ids required_ids
    record_check record_verdict invalidate_checks initial has add keys put get
accepted = rw (finalize_parsed, handle_finalize) refl

reached : Reachable machine contract S2 H2
reached =
    subst
      (λ (r : BrokerState (Dict String) × Reply).
        Reachable machine contract r.0 (r.1 ∷ written "src/a.ts" ∷ []))
      ran
      (call run_check check_input (
        subst (λ (r : BrokerState (Dict String) × Reply). Reachable machine contract r.0 (r.1 ∷ []))
          wrote (call write_file write_input (begin []))))

-- The same conversation with its calls
abbrev calls : List Call
calls =
    (run_check, checked (check_reply machine contract "test" entry result diagnostics))
    ∷ (write_file, written "src/a.ts")
    ∷ []

talked : Called machine contract S2 calls
talked =
    subst
      (λ (r : BrokerState (Dict String) × Reply).
        Called machine contract r.0 ((run_check, r.1) ∷ (write_file, written "src/a.ts") ∷ []))
      ran
      (called run_check check_input (
        subst
          (λ (r : BrokerState (Dict String) × Reply).
            Called machine contract r.0 ((write_file, r.1) ∷ []))
          wrote (called write_file write_input (opened []))))

Reachable-Tracks_example : Tracks contract S2 H2
Reachable-Tracks_example = Reachable-Tracks machine contract distinct reached

Reachable-Receipts_example : Receipts S2 H2
Reachable-Receipts_example = Reachable-Receipts machine contract reached

finalized_verified_example :
    ((id : String)
      → has (required_ids contract.allowed_checks) id ≡ true
      → passed_since id H2 ≡ true)
    × (checked_since H2 ≡ true)
    × (S2.finalize_received ≡ false)
    × ((handle machine contract finalize S2 finalize_input).0.patch_package ≡ some patched)
finalized_verified_example =
    finalized_verified machine contract S2 H2 finalize_input patched distinct reached accepted

finalize_accepted_iff_example :
    (((handle machine contract finalize S2 finalize_input).1 ≡ finalized patched)
      ↔ (expected_refusal contract.allowed_checks calls ≡ none))
    × ((e : ToolError)
        → expected_refusal contract.allowed_checks calls ≡ some e
        → (handle machine contract finalize S2 finalize_input).1 ≡ error e)
finalize_accepted_iff_example =
    finalize_accepted_iff machine contract S2 calls finalize_input "done" patched distinct talked
      finalize_parsed refl (λ request. refl)
