-- ===== src/Broker/Handlers.antt =====
-- The five tool handlers of src/broker/project-tool-broker.ts and their dispatch. A handler returns
-- the new state and its reply; what it had changed before an error stays changed.
use mathlib.Core.Option
use claude_powerplant.Prelude.{
  ℕ, ◌+◌, ℤ, pos, negsuc, String, ◌==◌, Bool, true, false, not, ◌||◌, Option, none, some, List, [],
  ◌∷◌, ◌++◌, get, put, keys, has, add, delete, length, keep, eqb, if◌then◌else◌,
}
use claude_powerplant.Text.{units, includes, includes_word, sort_texts}
use claude_powerplant.Artifact.{detect_artifact_corruption}
use claude_powerplant.Contracts.Verdict.{
  CheckResult, is_pass, RunnerKind, test, typecheck, RunCheckDiagnostics,
}
use claude_powerplant.Contracts.Tools.{
  PilotToolName, list_files, read_file, write_file, run_check, finalize, Input, parse_read_file,
  parse_write_file, parse_run_check, parse_finalize, is_read_path_authorized,
  is_write_path_authorized, CheckEntry,
}
use claude_powerplant.Broker.{
  done, threw, SourceVerification, Contract, PatchRequest, Machine, ToolError, input_rejected,
  read_rejected, write_rejected, forbidden_marker, corrupt, check_rejected, missing_checks,
  checks_stale, finalize_repeated, failed, RunCheckResult, Reply, files, file, not_found, written,
  checked, finalized, error, BrokerState, required_ids, forbidden_write_content_marker,
}

-- The state after a tool call, and the reply.
abbrev pub Reaction : Type 0 → Type 0
Reaction D = BrokerState D × Reply

-- `throw`
abbrev pub reject : {D : Type 0} → BrokerState D → ToolError → Reaction D
reject s e = (s, error e)

-- `check === 'typecheck' || /\btsc\b/.test(command)`
unfoldable pub runner_kind : String → String → RunnerKind
runner_kind check command =
    if check == "typecheck" || includes_word (units command) (units "tsc") then typecheck else test

-- The result with the mark of an advisory check.
unfoldable pub mark_advisory : CheckEntry → CheckResult → CheckResult
mark_advisory entry result =
    if entry.required then result else record result { advisory = some true }

-- `exitCode ?? -1`
abbrev exit_or_minus_one : Option ℕ → ℤ
exit_or_minus_one none = negsuc 0
exit_or_minus_one (some n) = pos n

-- `checkResults.length > 0 ? checkResults : null`
abbrev pub results_or_null : List CheckResult → Option (List CheckResult)
results_or_null [] = none
results_or_null (r ∷ rs) = some (r ∷ rs)

-- The argument of `generatePatchPackage`.
unfoldable pub patch_request :
    {D : Type 0} → BrokerState D → String → SourceVerification → PatchRequest
patch_request s summary source = record {
  source_verification = source;
  check_results = results_or_null s.check_results;
  checks_valid_after_last_write = s.checks_valid_after_last_write;
  custom_tool_counts = s.custom_tool_counts;
  summary = summary;
}

module _ (contract : Contract) where
  -- Why the broker refuses a write whose input has the right shape.
  unfoldable pub write_refusal : String → String → Option ToolError
  write_refusal path content =
      if not (is_write_path_authorized path contract.allowed_write_paths)
      then some (write_rejected path)
      else if includes (units content) (units forbidden_write_content_marker)
      then some forbidden_marker
      else Option.map corrupt (detect_artifact_corruption (units path) (units content))

  unfoldable pub missing_ids : {D : Type 0} → BrokerState D → List String
  missing_ids s =
      keep (λ id. not (has s.passed_required_checks id)) (required_ids contract.allowed_checks)

  -- What `handleFinalize` tests before it begins.
  unfoldable pub finalize_refusal : {D : Type 0} → BrokerState D → Option ToolError
  finalize_refusal s =
      let missing = missing_ids s in
      if not (eqb (length missing) 0)
      then some (missing_checks missing)
      else if not s.checks_valid_after_last_write
      then some checks_stale
      else if s.finalize_received
      then some finalize_repeated
      else none

module _ {D : Type 0} (machine : Machine D) (contract : Contract) where
  unfoldable pub handle_list_files : BrokerState D → Reaction D
  handle_list_files s = elim (machine.walk s.disk) [
    | done found ↦ (s, files (sort_texts found))
    | threw e ↦ reject s (failed e)
  ]

  read_authorized : BrokerState D → String → Reaction D
  read_authorized s path =
      let s' = record s { read_count = s.read_count + 1 } in
      if machine.exists s.disk path
      then elim (machine.read s.disk path) [
        | done content ↦ (s', file path content)
        | threw e ↦ reject s' (failed e)
      ]
      else (s', not_found path)

  unfoldable pub handle_read_file : BrokerState D → Input → Reaction D
  unfolding read_authorized
  handle_read_file s input = elim (parse_read_file input) [
    | none ↦ reject s (input_rejected read_file)
    | some path ↦
        if is_read_path_authorized path contract.allowed_read_paths
        then read_authorized s path
        else reject s (read_rejected path)
  ]

  -- The bookkeeping after a write: every check has to be run again.
  unfoldable pub invalidate_checks : BrokerState D → BrokerState D
  invalidate_checks s = record s {
    checks_valid_after_last_write = false;
    passed_required_checks = [];
    test_check_passed = eqb (length (required_ids contract.allowed_checks)) 0;
    last_write_at = some (machine.clock (s.write_count + s.check_count));
    write_count = s.write_count + 1;
  }

  -- `mkdirSync` and `writeFileSync`, and what follows if neither throws.
  unfoldable pub write_admitted : BrokerState D → String → String → Reaction D
  write_admitted s path content =
      let (disk', outcome) = machine.write s.disk path content in
      let s' = record s { disk = disk' } in
      elim outcome [
        | done _ ↦ (invalidate_checks s', written path)
        | threw e ↦ reject s' (failed e)
      ]

  unfoldable pub handle_write_file : BrokerState D → Input → Reaction D
  handle_write_file s input = elim (parse_write_file input) [
    | none ↦ reject s (input_rejected write_file)
    | some (path, content) ↦ elim (write_refusal contract path content) [
      | some e ↦ reject s e
      | none ↦ write_admitted s path content
    ]
  ]

  -- The gates after a check. Only a required check moves `passedRequiredChecks`; an advisory one
  -- that fails still counts as a run after the last write.
  unfoldable pub record_verdict : BrokerState D → String → CheckEntry → Bool → BrokerState D
  record_verdict s check entry passed =
      let passed_set =
        if entry.required
        then (if passed
            then add check s.passed_required_checks
            else delete check s.passed_required_checks)
        else s.passed_required_checks in
      record s {
        passed_required_checks = passed_set;
        test_check_passed =
            if entry.required
            then eqb (length passed_set) (length (required_ids contract.allowed_checks))
            else s.test_check_passed;
        checks_valid_after_last_write =
            if passed
            then true
            else if entry.required
            then s.checks_valid_after_last_write
            else true;
        last_check_passed_at =
            if passed
            then some (machine.clock (s.write_count + s.check_count))
            else s.last_check_passed_at;
        check_fail_streaks =
            put check (if passed then 0 else Option.get_or (get s.check_fail_streaks check) 0 + 1)
              s.check_fail_streaks;
      }

  -- The bookkeeping of a finished check: its result, the counters and gates, the diagnostics.
  unfoldable pub record_check :
      BrokerState D → String → CheckEntry → CheckResult → RunCheckDiagnostics → BrokerState D
  record_check s check entry result diagnostics =
      let s' = record s {
        last_check_result = some result;
        check_results = s.check_results ++ result ∷ [];
        check_count = s.check_count + 1;
      } in
      let passed = is_pass result.verdict in
      record (record_verdict s' check entry passed) {
        last_failed_diagnostic = if passed then s.last_failed_diagnostic else some diagnostics;
      }

  unfoldable pub check_reply :
      String → CheckEntry → CheckResult → RunCheckDiagnostics → RunCheckResult
  check_reply check entry result diagnostics =
      let passed = is_pass result.verdict in
      record {
        check_id = check;
        passed = passed;
        exit_code = exit_or_minus_one result.exit_code;
        summary = machine.summarize passed result diagnostics;
        diagnostics = if passed then none else some diagnostics;
        advisory = if entry.required then none else some true;
      }

  unfoldable pub run_declared_check : BrokerState D → String → CheckEntry → Reaction D
  run_declared_check s check entry =
      let (disk', outcome) =
        machine.run_capsule_check s.disk check entry.command contract.verification_profile in
      let s' = record s { disk = disk' } in
      elim outcome [
        | threw e ↦ reject s' (failed e)
        | done raw ↦
            let result = mark_advisory entry raw in
            let diagnostics = machine.diagnose (runner_kind check entry.command) result in
            (
              record_check s' check entry result diagnostics,
              checked (check_reply check entry result diagnostics),
            )
      ]

  unfoldable pub handle_run_check : BrokerState D → Input → Reaction D
  handle_run_check s input = elim (parse_run_check input) [
    | none ↦ reject s (input_rejected run_check)
    | some check ↦ elim (get contract.allowed_checks check) [
      | none ↦ reject s (check_rejected check (keys contract.allowed_checks))
      | some entry ↦ run_declared_check s check entry
    ]
  ]

  patch_with : BrokerState D → String → SourceVerification → Reaction D
  patch_with s summary source =
      let (disk', outcome) = machine.generate_patch s.disk (patch_request s summary source) in
      let s' = record s { disk = disk' } in
      elim outcome [
        | threw e ↦ reject s' (failed e)
        | done made ↦ (record s' { patch_package = some made }, finalized made)
      ]

  -- The patch is made once the gates are open; `finalizeReceived` is set before it is made.
  unfoldable pub finalize_admitted : BrokerState D → String → Reaction D
  unfolding patch_with
  finalize_admitted s summary =
      let s' = record s { finalize_received = true } in
      elim (machine.verify_source s.disk) [
        | threw e ↦ reject s' (failed e)
        | done source ↦ patch_with s' summary source
      ]

  unfoldable pub handle_finalize : BrokerState D → Input → Reaction D
  handle_finalize s input = elim (parse_finalize input) [
    | none ↦ reject s (input_rejected finalize)
    | some summary ↦
        let s' = record s { finalize_attempted = true } in
        elim (finalize_refusal contract s') [
          | some e ↦ reject s' e
          | none ↦ finalize_admitted s' summary
        ]
  ]

  -- The `switch` of the session loop.
  unfoldable pub handle : PilotToolName → BrokerState D → Input → Reaction D
  handle list_files s input = handle_list_files s
  handle read_file s input = handle_read_file s input
  handle write_file s input = handle_write_file s input
  handle run_check s input = handle_run_check s input
  handle finalize s input = handle_finalize s input
