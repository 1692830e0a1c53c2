-- ===== src/Broker/Session.antt =====
-- The session loop of src/broker/project-tool-broker.ts. What the API sends is a list of streams,
-- one for each turn, and each stream is a list of events.
use Prim.Native.String.{◌++◌ as append}
use mathlib.Core.Option
use claude_powerplant.Prelude.{
  ℕ, ◌+◌, String, Bool, true, false, not, Option, none, some, List, [], ◌∷◌, ◌++◌, Dict, get, put,
  length, leb, eqb, is_some, if◌then◌else◌,
}
use claude_powerplant.Text.{units, trim}
use claude_powerplant.Contracts.Verdict.{CheckResult}
use claude_powerplant.Contracts.Tools.{PilotToolName, known_tool, Input}
use claude_powerplant.Outcome.{
  RunEvidence, RunClassification, evaluate_terminal_run_outcome, to_run_classification,
}
use claude_powerplant.Broker.{
  Attempt, done, threw, PatchPackage, Contract, Machine, Reply, BrokerState, required_ids,
}
use claude_powerplant.Broker.Handlers.{handle, results_or_null}

abbrev pub max_tool_calls : ℕ
max_tool_calls = 30

pub data Block : Type 0 where
  text : String → Block
  other_block : Block

pub data StreamEvent : Type 0 where
  message : List Block → StreamEvent
  tool_use : StreamEvent
  custom_tool_use : String → String → Input → StreamEvent
  requires_action : List String → StreamEvent
  idle terminated other_event : StreamEvent

pub record ToolUse : Type 0 where
  pub id : String
  pub tool : PilotToolName
  pub input : Input

-- The variables of one round of the loop.
pub record Turn (D : Type 0) : Type 0 where
  pub state : BrokerState D
  pub asked : Bool
  pub remaining : List String
  pub tool_uses : List ToolUse

module _ {D : Type 0} where
  unfoldable pub add_text : BrokerState D → List Block → BrokerState D
  add_text s [] = s
  add_text s (text t ∷ bs) = add_text (record s { final_response = append s.final_response t }) bs
  add_text s (other_block ∷ bs) = add_text s bs

  unfoldable pub count_builtin : BrokerState D → BrokerState D
  count_builtin s = record s { builtin_tool_use_count = s.builtin_tool_use_count + 1 }

  unfoldable pub count_custom : BrokerState D → String → BrokerState D
  count_custom s name = record s {
    total_custom_tool_calls = s.total_custom_tool_calls + 1;
    custom_tool_counts =
        put name (Option.get_or (get s.custom_tool_counts name) 0 + 1) s.custom_tool_counts;
  }

  -- The `for await` over one stream; an unknown tool name ends the whole session.
  unfoldable pub read_stream : Turn D → List StreamEvent → Attempt (Turn D)
  unfolding add_text count_builtin count_custom
  read_stream t [] = done t
  read_stream t (message bs ∷ es) = read_stream (record t { state = add_text t.state bs }) es
  read_stream t (tool_use ∷ es) = read_stream (record t { state = count_builtin t.state }) es
  read_stream t (custom_tool_use id name input ∷ es) = elim (known_tool name) [
    | none ↦ threw name
    | some tool ↦
        read_stream
          (record t {
            state = count_custom t.state name;
            tool_uses = t.tool_uses ++ record { id = id; tool = tool; input = input } ∷ [];
          })
          es
  ]
  read_stream t (requires_action ids ∷ es) = done (record t { asked = true; remaining = ids })
  read_stream t (idle ∷ es) = done t
  read_stream t (terminated ∷ es) = done t
  read_stream t (other_event ∷ es) = read_stream t es

  unfoldable pub start_turn : BrokerState D → Turn D
  start_turn s = record { state = s; asked = false; remaining = []; tool_uses = [] }

  -- The results for the ids that the API still waits for.
  unfoldable pub result_events : BrokerState D → List String → List (String × Reply)
  result_events s [] = []
  result_events s (id ∷ ids) = elim (get s.computed_results id) [
    | none ↦ result_events s ids
    | some reply ↦ (id, reply) ∷ result_events s ids
  ]

-- How far a session has come: its loop has ended, it waits for the next stream, or an error left
-- the function.
pub data Progress (D : Type 0) : Type 0 where
  stopped : BrokerState D → Progress D
  waiting : BrokerState D → Progress D
  aborted : String → Progress D

module _ {D : Type 0} (machine : Machine D) (contract : Contract) where
  unfoldable pub run_tool : BrokerState D → ToolUse → BrokerState D
  run_tool s u =
      let (s', reply) = handle machine contract u.tool s u.input in
      record s' { computed_results = put u.id reply s'.computed_results }

  unfoldable pub run_tools : BrokerState D → List ToolUse → BrokerState D
  run_tools s [] = s
  run_tools s (u ∷ us) = run_tools (run_tool s u) us

  unfoldable pub initial : D → BrokerState D
  initial disk = record {
    disk = disk;
    passed_required_checks = [];
    test_check_passed = eqb (length (required_ids contract.allowed_checks)) 0;
    finalize_received = false;
    check_results = [];
    last_check_result = none;
    patch_package = none;
    custom_tool_counts = [];
    builtin_tool_use_count = 0;
    final_response = "";
    total_custom_tool_calls = 0;
    checks_valid_after_last_write = false;
    last_write_at = none;
    last_check_passed_at = none;
    computed_results = [];
    read_count = 0;
    write_count = 0;
    check_count = 0;
    finalize_attempted = false;
    budget_exhausted = false;
    last_failed_diagnostic = none;
    check_fail_streaks = [];
  }

  -- One round after the budget test.
  unfoldable pub round : BrokerState D → List StreamEvent → Progress D
  round s events = elim (read_stream (start_turn s) events) [
    | threw name ↦ aborted name
    | done t ↦
        if not t.asked
        then stopped t.state
        else let s' = run_tools t.state t.tool_uses in
          if eqb (length (result_events s' t.remaining)) 0 then stopped s' else waiting s'
  ]

  unfoldable pub exhausted : BrokerState D → Progress D
  exhausted s = stopped (record s { budget_exhausted = true })

  -- The `while (true)`, over the streams that the API opens.
  unfoldable pub session : BrokerState D → List (List StreamEvent) → Progress D
  session s [] = if leb max_tool_calls s.total_custom_tool_calls then exhausted s else waiting s
  session s (events ∷ streams) = elim (leb max_tool_calls s.total_custom_tool_calls) [
    | true ↦ exhausted s
    | false ↦ elim (round s events) [
      | stopped s' ↦ stopped s'
      | aborted name ↦ aborted name
      | waiting s' ↦ session s' streams
    ]
  ]

-- What the session function passes to `evaluateTerminalRunOutcome`.
unfoldable pub evidence : {D : Type 0} → BrokerState D → RunEvidence
evidence s = record {
  check_results = s.check_results;
  checks_valid_after_last_write = s.checks_valid_after_last_write;
  test_check_passed = s.test_check_passed;
  finalize_received = s.finalize_received;
  finalize_attempted = s.finalize_attempted;
  budget_exhausted = s.budget_exhausted;
  builtin_tool_use_count = s.builtin_tool_use_count;
  source_unmodified = true;
  final_response = trim (units s.final_response);
  check_fail_streaks = s.check_fail_streaks;
  patch_package_present = is_some s.patch_package;
  read_count = s.read_count;
  write_count = s.write_count;
  check_count = s.check_count;
  last_failed_diagnostic = s.last_failed_diagnostic;
}

pub record ProjectBrokerSessionResult : Type 0 where
  pub builtin_tool_use_count : ℕ
  pub custom_tool_counts : Dict ℕ
  pub final_response : List ℕ
  pub check_results : Option (List CheckResult)
  pub patch_package : Option PatchPackage
  pub passed : Bool
  pub classification : RunClassification
  pub checks_valid_after_last_write : Bool
  pub finalize_attempted : Bool
  pub finalize_accepted : Bool

-- The result of a session whose loop has ended.
unfoldable pub session_result : {D : Type 0} → BrokerState D → ProjectBrokerSessionResult
unfolding evidence
session_result s =
    let outcome = evaluate_terminal_run_outcome (evidence s) in
    record {
      builtin_tool_use_count = s.builtin_tool_use_count;
      custom_tool_counts = s.custom_tool_counts;
      final_response = trim (units s.final_response);
      check_results = results_or_null s.check_results;
      patch_package = s.patch_package;
      passed = outcome.final_verification_passed;
      classification = to_run_classification outcome;
      checks_valid_after_last_write = s.checks_valid_after_last_write;
      finalize_attempted = s.finalize_attempted;
      finalize_accepted = is_some s.patch_package;
    }
