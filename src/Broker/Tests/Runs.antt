-- ===== src/Broker/Tests/Runs.antt =====
-- Sessions of src/broker/project-tool-broker.ts, and the properties of the loop at inputs that meet
-- their hypotheses.
use claude_powerplant.Prelude.{
  ℕ, zero, suc, eq_iff, ◌≡◌, ◌≢◌, refl, String, true, false, some, List, [], ◌∷◌, Dict, get, put,
  get-put, add, arith, has,
}
use claude_powerplant.Text.{units, is_letter, is_digit, unit_pair}
use claude_powerplant.Glob.{matches_glob}
use claude_powerplant.Contracts.Tools.{
  known_tool, no_object, parse_finalize, in_length, parse_run_check, is_check_id,
  is_write_path_authorized,
}
use claude_powerplant.Outcome.{failed_tool_budget_exhausted}
use claude_powerplant.Outcome.Verdicts.{IsVerified, IsVerified-iff}
use claude_powerplant.Broker.{BrokerState, Reply, required_ids}
use claude_powerplant.Broker.Handlers.{
  finalize_refusal, handle, handle_finalize, missing_ids, handle_run_check, run_declared_check,
  record_check, record_verdict, mark_advisory, check_reply, finalize_admitted,
}
use claude_powerplant.Broker.Session.{
  StreamEvent, custom_tool_use, requires_action, idle, Progress, stopped, initial, count_custom,
  round, read_stream, start_turn, run_tools, run_tool, result_events, session, session_result,
  evidence,
}
use claude_powerplant.Broker.Transcript.{Reachable}
use claude_powerplant.Broker.Conversation.{Ends}
use claude_powerplant.Broker.Sound.{Vouches, passed_sound}
use claude_powerplant.Broker.Confinement.{KeptBy, session_confined}
use claude_powerplant.Broker.Budget.{calls, is_waiting, session_bounded, budget_denies}
use claude_powerplant.Broker.Tests.{machine, contract, check_input, finalize_input, distinct}

-- A session on a disk that has the file: the check, then finalize.
abbrev streams : List (List StreamEvent)
streams =
    (custom_tool_use "c1" "project_run_check" check_input
      ∷ custom_tool_use "c2" "project_finalize" finalize_input
      ∷ requires_action ("c1" ∷ "c2" ∷ [])
      ∷ [])
    ∷ (idle ∷ [])
    ∷ []

abbrev state_of : Progress (Dict String) → BrokerState (Dict String)
state_of (stopped s) = s
state_of _ = initial machine contract []

abbrev there : Dict String
there = ("src/a.ts", "export {}") ∷ []

abbrev last_state : BrokerState (Dict String)
last_state = state_of (session machine contract (initial machine contract there) streams)

stops : session machine contract (initial machine contract there) streams ≡ stopped last_state
unfolding session round initial known_tool read_stream start_turn run_tools run_tool result_events
    put get add has required_ids handle handle_run_check parse_run_check in_length is_check_id
    is_letter is_digit units unit_pair run_declared_check mark_advisory record_check record_verdict
    check_reply handle_finalize parse_finalize finalize_refusal missing_ids finalize_admitted
    count_custom
stops = refl

verified : IsVerified (evidence last_state)
unfolding session round initial known_tool read_stream start_turn run_tools run_tool result_events
    put get add has required_ids handle handle_run_check parse_run_check in_length is_check_id
    is_letter is_digit units unit_pair run_declared_check mark_advisory record_check record_verdict
    check_reply handle_finalize parse_finalize finalize_refusal missing_ids finalize_admitted
    count_custom evidence
verified = record {
  in_budget = refl;
  finalized = refl;
  patched = refl;
  fresh = refl;
  checked = refl;
  genuine = refl;
  untouched = refl;
  confined = refl;
}

passes : (session_result last_state).passed ≡ true
unfolding session_result
passes = (IsVerified-iff (evidence last_state)).1 verified

passed_sound_example :
    ((h : List Reply) × Reachable machine contract last_state h
      × Vouches contract h (session_result last_state).patch_package)
    × ((session_result last_state).builtin_tool_use_count ≡ 0)
passed_sound_example = passed_sound machine contract there streams last_state distinct stops passes

-- A list of streams with one call each.
abbrev repeat_stream : ℕ → List (List StreamEvent)
repeat_stream zero = []
repeat_stream (suc n) =
    (custom_tool_use "c" "project_list_files" no_object ∷ requires_action ("c" ∷ []) ∷ [])
    ∷ repeat_stream n

session_bounded_example :
    is_waiting (session machine contract (initial machine contract there) (repeat_stream 30))
    ≡ false
session_bounded_example =
    session_bounded machine contract there (repeat_stream 30) (unfold calls in refl) (omega arith)

abbrev spent : BrokerState (Dict String)
spent = record last_state { total_custom_tool_calls = 30 }

-- All checks passed and finalize was accepted, on the thirtieth call.
budget_denies_example :
    (t : BrokerState (Dict String)) × (session machine contract spent [] ≡ stopped t)
    × ((session_result t).passed ≡ false)
    × ((session_result t).classification.termination_reason ≡ failed_tool_budget_exhausted)
budget_denies_example = budget_denies machine contract spent [] refl

-- The files outside `src/` stay as they are.
abbrev Kept : Dict String → Type 0
Kept d = get d "VERIFY.yaml" ≡ some "checks"

not_writable : is_write_path_authorized "VERIFY.yaml" contract.allowed_write_paths ≡ false
unfolding is_write_path_authorized matches_glob
not_writable = refl

outside :
    (path : String)
    → is_write_path_authorized path contract.allowed_write_paths ≡ true
    → path ≢ "VERIFY.yaml"
outside path ok same = let shut = rw same at ok in cc (shut, not_writable)

kept : KeptBy machine contract Kept
kept = record {
  by_write = λ d path content a k. ground (
    arith,
    get-put path "VERIFY.yaml" content d,
    eq_iff path "VERIFY.yaml",
    outside path a.authorized,
  );
  by_check = λ d id e known k. k;
  by_patch = λ d request k. k;
}

session_confined_example :
    Ends
      (λ s. Kept s.disk)
      (session machine contract
        (initial machine contract (("VERIFY.yaml", "checks") ∷ there))
        streams)
session_confined_example =
    session_confined machine contract Kept kept (("VERIFY.yaml", "checks") ∷ there) streams
      (unfold get in refl)
