-- ===== src/Probe/Session.antt =====
-- `runCustomToolBrokerSession` of src/broker/custom-tool-broker.ts. What the API sends is a list of
-- streams, one for each turn of the loop, and each stream is a list of events.
use Prim.Native.String.{◌++◌ as append}
use claude_powerplant.Prelude.{
  ℕ, ◌+◌, String, ◌==◌, Bool, true, false, not, Option, none, some, List, [], ◌∷◌, leb,
  if◌then◌else◌,
}
use claude_powerplant.Contracts.Tools.{Input}
use claude_powerplant.Broker.{Attempt, done, threw}
use claude_powerplant.Broker.Session.{Block, text, other_block}
use claude_powerplant.Probe.{
  custom_tool_name, valid_probe_input, IsolatedExecutorResult, CustomToolResult, DockerRun,
  validate_isolation_proof, build_custom_tool_result, run_isolated_executor,
}

pub data ProbeEvent : Type 0 where
  message : List Block → ProbeEvent
  tool_use : ProbeEvent
  custom_tool_use : String → String → Input → ProbeEvent
  requires_action idle terminated other_event : ProbeEvent

-- The variables of the function; `launches` counts the calls of the executor.
pub record Probing : Type 0 where
  pub custom_tool_use_count : ℕ
  pub builtin_tool_use_count : ℕ
  pub final_response : String
  pub outcome : Option (IsolatedExecutorResult × CustomToolResult)
  pub launches : ℕ

pub record ProbeTurn : Type 0 where
  pub state : Probing
  pub asked : Bool
  pub pending : Option String

unfoldable pub add_response : Probing → List Block → Probing
add_response s [] = s
add_response s (text t ∷ bs) =
    add_response (record s { final_response = append s.final_response t }) bs
add_response s (other_block ∷ bs) = add_response s bs

unfoldable pub count_call : ProbeTurn → String → ProbeTurn
count_call t id = record t {
  state = record t.state { custom_tool_use_count = t.state.custom_tool_use_count + 1 };
  pending = some id;
}

-- The `for await` over one stream
unfoldable pub read_probe : ProbeTurn → List ProbeEvent → Attempt ProbeTurn
read_probe t [] = done t
read_probe t (message bs ∷ es) = read_probe (record t { state = add_response t.state bs }) es
read_probe t (tool_use ∷ es) =
    read_probe
      (record t {
        state = record t.state { builtin_tool_use_count = t.state.builtin_tool_use_count + 1 };
      })
      es
read_probe t (custom_tool_use id name input ∷ es) =
    let next = read_probe (count_call t id) es in
    if not (name == custom_tool_name)
    then threw "unexpected tool"
    else if leb 1 t.state.custom_tool_use_count
    then threw "more than one call"
    else if not (valid_probe_input input)
    then threw "input rejected"
    else next
read_probe t (requires_action ∷ es) = done (record t { asked = true })
read_probe t (idle ∷ es) = done t
read_probe t (terminated ∷ es) = done t
read_probe t (other_event ∷ es) = read_probe t es

unfoldable pub start_probe : Probing → ProbeTurn
start_probe s = record { state = s; asked = false; pending = none }

pub data ProbeProgress : Type 0 where
  stopped waiting : Probing → ProbeProgress
  aborted : String → ProbeProgress

-- The result of the tool for a run of the executor
unfoldable pub judge : IsolatedExecutorResult → CustomToolResult
judge r =
    build_custom_tool_result r.proof r.sink_received_canary
      (validate_isolation_proof r.proof r.sink_received_canary)

pub record BrokerSessionResult : Type 0 where
  pub final : Probing
  pub executor_result : IsolatedExecutorResult
  pub tool_result : CustomToolResult

-- `docker n` is what the launch after n others does.
module _ (home output_dir : String) (docker : ℕ → List String → DockerRun) where
  unfoldable pub run_probe : Probing → ProbeProgress
  run_probe s = elim (run_isolated_executor home output_dir (docker s.launches)) [
    | threw why ↦ aborted why
    | done r ↦ waiting (record s { outcome = some (r, judge r); launches = s.launches + 1 })
  ]

  -- A round behind its stream
  unfoldable pub probe_turn : ProbeTurn → ProbeProgress
  probe_turn t = if not t.asked then stopped t.state else elim t.pending [
    | none ↦ aborted "no pending call"
    | some id ↦ if id == "" then aborted "no pending call" else run_probe t.state
  ]

  unfoldable pub probe_round : Probing → List ProbeEvent → ProbeProgress
  probe_round s events = elim (read_probe (start_probe s) events) [
    | threw why ↦ aborted why
    | done t ↦ probe_turn t
  ]

  unfoldable pub probe_session : Probing → List (List ProbeEvent) → ProbeProgress
  probe_session s [] = waiting s
  probe_session s (events ∷ streams) = elim (probe_round s events) [
    | stopped s' ↦ stopped s'
    | aborted why ↦ aborted why
    | waiting s' ↦ probe_session s' streams
  ]

-- The result of a loop that has ended; the response is trimmed where it is compared.
unfoldable pub probe_result : Probing → Attempt BrokerSessionResult
probe_result s = elim s.outcome [
  | none ↦ threw "executor was never invoked"
  | some (r, result) ↦ done (record { final = s; executor_result = r; tool_result = result })
]

unfoldable pub initial_probing : Probing
initial_probing = record {
  custom_tool_use_count = 0;
  builtin_tool_use_count = 0;
  final_response = "";
  outcome = none;
  launches = 0;
}
