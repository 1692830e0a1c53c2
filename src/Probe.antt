-- ===== src/Probe.antt =====
-- The isolation probe: src/contracts/custom-tool-contract.ts, src/diagnostics/isolation-proof-report.ts
-- and src/broker/run-isolated-executor.ts. What Docker does with a launch is an argument.
pub mod Session
pub mod Turn
pub mod Once
pub mod Report
mod Tests
use claude_powerplant.Prelude.{
  ℕ, ℤ, String, ◌==◌, Bool, true, false, not, ◌&&◌, List, [], ◌∷◌, ◌++◌, any, length, eqb, none,
  some, if◌then◌else◌,
}
use claude_powerplant.Text.{units, includes}
use claude_powerplant.Contracts.Tools.{Input, fields, no_object, text_at}
use claude_powerplant.Broker.{Attempt, done, threw}
use claude_powerplant.Launch.{
  executor_image, ExecutorLaunchParams, PolicyViolation, validate_launch_policy, build_docker_argv,
}

abbrev pub custom_tool_name : String
custom_tool_name = "executor_probe"

abbrev pub custom_tool_action : String
custom_tool_action = "verify_isolation_and_output"

abbrev pub egress_canary : String
egress_canary = "POWERPLANT_EGRESS_CANARY"

-- `validateExecutorProbeInput`; keys that the schema does not name are dropped.
unfoldable pub valid_probe_input : Input → Bool
valid_probe_input no_object = false
valid_probe_input (fields m) = elim (text_at m "action") [
  | none ↦ false
  | some action ↦ action == custom_tool_action
]

pub record ExecutorProof : Type 0 where
  pub anthropic_api_key_present : Bool
  pub anthropic_environment_key_present : Bool
  pub worker_secret_canary_present : Bool
  pub egress_attempted : Bool
  pub egress_succeeded : Bool
  pub output_path_operational : Bool
  pub executor_uid : ℤ
  pub executor_is_non_root : Bool

pub record CustomToolResult : Type 0 where
  pub passed : Bool
  pub credential_isolation_passed : Bool
  pub egress_blocked : Bool
  pub output_validated : Bool

pub data ProofError : Type 0 where
  no_api_key no_env_key no_canary egress_open sink_dirty output_path : ProofError
  ran_as_root : ℤ → ProofError

-- One check of the proof
abbrev pub error_if : Bool → ProofError → List ProofError
error_if b e = if b then e ∷ [] else []

unfoldable pub validate_isolation_proof : ExecutorProof → Bool → List ProofError
validate_isolation_proof proof sink_received_canary =
    error_if proof.anthropic_api_key_present no_api_key
    ++ error_if proof.anthropic_environment_key_present no_env_key
    ++ error_if proof.worker_secret_canary_present no_canary
    ++ error_if proof.egress_succeeded egress_open
    ++ error_if sink_received_canary sink_dirty
    ++ error_if (not proof.executor_is_non_root) (ran_as_root proof.executor_uid)
    ++ error_if (not proof.output_path_operational) output_path

abbrev pub credentials_isolated : ExecutorProof → Bool
credentials_isolated proof =
    not proof.anthropic_api_key_present
    && not proof.anthropic_environment_key_present
    && not proof.worker_secret_canary_present

unfoldable pub build_custom_tool_result : ExecutorProof → Bool → List ProofError → CustomToolResult
build_custom_tool_result proof sink_received_canary errors = record {
  passed = eqb (length errors) 0;
  credential_isolation_passed = credentials_isolated proof;
  egress_blocked = not proof.egress_succeeded && not sink_received_canary;
  output_validated = proof.output_path_operational;
}

pub record IsolatedExecutorResult : Type 0 where
  pub proof : ExecutorProof
  pub sink_received_canary : Bool
  pub stdout : String

-- What stands in the proof file after a launch
pub data ProofFile : Type 0 where
  absent invalid_json misfit : ProofFile
  valid : ExecutorProof → ProofFile

-- What a launch of Docker does: whether it exits with 0 in time, its trimmed output, what the sink on
-- the host has received, and the proof file.
pub record DockerRun : Type 0 where
  pub exits_well : Bool
  pub output : String
  pub sink_bodies : List String
  pub proof_file : ProofFile

abbrev pub launch_params : String → ExecutorLaunchParams
launch_params output_dir = record {
  image = executor_image;
  output_dir = output_dir;
  network_mode = "none";
  env_vars = [];
  mounts = output_dir ∷ [];
  user = "1001:1001";
}

-- What is read of a launch that has ended
unfoldable pub read_proof : DockerRun → Attempt IsolatedExecutorResult
read_proof run = elim run.proof_file [
  | absent ↦ threw "no proof"
  | invalid_json ↦ threw "invalid json"
  | misfit ↦ threw "schema invalid"
  | valid proof ↦ done (record {
    proof = proof;
    sink_received_canary =
        any (λ body. includes (units body) (units egress_canary)) run.sink_bodies;
    stdout = run.output;
  })
]

-- `runIsolatedExecutor`: Docker is not touched if the launch breaks the policy.
unfoldable pub run_isolated_executor :
    String → String → (List String → DockerRun) → Attempt IsolatedExecutorResult
run_isolated_executor home output_dir docker =
    let run = docker (build_docker_argv output_dir) in
    elim (validate_launch_policy home (launch_params output_dir)) [
      | violation ∷ more ↦ threw "launch policy violated"
      | [] ↦ if run.exits_well then read_proof run else threw "docker failed"
    ]
