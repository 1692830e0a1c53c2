-- ===== src/Probe/Tests.antt =====
-- The probe on a session that goes well, and its properties at inputs that meet their hypotheses.
use claude_powerplant.Prelude.{
  ℤ, ℕ, ◌≤◌, ◌≡◌, refl, ◌↔◌, pos, String, true, false, some, List, [], ◌∷◌, get,
}
use claude_powerplant.Text.{units, includes, trim, same_units}
use claude_powerplant.Contracts.Tools.{fields, text}
use claude_powerplant.Broker.{done}
use claude_powerplant.Broker.Session.{Block}
use claude_powerplant.Launch.{
  validate_launch_policy, check_image, check_network, check_env_keys, check_empty_env, check_mounts,
  check_mount, build_docker_argv,
}
use claude_powerplant.Probe.{
  read_proof, validate_isolation_proof, build_custom_tool_result, valid_probe_input, ExecutorProof,
  valid, DockerRun, custom_tool_action, IsolatedExecutorResult, run_isolated_executor,
}
use claude_powerplant.Probe.Session.{
  ProbeEvent, message, custom_tool_use, requires_action, idle, Probing, waiting, stopped,
  probe_round, read_probe, start_probe, probe_turn, count_call, run_probe, add_response,
  BrokerSessionResult, judge, probe_session, probe_result, initial_probing,
}
use claude_powerplant.Probe.Once.{session_launches_once}
use claude_powerplant.Probe.Report.{IsIsolated, with_uid, build_isolation_proof_report, report_iff}

abbrev good_proof : ExecutorProof
good_proof = record {
  anthropic_api_key_present = false;
  anthropic_environment_key_present = false;
  worker_secret_canary_present = false;
  egress_attempted = true;
  egress_succeeded = false;
  output_path_operational = true;
  executor_uid = pos 1001;
  executor_is_non_root = true;
}

abbrev docker : ℕ → List String → DockerRun
docker n argv = record {
  exits_well = true;
  output = "ok";
  sink_bodies = [];
  proof_file = valid good_proof;
}

abbrev streams : List (List ProbeEvent)
streams =
    (custom_tool_use "t1" "executor_probe" (fields (("action", text custom_tool_action) ∷ []))
      ∷ requires_action
      ∷ [])
    ∷ (message (Block.text "DONE" ∷ []) ∷ idle ∷ [])
    ∷ []

abbrev good_result : IsolatedExecutorResult
good_result = record { proof = good_proof; sink_received_canary = false; stdout = "ok" }

abbrev last : Probing
last = record {
  custom_tool_use_count = 1;
  builtin_tool_use_count = 0;
  final_response = "DONE";
  outcome = some (good_result, judge good_result);
  launches = 1;
}

session_goes_well : probe_session "/root" "/tmp/out" docker initial_probing streams ≡ stopped last
unfolding probe_session probe_round read_probe start_probe initial_probing valid_probe_input get
    probe_turn count_call run_probe run_isolated_executor validate_launch_policy check_image
    check_network check_env_keys check_empty_env check_mounts check_mount build_docker_argv
    add_response judge build_custom_tool_result read_proof validate_isolation_proof includes units
session_goes_well = refl

session_launches_once_example :
    ((result : BrokerSessionResult)
      → probe_session "/root" "/tmp/out" docker initial_probing streams ≡ stopped last
      → probe_result last ≡ done result
      → (last.custom_tool_use_count ≡ 1)
        × (last.launches ≡ 1)
        × (run_isolated_executor "/root" "/tmp/out" (docker 0) ≡ done result.executor_result)
        × (result.tool_result ≡ judge result.executor_result))
    × (probe_session "/root" "/tmp/out" docker initial_probing streams ≡ waiting last
        → (last.custom_tool_use_count ≤ 1) × (last.launches ≤ 1))
session_launches_once_example = session_launches_once "/root" "/tmp/out" docker streams last

abbrev outcome : BrokerSessionResult
outcome = record { final = last; executor_result = good_result; tool_result = judge good_result }

report_iff_example :
    (((build_isolation_proof_report outcome "DONE").passed ≡ true) ↔ (
      IsIsolated good_proof false
      × (same_units (trim (units "DONE")) (units "DONE") ≡ true)
      × (last.custom_tool_use_count ≡ 1)
      × (last.builtin_tool_use_count ≡ 0)))
    × (((judge good_result).passed ≡ true) ↔ IsIsolated good_proof false)
    × ((judge good_result).passed ≡ true
        → ((judge good_result).credential_isolation_passed ≡ true)
          × ((judge good_result).egress_blocked ≡ true)
          × ((judge good_result).output_validated ≡ true))
    × ((uid : ℤ)
        → (build_isolation_proof_report (with_uid uid outcome) "DONE").passed
          ≡ (build_isolation_proof_report outcome "DONE").passed)
report_iff_example = report_iff outcome "DONE"
