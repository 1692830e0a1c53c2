-- ===== src/Probe/Report.antt =====
-- `buildIsolationProofReport` of src/diagnostics/isolation-proof-report.ts, and when it says that a probe
-- has passed.
use claude_powerplant.Prelude.{
  ℕ, ℤ, ◌≡◌, refl, ◌↔◌, String, Bool, true, false, not, ◌&&◌, length, eqb, arith,
}
use claude_powerplant.Text.{units, trim, same_units}
use claude_powerplant.Probe.{
  ExecutorProof, validate_isolation_proof, credentials_isolated, build_custom_tool_result,
}
use claude_powerplant.Probe.Session.{BrokerSessionResult, judge}

-- The fields of `validation` that are computed, and that of `session`
pub record IsolationProofReport : Type 0 where
  pub final_response_correct : Bool
  pub credential_isolation_passed : Bool
  pub egress_blocked : Bool
  pub output_validated : Bool
  pub executor_is_non_root : Bool
  pub passed : Bool

-- The response is trimmed by the session already, which changes nothing here.
unfoldable pub build_isolation_proof_report : BrokerSessionResult → String → IsolationProofReport
build_isolation_proof_report b expected =
    let proof = b.executor_result.proof in
    let sink = b.executor_result.sink_received_canary in
    let correct = same_units (trim (units b.final.final_response)) (units expected) in
    record {
      final_response_correct = correct;
      credential_isolation_passed = credentials_isolated proof;
      egress_blocked = not proof.egress_succeeded && not sink;
      output_validated = proof.output_path_operational;
      executor_is_non_root = proof.executor_is_non_root;
      passed =
          eqb (length (validate_isolation_proof proof sink)) 0
          && correct
          && eqb b.final.custom_tool_use_count 1
          && eqb b.final.builtin_tool_use_count 0;
    }

-- What a proof has to show
pub record IsIsolated (proof : ExecutorProof) (sink : Bool) : Type 0 where
  pub no_api_key : proof.anthropic_api_key_present ≡ false
  pub no_env_key : proof.anthropic_environment_key_present ≡ false
  pub no_canary : proof.worker_secret_canary_present ≡ false
  pub no_egress : proof.egress_succeeded ≡ false
  pub clean_sink : sink ≡ false
  pub non_root : proof.executor_is_non_root ≡ true
  pub operational : proof.output_path_operational ≡ true

-- The same session, with another uid in the proof
abbrev pub with_uid : ℤ → BrokerSessionResult → BrokerSessionResult
with_uid uid b = record b {
  executor_result = record b.executor_result {
    proof = record b.executor_result.proof { executor_uid = uid };
  };
}

uid-count :
    (uid : ℤ) (proof : ExecutorProof) (sink : Bool)
    → length (validate_isolation_proof (record proof { executor_uid = uid }) sink)
      ≡ length (validate_isolation_proof proof sink)
unfolding validate_isolation_proof
uid-count uid proof sink = ground arith

uid-silent :
    (uid : ℤ) (b : BrokerSessionResult) (expected : String)
    → (build_isolation_proof_report (with_uid uid b) expected).passed
      ≡ (build_isolation_proof_report b expected).passed
unfolding build_isolation_proof_report
uid-silent uid b expected =
    let same = uid-count uid b.executor_result.proof b.executor_result.sink_received_canary in
    rw same refl

errors_iff :
    (proof : ExecutorProof) (sink : Bool)
    → (eqb (length (validate_isolation_proof proof sink)) 0 ≡ true) ↔ IsIsolated proof sink
unfolding validate_isolation_proof
errors_iff proof sink = ground arith

and_four :
    (x y : Bool) (m n : ℕ)
    → ((x && y && eqb m 1 && eqb n 0) ≡ true) ↔ ((x ≡ true) × (y ≡ true) × (m ≡ 1) × (n ≡ 0))
and_four x y m n = ground arith

-- The probe reports that it has passed exactly if the proof of the executor shows isolation (no key and
-- no canary in its environment, no egress by its own account or that of the sink, the flag that says
-- that it is not root, and a working output path), the agent gave the expected response, and the session counted one call of the
-- probe and no built-in tool. The result that the agent is told passes exactly if the proof does, and
-- then its three parts do, too. The uid in the proof has no say, 0 as little as another.
pub report_iff :
    (b : BrokerSessionResult) (expected : String)
    → ((build_isolation_proof_report b expected).passed ≡ true ↔ (
        IsIsolated b.executor_result.proof b.executor_result.sink_received_canary
        × (same_units (trim (units b.final.final_response)) (units expected) ≡ true)
        × (b.final.custom_tool_use_count ≡ 1)
        × (b.final.builtin_tool_use_count ≡ 0)))
      × (((judge b.executor_result).passed ≡ true)
          ↔ IsIsolated b.executor_result.proof b.executor_result.sink_received_canary)
      × ((judge b.executor_result).passed ≡ true
          → ((judge b.executor_result).credential_isolation_passed ≡ true)
            × ((judge b.executor_result).egress_blocked ≡ true)
            × ((judge b.executor_result).output_validated ≡ true))
      × ((uid : ℤ)
          → (build_isolation_proof_report (with_uid uid b) expected).passed
            ≡ (build_isolation_proof_report b expected).passed)
unfolding build_isolation_proof_report judge build_custom_tool_result
report_iff b expected =
    let proof = b.executor_result.proof in
    let sink = b.executor_result.sink_received_canary in
    let isolated = errors_iff proof sink in
    let parts =
      and_four (eqb (length (validate_isolation_proof proof sink)) 0)
        (same_units (trim (units b.final.final_response)) (units expected))
        b.final.custom_tool_use_count b.final.builtin_tool_use_count in
    (
      (
        (λ e. let p = parts.0 e in (isolated.0 p.0, p.1, p.2, p.3)),
        (λ h. parts.1 (isolated.1 h.0, h.1, h.2, h.3)),
      ),
      isolated,
      (λ e.
          let i = isolated.0 e in
          (
            ground (arith, i.no_api_key, i.no_env_key, i.no_canary),
            ground (arith, i.no_egress, i.clean_sink),
            i.operational,
          )),
      (λ uid. uid-silent uid b expected),
    )
