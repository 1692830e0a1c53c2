-- ===== src/Evaluator/Capsule.antt =====
-- `runOracleInCapsule` of src/preflight/capsule-evaluator.ts: the trust root, the two result channels,
-- and the receipt.
use mathlib.Core.List.{reverse}
use claude_powerplant.Prelude.{
  ℕ, zero, suc, String, ◌==◌, Bool, true, false, not, ◌&&◌, Option, none, some, List, [], ◌∷◌, has,
  length, leb, if◌then◌else◌,
}
use claude_powerplant.Text.{units, split_lines, trim}
use claude_powerplant.Ingest.Schema.{drop_prefix}
use claude_powerplant.Evaluator.{
  Json, null, value, OracleStatus, error, timeout, capped, status_of, OracleBundle,
}
use claude_powerplant.Evaluator.Spawn.{ChildEvent, SpawnCapsuleResult, new_child, run_child}

abbrev pub oracle_trusted_result_prefix : String
oracle_trusted_result_prefix = "ORACLE_TRUSTED_RESULT:"

-- What `docker image inspect` gives: a failure, or its output as JSON: no JSON, an array, or another
-- value.
pub data Inspection : Type 0 where
  inspect_failed blank_output bad_json no_array : Inspection
  digests : List String → Inspection

-- `getCapsuleRepoDigests`
unfoldable pub get_capsule_repo_digests : Inspection → Option (List String)
get_capsule_repo_digests (digests ds) = some ds
get_capsule_repo_digests inspect_failed = none
get_capsule_repo_digests blank_output = none
get_capsule_repo_digests bad_json = none
get_capsule_repo_digests no_array = none

-- `capsuleRegistryDigestVerified`
unfoldable pub registry_digest_verified : Option (List String) → String → Bool
registry_digest_verified none expected = false
registry_digest_verified (some ds) expected = not (leb (length ds) 0) && has ds expected

pub data ResultChannel : Type 0 where
  stdout_sentinel file_fallback no_channel : ResultChannel

module _ (parse : List ℕ → Option Json) where
  -- The lines from the last one on
  unfoldable pub scan_lines : List (List ℕ) → Json
  scan_lines [] = null
  scan_lines (line ∷ lines) =
      let earlier = scan_lines lines in
      elim (drop_prefix (units oracle_trusted_result_prefix) (trim line)) [
        | none ↦ earlier
        | some text ↦ elim (parse text) [ none ↦ earlier | some json ↦ json ]
      ]

  -- `extractOracleTrustedResult`
  unfoldable pub extract_oracle_trusted_result : List ℕ → Json
  extract_oracle_trusted_result stdout = scan_lines (reverse (split_lines stdout))

-- `terminalOracleStatus`, `oracleResult` and `resultChannelUsed`
pub record Evaluation : Type 0 where
  pub status : OracleStatus
  pub oracle_result : Json
  pub channel : ResultChannel

-- What stands in the output file: it cannot be read, or it has a text.
pub data OutputFile : Type 0 where
  unreadable : OutputFile
  contents : List ℕ → OutputFile

abbrev no_result : Evaluation
no_result = record { status = error; oracle_result = null; channel = no_channel }

abbrev pub blank : List ℕ → Bool
blank [] = true
blank (c ∷ s) = false

-- The advisory file: reading `status` of `null` throws, and that is caught.
unfoldable pub read_file : (List ℕ → Option Json) → OutputFile → Evaluation
read_file parse unreadable = no_result
read_file parse (contents s) = if blank (trim s) then no_result else elim (parse (trim s)) [
  | none ↦ no_result
  | some json ↦ elim json [
    | null ↦ no_result
    | value s ↦ record { status = status_of s; oracle_result = value s; channel = file_fallback }
  ]
]

unfoldable pub evaluate : (List ℕ → Option Json) → SpawnCapsuleResult → OutputFile → Evaluation
evaluate parse r out =
    if r.timed_out
    then record { status = timeout; oracle_result = null; channel = no_channel }
    else if r.output_capped
    then record { status = capped; oracle_result = null; channel = no_channel }
    else elim (extract_oracle_trusted_result parse r.stdout) [
      | null ↦ read_file parse out
      | value s ↦ record {
        status = status_of s;
        oracle_result = value s;
        channel = stdout_sentinel;
      }
    ]

unfoldable pub first_units : ℕ → List ℕ → List ℕ
first_units zero s = []
first_units (suc n) [] = []
first_units (suc n) (c ∷ s) = c ∷ first_units n s

pub record CapsuleReceipt : Type 0 where
  pub oracle_sha256 : String
  pub workspace_payload_hash : String
  pub canonical_reference : String
  pub resolved_repo_digests : List String
  pub registry_digest_verified : Bool
  pub candidate_code_executed : Bool
  pub evaluation : Evaluation
  pub bounded_diagnostics : List ℕ
  pub output_capped : Bool
  pub timeout_enforced : Bool
  pub cleanup_complete : Bool
  pub tamper_check_passed : Bool

-- The machine around a run. `oracle_file` is the bundled oracle when its hash is taken; `sets_up` says
-- whether it can be read and the directories of the run can be made.
pub record CapsuleEnv : Type 0 where
  pub sha : List ℕ → String
  pub parse : List ℕ → Option Json
  pub inspection : Inspection
  pub oracle_file : List ℕ
  pub sets_up : Bool
  pub child_events : List ChildEvent
  pub output_file : OutputFile
  pub removes : Bool

pub record CapsuleOptions : Type 0 where
  pub bundle : OracleBundle
  pub fixture : List ℕ
  pub max_output_bytes : ℕ
  pub expected_reference : String

abbrev or_empty : Option (List String) → List String
or_empty none = []
or_empty (some ds) = ds

unfoldable pub capsule_receipt : CapsuleEnv → CapsuleOptions → SpawnCapsuleResult → CapsuleReceipt
capsule_receipt env o r = record {
  oracle_sha256 = o.bundle.oracle_sha256;
  workspace_payload_hash = env.sha o.fixture;
  canonical_reference = o.expected_reference;
  resolved_repo_digests = or_empty (get_capsule_repo_digests env.inspection);
  registry_digest_verified =
      registry_digest_verified (get_capsule_repo_digests env.inspection) o.expected_reference;
  candidate_code_executed = true;
  evaluation = evaluate env.parse r env.output_file;
  bounded_diagnostics = first_units 1024 r.diagnostics;
  output_capped = r.output_capped;
  timeout_enforced = r.timed_out;
  cleanup_complete = env.removes;
  tamper_check_passed = env.sha env.oracle_file == o.bundle.oracle_sha256;
}

-- A run, and whether the candidate's code was started: it throws, waits for the child, or ends.
pub data CapsuleRun : Type 0 where
  refused setup_failed : CapsuleRun
  running : CapsuleRun
  finished : CapsuleReceipt → CapsuleRun

unfoldable pub run_oracle_in_capsule : CapsuleEnv → CapsuleOptions → CapsuleRun
run_oracle_in_capsule env o =
    if not (registry_digest_verified (get_capsule_repo_digests env.inspection) o.expected_reference)
    then refused
    else if not env.sets_up
    then setup_failed
    else elim (run_child o.max_output_bytes new_child env.child_events) [
      | none ↦ running
      | some r ↦ finished (capsule_receipt env o r)
    ]
