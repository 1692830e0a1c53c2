-- ===== src/Evaluator/Oracle.antt =====
-- `runOracleWithFixture` of src/preflight/oracle-evaluator.ts.
use claude_powerplant.Prelude.{
  ℕ, String, ◌==◌, Bool, true, false, not, ◌&&◌, ◌||◌, Option, none, some, List, ◌++◌, length, leb,
  eqb, if◌then◌else◌,
}
use claude_powerplant.Evaluator.{Json, null, OracleStatus, error, timeout, capped, OracleBundle}
use claude_powerplant.Evaluator.Capsule.{OutputFile, Evaluation, read_file, first_units}

-- What `spawnSync` gives: an error with its code, if it has one, the signal, and the outputs.
pub record SyncResult : Type 0 where
  pub error_code : Option (Option String)
  pub signal : Option String
  pub stdout : List ℕ
  pub stderr : List ℕ

-- The variables that the receipt is made of
pub record Judgement : Type 0 where
  pub status : OracleStatus
  pub oracle_result : Json
  pub output_capped : Bool
  pub timeout_enforced : Bool
  pub diagnostics : List ℕ

abbrev pub is_signal : Option String → String → Bool
is_signal none name = false
is_signal (some s) name = s == name

abbrev pub is_code : Option String → String → Bool
is_code none name = false
is_code (some s) name = s == name

abbrev timed : List ℕ → Judgement
timed diagnostics = record {
  status = timeout;
  oracle_result = null;
  output_capped = false;
  timeout_enforced = true;
  diagnostics = diagnostics;
}

abbrev over : List ℕ → Judgement
over diagnostics = record {
  status = capped;
  oracle_result = null;
  output_capped = true;
  timeout_enforced = false;
  diagnostics = diagnostics;
}

abbrev said : Evaluation → List ℕ → Judgement
said e diagnostics = record {
  status = e.status;
  oracle_result = e.oracle_result;
  output_capped = false;
  timeout_enforced = false;
  diagnostics = diagnostics;
}

-- A spawn that has failed; `shown` are the texts of the error and of the signal.
unfoldable pub judge_error : Option String → Option String → List ℕ → Judgement
judge_error error_code signal shown =
    if is_code error_code "ETIMEDOUT" || is_signal signal "SIGTERM"
    then timed (first_units 512 shown)
    else if is_code error_code "ERR_CHILD_PROCESS_STDIO_MAXBUFFER" || is_code error_code "ENOBUFS"
    then over (first_units 512 shown)
    else record {
      status = error;
      oracle_result = null;
      output_capped = false;
      timeout_enforced = false;
      diagnostics = first_units 512 shown;
    }

unfoldable pub judge_exit : (List ℕ → Option Json) → ℕ → SyncResult → OutputFile → Judgement
judge_exit parse max_output_bytes r out =
    let shown = first_units 512 r.stdout ++ first_units 512 r.stderr in
    if not (eqb (length r.stdout) 0) && leb max_output_bytes (length r.stdout)
    then over shown
    else said (read_file parse out) shown

-- The text of an error, and that of a kill by a signal
pub record Shown : Type 0 where
  pub error_text : List ℕ
  pub kill_text : List ℕ

unfoldable pub judge_sync : (List ℕ → Option Json) → ℕ → Shown → SyncResult → OutputFile → Judgement
judge_sync parse max_output_bytes shown r out = elim r.error_code [
  | some error_code ↦ judge_error error_code r.signal shown.error_text
  | none ↦
      if is_signal r.signal "SIGTERM" || is_signal r.signal "SIGKILL"
      then timed shown.kill_text
      else judge_exit parse max_output_bytes r out
]

pub record EvaluatorReceipt : Type 0 where
  pub oracle_sha256 : String
  pub workspace_payload_hash : String
  pub judgement : Judgement
  pub workspace_read_only : Bool
  pub cleanup_complete : Bool
  pub tamper_check_passed : Bool

-- `sets_up`: the oracle can be read, the workspace be made and the receipt be written.
pub record SyncEnv : Type 0 where
  pub sha : List ℕ → String
  pub parse : List ℕ → Option Json
  pub oracle_file : List ℕ
  pub sets_up : Bool
  pub result : SyncResult
  pub shown : Shown
  pub output_file : OutputFile
  pub removes : Bool

-- `none`: one of these could not be done, and the error leaves the function.
unfoldable pub run_oracle_with_fixture :
    SyncEnv → OracleBundle → List ℕ → ℕ → Option EvaluatorReceipt
run_oracle_with_fixture env bundle fixture max_output_bytes =
    if not env.sets_up
    then none
    else some (record {
      oracle_sha256 = bundle.oracle_sha256;
      workspace_payload_hash = env.sha fixture;
      judgement = judge_sync env.parse max_output_bytes env.shown env.result env.output_file;
      workspace_read_only = true;
      cleanup_complete = env.removes;
      tamper_check_passed = env.sha env.oracle_file == bundle.oracle_sha256;
    })
