-- ===== src/Evaluator/Spawn.antt =====
-- `spawnCapsule` of src/preflight/capsule-evaluator.ts, as the events of the child and of the timer
-- come in.
use claude_powerplant.Prelude.{
  ℕ, ◌+◌, Bool, true, false, Option, none, some, List, [], ◌∷◌, ◌++◌, ltb, if◌then◌else◌,
}

-- A chunk of an output: the number of its bytes, and its text.
pub data ChildEvent : Type 0 where
  stdout_data : ℕ → List ℕ → ChildEvent
  stderr_data : List ℕ → ChildEvent
  timer_fired spawn_error : ChildEvent
  closed : Option ℕ → ChildEvent

-- The variables of the promise; `kills` counts the calls of `docker kill`.
pub record Child : Type 0 where
  pub timed_out : Bool
  pub output_capped : Bool
  pub output_bytes : ℕ
  pub diagnostics : List ℕ
  pub stdout_only : List ℕ
  pub kills : ℕ

pub record SpawnCapsuleResult : Type 0 where
  pub exit_code : Option ℕ
  pub timed_out : Bool
  pub output_capped : Bool
  pub diagnostics : List ℕ
  pub stdout : List ℕ

unfoldable pub new_child : Child
new_child = record {
  timed_out = false;
  output_capped = false;
  output_bytes = 0;
  diagnostics = [];
  stdout_only = [];
  kills = 0;
}

unfoldable pub on_stdout : ℕ → ℕ → List ℕ → Child → Child
on_stdout max_output_bytes bytes chunk_text c =
    let grown = record c {
      output_bytes = c.output_bytes + bytes;
      diagnostics = c.diagnostics ++ chunk_text;
      stdout_only = c.stdout_only ++ chunk_text;
    } in
    let over = ltb max_output_bytes (c.output_bytes + bytes) in
    if over
    then if c.output_capped
      then grown
      else record grown { output_capped = true; kills = c.kills + 1 }
    else grown

-- `settle`
unfoldable pub settled : Option ℕ → Child → SpawnCapsuleResult
settled exit_code c = record {
  exit_code = exit_code;
  timed_out = c.timed_out;
  output_capped = c.output_capped;
  diagnostics = c.diagnostics;
  stdout = c.stdout_only;
}

-- The events up to the one that resolves the promise; `none` if none has come.
unfoldable pub run_child : ℕ → Child → List ChildEvent → Option SpawnCapsuleResult
run_child max c [] = none
run_child max c (stdout_data bytes chunk_text ∷ es) =
    run_child max (on_stdout max bytes chunk_text c) es
run_child max c (stderr_data chunk_text ∷ es) =
    run_child max (record c { diagnostics = c.diagnostics ++ chunk_text }) es
run_child max c (timer_fired ∷ es) =
    run_child max (record c { timed_out = true; kills = c.kills + 1 }) es
run_child max c (spawn_error ∷ es) = some (settled none c)
run_child max c (closed exit_code ∷ es) = some (settled exit_code c)
