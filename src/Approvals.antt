-- ===== src/Approvals.antt =====
-- The policies of src/approvals/bash-confirmation-policy.ts and
-- src/approvals/tool-confirmation-policy.ts: which pending tool uses may be confirmed.
pub mod Policies
pub mod Confirmation
pub mod Answers
pub mod Writes
mod Tests
use claude_powerplant.Prelude.{
  ℕ, String, ◌==◌, Bool, true, false, not, Option, none, some, List, [], ◌∷◌, Dict, get, any,
  length, eqb, if◌then◌else◌,
}
use claude_powerplant.Text.{units, same_units, trim, trim_end}

-- A value of a tool's input: a text, `null`, or another value with the text that `String` gives.
pub data InputValue : Type 0 where
  text : String → InputValue
  null : InputValue
  other : String → InputValue

pub record PendingToolUse : Type 0 where
  pub id : String
  pub name : String
  pub input : Dict InputValue

pub data Denial : Type 0 where
  not_one_event : ℕ → Denial
  wrong_tool : String → Denial
  empty_command : Denial
  command_not_listed : List ℕ → Denial
  missing_path : Denial
  wrong_path : Denial
  content_mismatch : Denial

pub data PolicyResult : Type 0 where
  allowed : PolicyResult
  denied : Denial → PolicyResult

-- `String(input[key] ?? '')`
unfoldable pub shown : Dict InputValue → String → String
shown input key = elim (get input key) [
  | none ↦ ""
  | some v ↦ elim v [ text s ↦ s | null ↦ "" | other s ↦ s ]
]

-- The policy's tests on its one event; any other number of events is denied.
unfoldable pub only_event : List PendingToolUse → (PendingToolUse → PolicyResult) → PolicyResult
only_event [] judge = denied (not_one_event 0)
only_event (e ∷ []) judge = judge e
only_event (e ∷ f ∷ es) judge = denied (not_one_event (length (e ∷ f ∷ es)))

-- `command === allowed.trim()` for one of them
unfoldable pub listed : List ℕ → List String → Bool
listed command commands = any (λ a. same_units command (trim (units a))) commands

unfoldable pub judge_bash : List String → PendingToolUse → PolicyResult
judge_bash commands e =
    if not (e.name == "bash")
    then denied (wrong_tool e.name)
    else let command = trim (units (shown e.input "command")) in
      if eqb (length command) 0
      then denied empty_command
      else if listed command commands
      then allowed
      else denied (command_not_listed command)

unfoldable pub evaluate_bash_policy : List PendingToolUse → List String → PolicyResult
evaluate_bash_policy events commands = only_event events (judge_bash commands)

unfoldable pub judge_write_output : String → PendingToolUse → PolicyResult
judge_write_output path e =
    if not (e.name == "write")
    then denied (wrong_tool e.name)
    else if not (shown e.input "file_path" == path)
    then denied wrong_path
    else allowed

unfoldable pub evaluate_write_output_policy : List PendingToolUse → String → PolicyResult
evaluate_write_output_policy events path = only_event events (judge_write_output path)

-- `input['file_path'] === expectedPath`
unfoldable pub is_text : InputValue → String → Bool
is_text (text s) path = s == path
is_text null path = false
is_text (other _) path = false

unfoldable pub judge_write : String → String → PendingToolUse → PolicyResult
judge_write path content e =
    if not (e.name == "write") then denied (wrong_tool e.name) else elim (get e.input "file_path") [
      | none ↦ denied missing_path
      | some v ↦
          if not (is_text v path)
          then denied wrong_path
          else if not
              (same_units (trim_end (units (shown e.input "content"))) (trim_end (units content)))
          then denied content_mismatch
          else allowed
    ]

unfoldable pub evaluate_write_policy : List PendingToolUse → String → String → PolicyResult
evaluate_write_policy events path content = only_event events (judge_write path content)
