-- ===== src/Approvals/Tests.antt =====
-- The approvals of src/approvals at inputs that meet the hypotheses of their properties.
use claude_powerplant.Prelude.{◌≡◌, String, true, false, List, [], ◌∷◌, ◌++◌, All}
use claude_powerplant.Approvals.{text, PendingToolUse, Denial}
use claude_powerplant.Approvals.Confirmation.{
  SessionEvent, tool_use, requires_action, idle, run_with_confirmation, start, decide_write,
}
use claude_powerplant.Approvals.Answers.{Answered, run-Answered, flatten}
use claude_powerplant.Approvals.Writes.{Judges, Matched, Streamed, writes_confined}

abbrev listing : PendingToolUse
listing = record { id = "t1"; name = "bash"; input = ("command", text " ls ") ∷ [] }

abbrev writing : PendingToolUse
writing = record {
  id = "t2";
  name = "write";
  input = ("file_path", text "/out/a.txt") ∷ ("content", text "ok") ∷ [];
}

abbrev explain : Denial → String
explain d = "denied"

-- Two uses in a first turn, one in a second.
abbrev turns : List (List SessionEvent)
turns =
    (tool_use writing ∷ tool_use listing ∷ requires_action ∷ [])
    ∷ (tool_use writing ∷ requires_action ∷ [])
    ∷ (idle ∷ [])
    ∷ []

run-Answered_example :
    (rest : List PendingToolUse) × Answered
      (decide_write explain "/out/a.txt" "ok")
      (run_with_confirmation (decide_write explain "/out/a.txt" "ok") false start turns).0
      rest
    × (false ≡ true → rest ≡ [])
    × ((run_with_confirmation (decide_write explain "/out/a.txt" "ok") false start turns).1 ≡ true
        → rest ≡ [])
run-Answered_example = run-Answered (decide_write explain "/out/a.txt" "ok") false turns

writes_confined_example :
    (batches : List (List PendingToolUse)) × ((rest : List PendingToolUse) × ((run_with_confirmation
          (decide_write explain "/out/a.txt" "ok")
          false
          start
          turns).0.tool_use_events
        ≡ flatten batches ++ rest))
    × Matched
        (Judges "/out/a.txt" "ok")
        batches
        (run_with_confirmation (decide_write explain "/out/a.txt" "ok") false start turns).0.posted
    × All
        (Streamed turns)
        (run_with_confirmation
          (decide_write explain "/out/a.txt" "ok")
          false
          start
          turns).0.tool_use_events
writes_confined_example = writes_confined explain "/out/a.txt" "ok" false turns
