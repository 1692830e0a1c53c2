-- ===== src/Broker/Transcript.antt =====
-- The gates of src/broker/project-tool-broker.ts said of the replies that the agent has seen, with
-- no reference to the broker's own flags. Replies are listed newest first.
use claude_powerplant.Prelude.{
  ℕ, suc, ◌≡◌, String, ◌==◌, Bool, false, not, ◌||◌, Option, none, some, List, [], ◌∷◌, Dict, true,
  map, length, keep, eqb, if◌then◌else◌,
}
use claude_powerplant.Contracts.Tools.{
  PilotToolName, list_files, read_file, write_file, run_check, finalize, Input, CheckEntry,
}
use claude_powerplant.Broker.{
  Contract, Machine, PatchPackage, ToolError, missing_checks, checks_stale, finalize_repeated,
  failed, RunCheckResult, Reply, files, file, not_found, written, checked, finalized, error,
  BrokerState, required_ids,
}
use claude_powerplant.Broker.Handlers.{handle}
use claude_powerplant.Broker.Session.{initial}

-- Since the last write, has the check run, and did its latest run pass?
unfoldable pub passed_since : String → List Reply → Bool
passed_since id [] = false
passed_since id (written _ ∷ h) = false
passed_since id (checked r ∷ h) = if r.check_id == id then r.passed else passed_since id h
passed_since id (files _ ∷ h) = passed_since id h
passed_since id (file _ _ ∷ h) = passed_since id h
passed_since id (not_found _ ∷ h) = passed_since id h
passed_since id (finalized _ ∷ h) = passed_since id h
passed_since id (error _ ∷ h) = passed_since id h

-- `true` for the result of an advisory check.
abbrev pub is_advisory : RunCheckResult → Bool
is_advisory r = elim r.advisory [ none ↦ false | some b ↦ b ]

-- Since the last write, has a check passed, or an advisory check run?
unfoldable pub checked_since : List Reply → Bool
checked_since [] = false
checked_since (written _ ∷ h) = false
checked_since (checked r ∷ h) = (r.passed || is_advisory r) || checked_since h
checked_since (files _ ∷ h) = checked_since h
checked_since (file _ _ ∷ h) = checked_since h
checked_since (not_found _ ∷ h) = checked_since h
checked_since (finalized _ ∷ h) = checked_since h
checked_since (error _ ∷ h) = checked_since h

-- The required checks that have not passed since the last write.
unfoldable pub missing_since : Dict CheckEntry → List Reply → List String
missing_since checks h = keep (λ id. not (passed_since id h)) (required_ids checks)

-- A call of a tool with its reply.
abbrev pub Call : Type 0
Call = PilotToolName × Reply

abbrev pub is_failure : ToolError → Bool
is_failure (failed _) = true
is_failure _ = false

-- A finalize call was let through if it was accepted, or ended in an error that the source or the
-- making of the patch threw.
unfoldable pub ends_finalize : Reply → Bool
ends_finalize (finalized _) = true
ends_finalize (error e) = is_failure e
ends_finalize (files _) = false
ends_finalize (file _ _) = false
ends_finalize (not_found _) = false
ends_finalize (written _) = false
ends_finalize (checked _) = false

abbrev pub is_let_through : PilotToolName → Reply → Bool
is_let_through list_files r = false
is_let_through read_file r = false
is_let_through write_file r = false
is_let_through run_check r = false
is_let_through finalize r = ends_finalize r

-- Was one of the calls a finalize call that was let through?
unfoldable pub let_through : List Call → Bool
let_through [] = false
let_through ((tool, r) ∷ calls) = is_let_through tool r || let_through calls

abbrev pub replies : List Call → List Reply
replies calls = map (λ c. c.1) calls

-- How finalize should answer after the calls, newest first.
unfoldable pub expected_refusal : Dict CheckEntry → List Call → Option ToolError
expected_refusal checks calls =
    let missing = missing_since checks (replies calls) in
    if not (eqb (length missing) 0)
    then some (missing_checks missing)
    else if not (checked_since (replies calls))
    then some checks_stale
    else if let_through calls
    then some finalize_repeated
    else none

-- The flags on which finalize depends are the same in two states.
pub record SameGates {D : Type 0} (s t : BrokerState D) : Type 0 where
  pub same_passed : t.passed_required_checks ≡ s.passed_required_checks
  pub same_valid : t.checks_valid_after_last_write ≡ s.checks_valid_after_last_write
  pub same_test : t.test_check_passed ≡ s.test_check_passed

-- A step that is no tool call: the reading of a stream, the storing of a result, the budget test.
pub record Quiet {D : Type 0} (s t : BrokerState D) : Type 0 where
  pub gates : SameGates s t
  pub same_received : t.finalize_received ≡ s.finalize_received
  pub same_patch : t.patch_package ≡ s.patch_package
  pub same_disk : t.disk ≡ s.disk

-- The package that the last accepted finalize call returned.
unfoldable pub finalized_package : List Reply → Option PatchPackage
finalized_package [] = none
finalized_package (finalized p ∷ h) = some p
finalized_package (files _ ∷ h) = finalized_package h
finalized_package (file _ _ ∷ h) = finalized_package h
finalized_package (not_found _ ∷ h) = finalized_package h
finalized_package (written _ ∷ h) = finalized_package h
finalized_package (checked _ ∷ h) = finalized_package h
finalized_package (error _ ∷ h) = finalized_package h

-- How many finalize calls were accepted.
unfoldable pub count_finalized : List Reply → ℕ
count_finalized [] = 0
count_finalized (finalized _ ∷ h) = suc (count_finalized h)
count_finalized (files _ ∷ h) = count_finalized h
count_finalized (file _ _ ∷ h) = count_finalized h
count_finalized (not_found _ ∷ h) = count_finalized h
count_finalized (written _ ∷ h) = count_finalized h
count_finalized (checked _ ∷ h) = count_finalized h
count_finalized (error _ ∷ h) = count_finalized h

-- A broker that began on some disk and has given the replies `h`.
pub data Reachable {D : Type 0} (machine : Machine D) (contract : Contract)
    : BrokerState D → List Reply → Type 0 where
  begin : (disk : D) → Reachable machine contract (initial machine contract disk) []
  call :
      {s : BrokerState D} {h : List Reply} (tool : PilotToolName) (input : Input)
      → Reachable machine contract s h
      → Reachable machine contract
          (handle machine contract tool s input).0
          ((handle machine contract tool s input).1 ∷ h)
  quiet :
      {s t : BrokerState D} {h : List Reply}
      → Quiet s t
      → Reachable machine contract s h
      → Reachable machine contract t h

-- The same with the calls that the replies answer.
pub data Called {D : Type 0} (machine : Machine D) (contract : Contract)
    : BrokerState D → List Call → Type 0 where
  opened : (disk : D) → Called machine contract (initial machine contract disk) []
  called :
      {s : BrokerState D} {calls : List Call} (tool : PilotToolName) (input : Input)
      → Called machine contract s calls
      → Called machine contract
          (handle machine contract tool s input).0
          ((tool, (handle machine contract tool s input).1) ∷ calls)
  silent :
      {s t : BrokerState D} {calls : List Call}
      → Quiet s t
      → Called machine contract s calls
      → Called machine contract t calls

pub Called-Reachable :
    {D : Type 0} (machine : Machine D) (contract : Contract) {s : BrokerState D} {calls : List Call}
    → Called machine contract s calls
    → Reachable machine contract s (replies calls)
Called-Reachable machine contract (opened disk) = begin disk
Called-Reachable machine contract (called tool input c) =
    call tool input (Called-Reachable machine contract c)
Called-Reachable machine contract (silent q c) = quiet q (Called-Reachable machine contract c)
