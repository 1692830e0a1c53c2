-- ===== src/Broker/Confinement.antt =====
-- What an agent can do to the disk through the tools of src/broker/project-tool-broker.ts.
use claude_powerplant.Prelude.{
  ◌≡◌, inl, inr, String, true, false, none, some, List, get, arith, Option-cases, length, leb,
}
use claude_powerplant.Text.{units, includes}
use claude_powerplant.Artifact.{detect_artifact_corruption}
use claude_powerplant.Contracts.Tools.{
  PilotToolName, list_files, read_file, write_file, run_check, finalize, Input, CheckEntry,
  is_safe_relative_path, is_write_path_authorized, valid_path, in_length, max_content_length,
  parse_write_file, parse_run_check, parse_finalize,
}
use claude_powerplant.Broker.{
  Contract, Machine, PatchRequest, BrokerState, forbidden_write_content_marker,
}
use claude_powerplant.Broker.Handlers.{
  handle_list_files, handle_read_file, write_refusal, invalidate_checks, write_admitted,
  handle_write_file, record_check, record_verdict, run_declared_check, handle_run_check,
  finalize_admitted, finalize_refusal, patch_request, handle_finalize, handle,
}
use claude_powerplant.Broker.Session.{StreamEvent, initial, session}
use claude_powerplant.Broker.Transcript.{Quiet}
use claude_powerplant.Broker.Passive.{Attempt-cases}
use claude_powerplant.Broker.Conversation.{Ends, session-keeps}

-- A write that the broker may make: a relative path without `..`, inside the policy's patterns, a
-- content of bounded length that has no marker and no sign of corruption.
pub record Admissible (contract : Contract) (path content : String) : Type 0 where
  pub safe : is_safe_relative_path path ≡ true
  pub authorized : is_write_path_authorized path contract.allowed_write_paths ≡ true
  pub bounded : leb (length (units content)) max_content_length ≡ true
  pub unmarked : includes (units content) (units forbidden_write_content_marker) ≡ false
  pub intact : detect_artifact_corruption (units path) (units content) ≡ none

-- A predicate on disks that admissible writes, declared checks and the making of the patch keep.
pub record KeptBy {D : Type 0} (machine : Machine D) (contract : Contract) (P : D → Type 0)
    : Type 0 where
  pub by_write :
      (d : D) (path content : String)
      → Admissible contract path content
      → P d
      → P (machine.write d path content).0
  pub by_check :
      (d : D) (id : String) (entry : CheckEntry)
      → get contract.allowed_checks id ≡ some entry
      → P d
      → P (machine.run_capsule_check d id entry.command contract.verification_profile).0
  pub by_patch : (d : D) (request : PatchRequest) → P d → P (machine.generate_patch d request).0

parse_write_file-valid :
    (input : Input) (path content : String)
    → parse_write_file input ≡ some (path, content)
    → (is_safe_relative_path path ≡ true) × (leb (length (units content)) max_content_length ≡ true)
unfolding parse_write_file valid_path in_length
parse_write_file-valid input path content e = ground arith

write_refusal-Admissible :
    (contract : Contract) (input : Input) (path content : String)
    → parse_write_file input ≡ some (path, content)
    → write_refusal contract path content ≡ none
    → Admissible contract path content
unfolding write_refusal
write_refusal-Admissible contract input path content e ok =
    let (safe, bounded) = parse_write_file-valid input path content e in
    record {
      safe = safe;
      authorized = ground arith;
      bounded = bounded;
      unmarked = ground arith;
      intact = ground arith;
    }

module _ {D : Type 0} (machine : Machine D) (contract : Contract) (P : D → Type 0)
    (kept : KeptBy machine contract P) where
  list_files-keeps :
      (s : BrokerState D) → P s.disk → P (handle_list_files machine contract s).0.disk
  unfolding handle_list_files
  list_files-keeps s p = ground arith

  read_file-keeps :
      (s : BrokerState D) (i : Input) → P s.disk → P (handle_read_file machine contract s i).0.disk
  unfolding handle_read_file
  read_file-keeps s i p = ground arith

  write_file-disk :
      (s : BrokerState D) (path content : String)
      → (write_admitted machine contract s path content).0.disk
        ≡ (machine.write s.disk path content).0
  unfolding write_admitted invalidate_checks
  write_file-disk s path content = ground arith

  write_file-keeps :
      (s : BrokerState D) (i : Input) → P s.disk → P (handle_write_file machine contract s i).0.disk
  unfolding handle_write_file
  write_file-keeps s i p = elim (Option-cases (parse_write_file i)) [
    | inl bad ↦ rw (bad, handle_write_file) p
    | inr ((path, content), good) ↦ elim (Option-cases (write_refusal contract path content)) [
      | inr (e, refused) ↦ rw (good, refused, handle_write_file) p
      | inl admitted ↦
          rw (good, admitted, handle_write_file)
            (rw (write_file-disk s path content) (
              kept.by_write s.disk path content
                (write_refusal-Admissible contract i path content good admitted) p))
    ]
  ]

  declared-disk :
      (s : BrokerState D) (id : String) (entry : CheckEntry)
      → (run_declared_check machine contract s id entry).0.disk
        ≡ (machine.run_capsule_check s.disk id entry.command contract.verification_profile).0
  unfolding run_declared_check record_check record_verdict
  declared-disk s id entry = ground arith

  run_check-keeps :
      (s : BrokerState D) (i : Input) → P s.disk → P (handle_run_check machine contract s i).0.disk
  unfolding handle_run_check
  run_check-keeps s i p = elim (Option-cases (parse_run_check i)) [
    | inl bad ↦ rw (bad, handle_run_check) p
    | inr (id, good) ↦ elim (Option-cases (get contract.allowed_checks id)) [
      | inl unknown ↦ rw (good, unknown, handle_run_check) p
      | inr (entry, known) ↦
          rw (good, known, handle_run_check)
            (rw (declared-disk s id entry) (kept.by_check s.disk id entry known p))
    ]
  ]

  admitted-keeps :
      (s : BrokerState D) (summary : String)
      → P s.disk
      → P (finalize_admitted machine contract s summary).0.disk
  unfolding finalize_admitted
  admitted-keeps s summary p = elim (Attempt-cases (machine.verify_source s.disk)) [
    | inr (e, thrown) ↦ rw (thrown, finalize_admitted) p
    | inl (v, verified) ↦ ground (
      arith,
      kept.by_patch s.disk (patch_request (record s { finalize_received = true }) summary v) p,
    )
  ]

  finalize-keeps :
      (s : BrokerState D) (i : Input) → P s.disk → P (handle_finalize machine contract s i).0.disk
  unfolding handle_finalize
  finalize-keeps s i p = elim (Option-cases (parse_finalize i)) [
    | inl bad ↦ rw (bad, handle_finalize) p
    | inr (summary, good) ↦
        let s' = record s { finalize_attempted = true } in
        elim (Option-cases (finalize_refusal contract s')) [
          | inr (e, refused) ↦ rw (good, refused, handle_finalize) p
          | inl admitted ↦ rw (good, admitted, handle_finalize) (admitted-keeps s' summary p)
        ]
  ]

  handle-keeps :
      (tool : PilotToolName) (s : BrokerState D) (i : Input)
      → P s.disk
      → P (handle machine contract tool s i).0.disk
  unfolding handle
  handle-keeps list_files s i p = list_files-keeps s p
  handle-keeps read_file s i p = read_file-keeps s i p
  handle-keeps write_file s i p = write_file-keeps s i p
  handle-keeps run_check s i p = run_check-keeps s i p
  handle-keeps finalize s i p = finalize-keeps s i p

  Quiet-keeps : (s t : BrokerState D) → Quiet s t → P s.disk → P t.disk
  Quiet-keeps s t q p = rw q.same_disk p

  -- Whatever the agent asks for, a session changes the disk by admissible writes, by the checks
  -- that the policy declares and by the making of the patch, and in no other way: what these
  -- three keep holds wherever the session stops or waits.
  pub session_confined :
      (disk : D) (streams : List (List StreamEvent))
      → P disk
      → Ends (λ s. P s.disk) (session machine contract (initial machine contract disk) streams)
  session_confined disk streams p =
      session-keeps machine contract (λ s. P s.disk) Quiet-keeps handle-keeps
        (initial machine contract disk) streams (unfold initial in p)
