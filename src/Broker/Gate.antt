-- ===== src/Broker/Gate.antt =====
-- The flags of the broker (src/broker/project-tool-broker.ts) against the replies that it gave:
-- the invariant that links them, kept by every tool call.
use claude_powerplant.Prelude.{
  ◌≡◌, refl, ◌∙◌, ◌⊎◌, inl, inr, String, eq_iff, true, ◌&&◌, List, [], ◌∷◌, get, keys, has, has-add,
  has-delete, Distinct, Distinct-add, Distinct-delete, length, eqb, arith, Option-cases,
}
use claude_powerplant.Contracts.Verdict.{CheckResult, RunCheckDiagnostics}
use claude_powerplant.Contracts.Tools.{
  PilotToolName, list_files, read_file, write_file, run_check, finalize, Input, CheckEntry,
  parse_write_file, parse_run_check,
}
use claude_powerplant.Broker.{
  Attempt, Contract, Machine, Reply, written, checked, error, BrokerState, required_ids, failed,
  input_rejected, check_rejected,
}
use claude_powerplant.Broker.Handlers.{
  mark_advisory, runner_kind, invalidate_checks, write_admitted, write_refusal, handle_write_file,
  record_verdict, record_check, check_reply, run_declared_check, handle_run_check, handle,
}
use claude_powerplant.Broker.Session.{initial}
use claude_powerplant.Broker.Transcript.{
  passed_since, checked_since, SameGates, Reachable, begin, call, quiet,
}
use claude_powerplant.Broker.Passive.{
  has-required_ids, is_neutral, passed_since-neutral, checked_since-neutral, Passive,
  SameGates-refl, list_files-Passive, read_file-Passive, finalize-Passive, Attempt-cases,
}

-- The flags of the broker say what its replies show.
pub record Tracks {D : Type 0} (contract : Contract) (s : BrokerState D) (h : List Reply)
    : Type 0 where
  pub tracked :
      (id : String)
      → has s.passed_required_checks id
        ≡ (has (required_ids contract.allowed_checks) id && passed_since id h)
  pub distinct : Distinct s.passed_required_checks
  pub fresh : s.checks_valid_after_last_write ≡ checked_since h
  pub counted :
      s.test_check_passed
      ≡ eqb (length s.passed_required_checks) (length (required_ids contract.allowed_checks))

module _ {D : Type 0} (machine : Machine D) (contract : Contract) where
  Tracks-initial : (disk : D) → Tracks contract (initial machine contract disk) []
  unfolding initial has passed_since checked_since
  Tracks-initial disk = record {
    tracked = λ id. ground arith;
    distinct = tt;
    fresh = refl;
    counted = ground arith;
  }

  Tracks-neutral :
      {s t : BrokerState D} {h : List Reply} (r : Reply)
      → SameGates s t
      → is_neutral r ≡ true
      → Tracks contract s h
      → Tracks contract t (r ∷ h)
  Tracks-neutral {h} r same neutral tr = record {
    tracked = λ id. rw (same.same_passed, passed_since-neutral id r h neutral) (tr.tracked id);
    distinct = rw same.same_passed tr.distinct;
    fresh = rw (checked_since-neutral r h neutral) (same.same_valid ∙ tr.fresh);
    counted = rw same.same_passed (same.same_test ∙ tr.counted);
  }

  Tracks-quiet :
      {s t : BrokerState D} {h : List Reply}
      → SameGates s t
      → Tracks contract s h
      → Tracks contract t h
  Tracks-quiet {h} same tr = record {
    tracked = λ id. rw same.same_passed (tr.tracked id);
    distinct = rw same.same_passed tr.distinct;
    fresh = same.same_valid ∙ tr.fresh;
    counted = rw same.same_passed (same.same_test ∙ tr.counted);
  }

  Tracks-written :
      (s : BrokerState D) (path : String) (h : List Reply)
      → Tracks contract (invalidate_checks machine contract s) (written path ∷ h)
  unfolding invalidate_checks has passed_since checked_since
  Tracks-written s path h = record {
    tracked = λ id. ground arith;
    distinct = tt;
    fresh = refl;
    counted = ground arith;
  }

  write_admitted-cases :
      (s : BrokerState D) (path content : String)
      → Passive s (write_admitted machine contract s path content)
        ⊎ ((t : BrokerState D) × (write_admitted machine contract s path content
              ≡ (invalidate_checks machine contract t, written path)))
  unfolding write_admitted
  write_admitted-cases s path content = elim (Attempt-cases (machine.write s.disk path content).1) [
    | inl (u, ok) ↦
        inr
          (record s { disk = (machine.write s.disk path content).0 }, rw (ok, write_admitted) refl)
    | inr (e, thrown) ↦ inl (ground arith)
  ]

  -- A write call either moves no gate or closes all of them.
  write_file-cases :
      (s : BrokerState D) (input : Input)
      → Passive s (handle_write_file machine contract s input)
        ⊎ ((t : BrokerState D) × (path : String) × (handle_write_file machine contract s input
              ≡ (invalidate_checks machine contract t, written path)))
  unfolding handle_write_file
  write_file-cases s input = elim (Option-cases (parse_write_file input)) [
    | inl bad ↦ inl (ground arith)
    | inr ((path, content), good) ↦ elim (Option-cases (write_refusal contract path content)) [
      | inr (e, refused) ↦ inl (ground arith)
      | inl admitted ↦ elim (write_admitted-cases s path content) [
        | inl passive ↦ inl (ground arith)
        | inr (t, e) ↦ inr (t, path, ground arith)
      ]
    ]
  ]

  Tracks-write_file :
      {s : BrokerState D} {h : List Reply} (input : Input)
      → Tracks contract s h
      → Tracks contract
          (handle_write_file machine contract s input).0
          ((handle_write_file machine contract s input).1 ∷ h)
  Tracks-write_file {s} {h} input tr = elim (write_file-cases s input) [
    | inl (same, neutral) ↦
        Tracks-neutral (handle_write_file machine contract s input).1 same neutral tr
    | inr (t, path, e) ↦ rw e (Tracks-written t path h)
  ]

  Tracks-checked :
      {s : BrokerState D} {h : List Reply} (check : String) (entry : CheckEntry)
      (result : CheckResult) (diagnostics : RunCheckDiagnostics)
      → has (required_ids contract.allowed_checks) check ≡ entry.required
      → Tracks contract s h
      → Tracks contract
          (record_check machine contract s check entry result diagnostics)
          (checked (check_reply machine contract check entry result diagnostics) ∷ h)
  unfolding record_check record_verdict check_reply passed_since checked_since
  Tracks-checked {s} {h} check entry result diagnostics declared tr = record {
    tracked = λ id. ground (
      arith,
      has-add check s.passed_required_checks id,
      has-delete check s.passed_required_checks id,
      tr.tracked id,
      eq_iff check id,
      declared,
    );
    distinct = ground (
      arith,
      Distinct-add check s.passed_required_checks tr.distinct,
      Distinct-delete check s.passed_required_checks tr.distinct,
      tr.distinct,
    );
    fresh = ground (arith, tr.fresh);
    counted = ground (arith, tr.counted);
  }

  Tracks-declared :
      {s : BrokerState D} {h : List Reply} (check : String) (entry : CheckEntry)
      → has (required_ids contract.allowed_checks) check ≡ entry.required
      → Tracks contract s h
      → Tracks contract
          (run_declared_check machine contract s check entry).0
          ((run_declared_check machine contract s check entry).1 ∷ h)
  unfolding run_declared_check
  Tracks-declared {s} {h} check entry declared tr =
      let s' = record s { disk = outcome.0 } in
      let tr' : Tracks contract s' h =
        Tracks-quiet {s = s} (record { same_passed = refl; same_valid = refl; same_test = refl })
          tr in
      elim (Attempt-cases outcome.1) [
        | inl (raw, ok) ↦
            let result = mark_advisory entry raw in
            rw (ok, run_declared_check)
              (Tracks-checked check entry result
                (machine.diagnose (runner_kind check entry.command) result) declared tr')
        | inr (e, thrown) ↦
            rw (thrown, run_declared_check)
              (Tracks-neutral (error (failed e))
                (record { same_passed = refl; same_valid = refl; same_test = refl }) refl tr)
      ]
    where
      outcome : D × Attempt CheckResult
      outcome = machine.run_capsule_check s.disk check entry.command contract.verification_profile

  Tracks-run_check :
      {s : BrokerState D} {h : List Reply} (input : Input)
      → Distinct (keys contract.allowed_checks)
      → Tracks contract s h
      → Tracks contract
          (handle_run_check machine contract s input).0
          ((handle_run_check machine contract s input).1 ∷ h)
  unfolding handle_run_check
  Tracks-run_check {s} {h} input d tr = elim (Option-cases (parse_run_check input)) [
    | inl bad ↦
        rw (bad, handle_run_check)
          (Tracks-neutral (error (input_rejected run_check)) (SameGates-refl s) refl tr)
    | inr (check, good) ↦ elim (Option-cases (get contract.allowed_checks check)) [
      | inl unknown ↦
          rw (good, unknown, handle_run_check)
            (Tracks-neutral (error (check_rejected check (keys contract.allowed_checks)))
              (SameGates-refl s) refl tr)
      | inr (entry, known) ↦
          rw (good, known, handle_run_check)
            (Tracks-declared check entry
              (has-required_ids contract.allowed_checks check entry d known) tr)
    ]
  ]

  Tracks-handle :
      {s : BrokerState D} {h : List Reply} (tool : PilotToolName) (input : Input)
      → Distinct (keys contract.allowed_checks)
      → Tracks contract s h
      → Tracks contract
          (handle machine contract tool s input).0
          ((handle machine contract tool s input).1 ∷ h)
  unfolding handle
  Tracks-handle {s} list_files input d tr =
      let (same, neutral) = list_files-Passive machine contract s in
      Tracks-neutral _ same neutral tr
  Tracks-handle {s} read_file input d tr =
      let (same, neutral) = read_file-Passive machine contract s input in
      Tracks-neutral _ same neutral tr
  Tracks-handle write_file input d tr = Tracks-write_file input tr
  Tracks-handle run_check input d tr = Tracks-run_check input d tr
  Tracks-handle {s} finalize input d tr =
      let (same, neutral) = finalize-Passive machine contract s input in
      Tracks-neutral _ same neutral tr

  -- Whatever the agent calls, the broker's flags say what its replies show: each member of the
  -- passed set is a required check whose latest run since the last write passed, and conversely;
  -- the set has no member twice; the write gate is open exactly if, since the last write, a check has
  -- passed or an advisory one has run; and the size test agrees with the set.
  pub Reachable-Tracks :
      {s : BrokerState D} {h : List Reply}
      → Distinct (keys contract.allowed_checks)
      → Reachable machine contract s h
      → Tracks contract s h
  Reachable-Tracks d (begin disk) = Tracks-initial disk
  Reachable-Tracks d (call tool input r) = Tracks-handle tool input d (Reachable-Tracks d r)
  Reachable-Tracks d (quiet q r) = Tracks-quiet q.gates (Reachable-Tracks d r)
