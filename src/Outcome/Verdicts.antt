-- ===== src/Outcome/Verdicts.antt =====
-- When src/projects/evaluate-terminal-outcome.ts passes a run, and what it says of one that fails.
use claude_powerplant.Prelude.{
  ◌≡◌, refl, inl, inr, Bool-cases, ◌↔◌, true, false, none, last?, is_none, arith,
}
use claude_powerplant.Outcome.{
  completed, failed_tool_budget_exhausted, RunEvidence, termination_of, ends_without_integrity,
  final_verification, failure_of, evaluate_terminal_run_outcome, to_run_classification,
}

-- What a passed run has, said of the evidence one by one. The marker text plays no part.
pub record IsVerified (e : RunEvidence) : Type 0 where
  pub in_budget : e.budget_exhausted ≡ false
  pub finalized : e.finalize_received ≡ true
  pub patched : e.patch_package_present ≡ true
  pub fresh : e.checks_valid_after_last_write ≡ true
  pub checked : e.test_check_passed ≡ true
  pub genuine : ends_without_integrity (last? e.check_results) ≡ false
  pub untouched : e.source_unmodified ≡ true
  pub confined : e.builtin_tool_use_count ≡ 0

to_verified : (e : RunEvidence) → final_verification e ≡ true → IsVerified e
unfolding final_verification
to_verified e h = ground arith

of_verified : (e : RunEvidence) → IsVerified e → final_verification e ≡ true
unfolding final_verification
of_verified e v = ground arith

-- A run passes exactly when its budget held, finalize was accepted, the patch exists, checks are
-- valid after the last write, the required checks passed, the last result is no integrity failure,
-- the source is unmodified, and no built-in tool was used.
pub IsVerified-iff :
    (e : RunEvidence)
    → ((evaluate_terminal_run_outcome e).final_verification_passed ≡ true) ↔ IsVerified e
unfolding evaluate_terminal_run_outcome
IsVerified-iff e = (to_verified e, of_verified e)

failure_of_failed :
    (e : RunEvidence) → final_verification e ≡ false → is_none (failure_of e) ≡ false
unfolding final_verification failure_of
failure_of_failed e h = ground arith

-- A run has no failure reason exactly when it passed: the cascade of reasons misses no case.
pub failure_reason_iff :
    (e : RunEvidence)
    → ((evaluate_terminal_run_outcome e).failure_reason ≡ none)
      ↔ ((evaluate_terminal_run_outcome e).final_verification_passed ≡ true)
unfolding evaluate_terminal_run_outcome
failure_reason_iff e = elim (Bool-cases (final_verification e)) [
  | inl yes_passed ↦ rw yes_passed ((λ _. refl), (λ _. refl))
  | inr not_passed ↦
      rw not_passed ((λ h. absurd (ground (arith, failure_of_failed e not_passed))), (λ h. cc))
]

-- The classification written to RUN_CLASSIFICATION.json marks a patch eligible only for a completed
-- run with its artifacts, and then carries no failed diagnostic.
eligible_classification :
    (e : RunEvidence)
    → (to_run_classification (evaluate_terminal_run_outcome e)).patch_eligible_for_application
      ≡ true
    → ((to_run_classification (evaluate_terminal_run_outcome e)).termination_reason ≡ completed)
      × ((to_run_classification (evaluate_terminal_run_outcome e)).artifacts_complete ≡ true)
      × ((to_run_classification (evaluate_terminal_run_outcome e)).last_failed_diagnostic ≡ none)
unfolding to_run_classification evaluate_terminal_run_outcome
eligible_classification e h =
    let v = to_verified e h in
    (unfold termination_of in rw (v.in_budget, v.finalized) refl, v.patched, rw h refl)

-- A run whose budget was used up has not passed and is classified so.
pub exhausted_outcome :
    (e : RunEvidence)
    → e.budget_exhausted ≡ true
    → ((evaluate_terminal_run_outcome e).final_verification_passed ≡ false)
      × ((to_run_classification (evaluate_terminal_run_outcome e)).termination_reason
          ≡ failed_tool_budget_exhausted)
unfolding to_run_classification evaluate_terminal_run_outcome final_verification termination_of
exhausted_outcome e full = ground arith
