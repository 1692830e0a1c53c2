-- ===== src/Evaluator/Fixture.antt =====
-- When `runOracleWithFixture` of src/preflight/oracle-evaluator.ts gives PASS, and what stops a run.
use claude_powerplant.Prelude.{
  ℕ, ◌<◌, ◌≡◌, ◌≢◌, sym, ap, ◌∙◌, ◌↔◌, inl, inr, ◌⊎◌, String, ◌==◌, eq_iff, true, false, not, ◌&&◌,
  ◌||◌, Option, none, some, List, length, leb, eqb, arith, Bool-cases, Option-cases,
}
use claude_powerplant.Evaluator.{Json, pass, OracleBundle}
use claude_powerplant.Evaluator.Capsule.{OutputFile}
use claude_powerplant.Evaluator.Oracle.{
  SyncResult, is_signal, judge_error, judge_exit, Shown, judge_sync, EvaluatorReceipt, SyncEnv,
  run_oracle_with_fixture,
}
use claude_powerplant.Evaluator.Channels.{FileSays, read_file_pass}

-- The subprocess ended by itself, or by a signal that is not looked at, and with less output than allowed.
pub record Ended (max_output_bytes : ℕ) (r : SyncResult) : Type 0 where
  pub no_error : r.error_code ≡ none
  pub no_term : is_signal r.signal "SIGTERM" ≡ false
  pub no_kill : is_signal r.signal "SIGKILL" ≡ false
  pub short : (length r.stdout ≡ 0) ⊎ (length r.stdout < max_output_bytes)

module _ (parse : List ℕ → Option Json) where
  judge_error_fails :
      (code signal : Option String) (shown : List ℕ) → (judge_error code signal shown).status ≢ pass
  unfolding judge_error
  judge_error_fails code signal shown e = ground (arith, e)

  judge_exit_pass :
      (max : ℕ) (r : SyncResult) (out : OutputFile)
      → ((judge_exit parse max r out).status ≡ pass)
        ↔ (((length r.stdout ≡ 0) ⊎ (length r.stdout < max)) × FileSays parse out (some "PASS"))
  unfolding judge_exit
  judge_exit_pass max r out =
      let file = read_file_pass parse out in
      elim (Bool-cases (not (eqb (length r.stdout) 0) && leb max (length r.stdout))) [
        | inl long ↦
            ((λ e. absurd (ground (arith, e, long))), (λ h. absurd (ground (arith, h.0, long))))
        | inr short ↦ (
          (λ e. (ground (arith, short), file.0 (ground (arith, e, short)))),
          (λ h. ground (arith, short, file.1 h.1)),
        )
      ]

  judge_sync_pass :
      (max : ℕ) (shown : Shown) (r : SyncResult) (out : OutputFile)
      → ((judge_sync parse max shown r out).status ≡ pass)
        ↔ (Ended max r × FileSays parse out (some "PASS"))
  unfolding judge_sync
  judge_sync_pass max shown r out = elim (Option-cases r.error_code) [
    | inr (code, failed) ↦ (
      (λ e. absurd (judge_error_fails code r.signal shown.error_text (ground (arith, e, failed)))),
      (λ h. absurd (ground (arith, h.0.no_error, failed))),
    )
    | inl well ↦ elim (Bool-cases (is_signal r.signal "SIGTERM" || is_signal r.signal "SIGKILL")) [
      | inl killed ↦ (
        (λ e. absurd (ground (arith, e, well, killed))),
        (λ h. absurd (ground (arith, h.0.no_term, h.0.no_kill, killed))),
      )
      | inr alive ↦
          let judged = judge_exit_pass max r out in
          (
            (λ e.
                let (short, says) = judged.0 (ground (arith, e, well, alive)) in
                (
                  record {
                    no_error = well;
                    no_term = ground (arith, alive);
                    no_kill = ground (arith, alive);
                    short = short;
                  },
                  says,
                )),
            (λ h. ground (arith, well, alive, judged.1 (h.0.short, h.1))),
          )
    ]
  ]

-- A run of the oracle on a fixture as a subprocess gives a receipt exactly if the oracle can be read, its
-- workspace be made and the receipt be written. Its status is PASS exactly if, in addition, the spawn has no error and no signal SIGTERM or
-- SIGKILL, the standard output is empty or shorter than the limit, and the output file, read after
-- the run, says PASS: neither the exit status nor the hash of the oracle plays a part. A receipt
-- says that its tamper check passed exactly if the oracle has the hash of the bundle's receipt.
pub fixture_pass_iff :
    (env : SyncEnv) (bundle : OracleBundle) (fixture : List ℕ) (max : ℕ)
    → ((run_oracle_with_fixture env bundle fixture max ≡ none) ↔ (env.sets_up ≡ false))
      × ((receipt : EvaluatorReceipt)
          → run_oracle_with_fixture env bundle fixture max ≡ some receipt
          → ((receipt.judgement.status ≡ pass)
              ↔ (Ended max env.result × FileSays env.parse env.output_file (some "PASS")))
            × ((receipt.tamper_check_passed ≡ true)
                ↔ (env.sha env.oracle_file ≡ bundle.oracle_sha256)))
unfolding run_oracle_with_fixture
fixture_pass_iff env bundle fixture max = (
  ground arith,
  (λ receipt e.
      let judged = judge_sync_pass env.parse max env.shown env.result env.output_file in
      let same : judge_sync env.parse max env.shown env.result env.output_file ≡ receipt.judgement =
        ground (arith, e) in
      let checked : (env.sha env.oracle_file == bundle.oracle_sha256)
          ≡ receipt.tamper_check_passed =
        ground (arith, e) in
      let equal = eq_iff (env.sha env.oracle_file) bundle.oracle_sha256 in
      (
        (
          (λ ok. judged.0 (ap (λ j. j.status) same ∙ ok)),
          (λ h. sym (ap (λ j. j.status) same) ∙ judged.1 h),
        ),
        ((λ ok. equal.0 (checked ∙ ok)), (λ h. sym checked ∙ equal.1 h)),
      )),
)
