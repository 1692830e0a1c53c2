-- ===== src/Scout/Tests.antt =====
-- Scout on small contracts, and its properties at inputs that meet their hypotheses.
use claude_powerplant.Prelude.{
  ◌≤◌, ◌≡◌, ◌≢◌, refl, ◌↔◌, ◌⊎◌, String, true, false, List, [], ◌∷◌, length, All, has, get,
}
use claude_powerplant.Text.{units, includes, includes_word}
use claude_powerplant.Scout.{
  low, reject, Emitted, shaped, misfit, ProposedCandidate, ScoutContract, declared,
  checks_not_declared,
}
use claude_powerplant.Scout.Verdict.{
  recommended, rejected, ScoutCandidate, check_command_covers_path, lower_command,
  normalize_candidate,
}
use claude_powerplant.Scout.Task.{
  CandidateScope, derived, derive_task_from_candidate, scope_of, scan_sources,
}
use claude_powerplant.Scout.Within.{Within}
use claude_powerplant.Scout.Ceiling.{runnable_iff}
use claude_powerplant.Scout.Listing.{take, all_emitted, proposals, numbered}
use claude_powerplant.Scout.Scan.{Earned, scan-Earned}

abbrev contract : ScoutContract
contract = record {
  allowed_write_paths = "tests/**" ∷ [];
  allowed_checks = ("test", record { command = "npx vitest run"; required = true }) ∷ [];
}

abbrev add_test : Emitted
add_test = shaped (record {
  id = units "scout-001";
  title = "Add a test";
  domain = "test-gap";
  why_it_matters = "No test covers it";
  repo_evidence = "src/a.ts" ∷ [];
  risk = "LOW";
  expected_files = "tests/a.test.ts" ∷ [];
  verification = "test" ∷ [];
  non_goals = [];
})

-- A name of `Object.prototype` counts as a declared check.
constructor_is_declared : declared contract.allowed_checks "constructor" ≡ true
unfolding declared get has
constructor_is_declared = refl

deploy_is_undeclared :
    checks_not_declared ("test" ∷ "deploy" ∷ []) contract.allowed_checks ≡ "deploy" ∷ []
unfolding checks_not_declared declared get has
deploy_is_undeclared = refl

vitest_covers : check_command_covers_path "npx VITEST run" "tests/a.test.ts" ≡ true
unfolding check_command_covers_path lower_command units includes includes_word
vitest_covers = refl

grep_covers_nothing : check_command_covers_path "grep -q x README.md" "README.md" ≡ false
unfolding check_command_covers_path lower_command units includes includes_word
grep_covers_nothing = refl

runnable_iff_example :
    ((c : ScoutCandidate)
      → (((lines : List String) × ((scope : CandidateScope) × (derive_task_from_candidate c contract
                ≡ derived lines scope)))
          ↔ ((c.status ≢ rejected) × Within contract c.proposed))
        × ((lines : List String) (scope : CandidateScope)
            → derive_task_from_candidate c contract ≡ derived lines scope
            → scope ≡ scope_of c))
    × ((p : ProposedCandidate)
        → (((normalize_candidate p contract).status ≡ recommended)
            ↔ ((p.risk ≡ low) × Within contract p))
          × (((normalize_candidate p contract).status ≡ rejected)
              ↔ ((p.risk ≡ reject) ⊎ ¬ Within contract p)))
runnable_iff_example = runnable_iff contract

scan-Earned_example :
    (scan_sources contract [] ((misfit ∷ add_test ∷ []) ∷ (add_test ∷ []) ∷ [])
      ≡ numbered contract 0
          (take 25 (proposals (all_emitted ((misfit ∷ add_test ∷ []) ∷ (add_test ∷ []) ∷ [])))))
    × (length (scan_sources contract [] ((misfit ∷ add_test ∷ []) ∷ (add_test ∷ []) ∷ [])) ≤ 25)
    × All
        (Earned contract)
        (scan_sources contract [] ((misfit ∷ add_test ∷ []) ∷ (add_test ∷ []) ∷ []))
scan-Earned_example = scan-Earned contract ((misfit ∷ add_test ∷ []) ∷ (add_test ∷ []) ∷ [])
