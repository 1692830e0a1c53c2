-- ===== src/Scout/Scan.antt =====
-- What the loop of `scanProject` in src/scout/scan.ts lists, against the proposals of its sources.
use mathlib.Core.Path.{subst}
use claude_powerplant.Prelude.{
  ℕ, zero, suc, ◌+◌, ◌≤◌, ◌≡◌, ◌≢◌, refl, sym, ◌∙◌, ◌↔◌, String, List, [], ◌∷◌, length, arith, All,
}
use claude_powerplant.Scout.{
  ScoutRisk, low, medium, high, reject, Emitted, ProposedCandidate, ScoutContract,
  files_outside_write_ceiling, checks_not_declared,
}
use claude_powerplant.Scout.Verdict.{
  recommended, rejected, ScoutCandidate, judge_risk, normalize_candidate,
}
use claude_powerplant.Scout.Task.{CandidateScope, derived, derive_task_from_candidate, scan_sources}
use claude_powerplant.Scout.Within.{Within, Within-iff}
use claude_powerplant.Scout.Ceiling.{derive_iff, recommended_iff}
use claude_powerplant.Scout.Listing.{
  take, all_emitted, proposals, as_listed, numbered, scan_sources-all, take_candidates-numbered,
}

module _ (contract : ScoutContract) where
  -- A verdict that a proposal can be run or not, and whether it can
  abbrev pub Earned : ScoutCandidate → Type 0
  Earned c =
      (((lines : List String) × ((scope : CandidateScope) × (derive_task_from_candidate c contract
              ≡ derived lines scope)))
        ↔ (c.status ≢ rejected))
      × ((c.status ≡ recommended) ↔ ((c.proposed.risk ≡ low) × Within contract c.proposed))

  judge_risk-Within :
      (risk : ScoutRisk) (outside missing : List String)
      → (judge_risk risk outside missing).0 ≢ rejected
      → (outside ≡ []) × (missing ≡ [])
  unfolding judge_risk
  judge_risk-Within reject outside missing let_in = absurd (let_in refl)
  judge_risk-Within low (f ∷ fs) missing let_in = absurd (let_in refl)
  judge_risk-Within medium (f ∷ fs) missing let_in = absurd (let_in refl)
  judge_risk-Within high (f ∷ fs) missing let_in = absurd (let_in refl)
  judge_risk-Within low [] (c ∷ cs) let_in = absurd (let_in refl)
  judge_risk-Within medium [] (c ∷ cs) let_in = absurd (let_in refl)
  judge_risk-Within high [] (c ∷ cs) let_in = absurd (let_in refl)
  judge_risk-Within low [] [] let_in = (refl, refl)
  judge_risk-Within medium [] [] let_in = (refl, refl)
  judge_risk-Within high [] [] let_in = (refl, refl)

  as_listed-Earned : (n : ℕ) (p : ProposedCandidate) → Earned (as_listed contract n p)
  unfolding normalize_candidate
  as_listed-Earned n p =
      let c = as_listed contract n p in
      let outside = files_outside_write_ceiling p.expected_files contract.allowed_write_paths in
      let missing = checks_not_declared p.verification contract.allowed_checks in
      let runs = derive_iff contract c in
      (
        (
          (λ h. (runs.0 h).0),
          (λ let_in. runs.1 (
            let_in,
            (Within-iff contract p).0 (judge_risk-Within p.risk outside missing let_in),
          )),
        ),
        recommended_iff contract p,
      )

  numbered-Earned : (n : ℕ) (ps : List ProposedCandidate) → All Earned (numbered contract n ps)
  numbered-Earned n [] = tt
  numbered-Earned n (p ∷ ps) = (as_listed-Earned n p, numbered-Earned (n + 1) ps)

  numbered-bounded :
      (k n : ℕ) (ps : List ProposedCandidate) → length (numbered contract n (take k ps)) ≤ k
  numbered-bounded zero n ps = omega arith
  numbered-bounded (suc k) n [] = omega arith
  numbered-bounded (suc k) n (p ∷ ps) = omega (arith, numbered-bounded k (n + 1) ps)

-- However many sources there are, a scan lists the first 25 of their proposals that fit the schema, in
-- order, numbered from 1 on, each with the verdict of the contract; so it lists 25 at most. A listed
-- candidate can be turned into a task under the same contract exactly if it is not rejected, and it
-- is recommended exactly if its risk is low and it is within the ceiling of the contract.
pub scan-Earned :
    (contract : ScoutContract) (sources : List (List Emitted))
    → (scan_sources contract [] sources
        ≡ numbered contract 0 (take 25 (proposals (all_emitted sources))))
      × (length (scan_sources contract [] sources) ≤ 25)
      × All (Earned contract) (scan_sources contract [] sources)
scan-Earned contract sources =
    let ps = take 25 (proposals (all_emitted sources)) in
    let same : scan_sources contract [] sources ≡ numbered contract 0 ps =
      scan_sources-all contract [] sources (ground arith)
      ∙ take_candidates-numbered contract [] 24 (all_emitted sources) (ground arith) in
    let bounded = numbered-bounded contract 25 0 (proposals (all_emitted sources)) in
    (
      same,
      subst (λ l. length l ≤ 25) (sym same) bounded,
      subst (λ l. All (Earned contract) l) (sym same) (numbered-Earned contract 0 ps),
    )
