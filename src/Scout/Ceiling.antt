-- ===== src/Scout/Ceiling.antt =====
-- The ceiling of a contract, as `normalizeCandidate` and `deriveTaskFromCandidate` apply it.
use claude_powerplant.Prelude.{
  ◌≡◌, ◌≢◌, refl, ◌↔◌, inl, inr, ◌⊎◌, String, false, List, [], ◌∷◌, arith, Bool-cases,
}
use claude_powerplant.Scout.{
  ScoutRisk, low, medium, high, reject, ProposedCandidate, ScoutContract,
  files_outside_write_ceiling, checks_not_declared,
}
use claude_powerplant.Scout.Verdict.{
  ScoutStatus, recommended, defer, rejected, needs_user_decision, ScoutCandidate, judge_risk,
  normalize_candidate,
}
use claude_powerplant.Scout.Task.{
  CandidateScope, derived, within_ceiling, is_rejected, derive_task_from_candidate, scope_of,
  task_lines,
}
use claude_powerplant.Scout.Within.{Within, Within-iff}

within_ceiling_iff :
    (c : ScoutCandidate) (outside missing : List String)
    → ((lines : List String) × ((scope : CandidateScope) × (within_ceiling c outside missing
            ≡ derived lines scope)))
      ↔ ((outside ≡ []) × (missing ≡ []))
unfolding within_ceiling
within_ceiling_iff c [] [] = ((λ e. (refl, refl)), (λ h. (task_lines c, (scope_of c, refl))))
within_ceiling_iff c [] (id ∷ ids) =
    ((λ e. absurd (ground (arith, e.1.1))), (λ h. absurd (ground (arith, h.1))))
within_ceiling_iff c (f ∷ fs) missing =
    ((λ e. absurd (ground (arith, e.1.1))), (λ h. absurd (ground (arith, h.0))))

is_rejected_iff : (s : ScoutStatus) → (is_rejected s ≡ false) ↔ (s ≢ rejected)
is_rejected_iff recommended = ground arith
is_rejected_iff defer = ground arith
is_rejected_iff rejected = ((λ e. absurd (ground (arith, e))), (λ h. absurd (h refl)))
is_rejected_iff needs_user_decision = ground arith

pub derive_iff :
    (contract : ScoutContract) (c : ScoutCandidate)
    → ((lines : List String) × ((scope : CandidateScope) × (derive_task_from_candidate c contract
            ≡ derived lines scope)))
      ↔ ((c.status ≢ rejected) × Within contract c.proposed)
unfolding derive_task_from_candidate
derive_iff contract c =
    let outside =
      files_outside_write_ceiling c.proposed.expected_files contract.allowed_write_paths in
    let missing = checks_not_declared c.proposed.verification contract.allowed_checks in
    let marked = is_rejected_iff c.status in
    let within = Within-iff contract c.proposed in
    let built = within_ceiling_iff c outside missing in
    elim (Bool-cases (is_rejected c.status)) [
      | inl bad ↦ (
        (λ e. absurd (ground (arith, e.1.1, bad))),
        (λ h. absurd (ground (arith, marked.1 h.0, bad))),
      )
      | inr good ↦ (
        (λ e.
            let (lines, (scope, same)) = e in
            let inner : within_ceiling c outside missing ≡ derived lines scope =
              ground (arith, same, good) in
            (marked.0 good, within.0 (built.0 (lines, (scope, inner))))),
        (λ h.
            let (lines, (scope, same)) = built.1 (within.1 h.1) in
            (lines, (scope, ground (arith, same, good)))),
      )
    ]

within_ceiling-scope :
    (c : ScoutCandidate) (outside missing : List String) (lines : List String)
    (scope : CandidateScope)
    → within_ceiling c outside missing ≡ derived lines scope
    → scope ≡ scope_of c
unfolding within_ceiling
within_ceiling-scope c [] [] lines scope e = ground (arith, e)
within_ceiling-scope c [] (id ∷ ids) lines scope e = absurd (ground (arith, e))
within_ceiling-scope c (f ∷ fs) missing lines scope e = absurd (ground (arith, e))

derive_scope :
    (contract : ScoutContract) (c : ScoutCandidate) (lines : List String) (scope : CandidateScope)
    → derive_task_from_candidate c contract ≡ derived lines scope
    → scope ≡ scope_of c
unfolding derive_task_from_candidate
derive_scope contract c lines scope e =
    let outside =
      files_outside_write_ceiling c.proposed.expected_files contract.allowed_write_paths in
    let missing = checks_not_declared c.proposed.verification contract.allowed_checks in
    elim (Bool-cases (is_rejected c.status)) [
      | inl bad ↦ absurd (ground (arith, e, bad))
      | inr good ↦ within_ceiling-scope c outside missing lines scope (ground (arith, e, good))
    ]

judge_risk-recommended :
    (risk : ScoutRisk) (outside missing : List String)
    → ((judge_risk risk outside missing).0 ≡ recommended)
      ↔ ((risk ≡ low) × (outside ≡ []) × (missing ≡ []))
unfolding judge_risk
judge_risk-recommended reject outside missing = ground arith
judge_risk-recommended low (f ∷ fs) missing = ground arith
judge_risk-recommended medium (f ∷ fs) missing = ground arith
judge_risk-recommended high (f ∷ fs) missing = ground arith
judge_risk-recommended low [] (c ∷ cs) = ground arith
judge_risk-recommended medium [] (c ∷ cs) = ground arith
judge_risk-recommended high [] (c ∷ cs) = ground arith
judge_risk-recommended low [] [] = ground arith
judge_risk-recommended medium [] [] = ground arith
judge_risk-recommended high [] [] = ground arith

neither : {A B : Type 0} → ¬ A → B → A ⊎ ¬ B → ⊥
neither no_a b (inl a) = no_a a
neither no_a b (inr no_b) = no_b b

judge_risk-rejected :
    (risk : ScoutRisk) (outside missing : List String)
    → ((judge_risk risk outside missing).0 ≡ rejected)
      ↔ ((risk ≡ reject) ⊎ ¬ ((outside ≡ []) × (missing ≡ [])))
unfolding judge_risk
judge_risk-rejected reject outside missing = ((λ e. inl refl), (λ h. refl))
judge_risk-rejected low (f ∷ fs) missing = ((λ e. inr (λ h. ground (arith, h.0))), (λ h. refl))
judge_risk-rejected medium (f ∷ fs) missing = ((λ e. inr (λ h. ground (arith, h.0))), (λ h. refl))
judge_risk-rejected high (f ∷ fs) missing = ((λ e. inr (λ h. ground (arith, h.0))), (λ h. refl))
judge_risk-rejected low [] (c ∷ cs) = ((λ e. inr (λ h. ground (arith, h.1))), (λ h. refl))
judge_risk-rejected medium [] (c ∷ cs) = ((λ e. inr (λ h. ground (arith, h.1))), (λ h. refl))
judge_risk-rejected high [] (c ∷ cs) = ((λ e. inr (λ h. ground (arith, h.1))), (λ h. refl))
judge_risk-rejected low [] [] = (
  (λ e. absurd (ground (arith, e))),
  (λ h. absurd (neither (λ e. ground (arith, e)) (refl, refl) h)),
)
judge_risk-rejected medium [] [] = (
  (λ e. absurd (ground (arith, e))),
  (λ h. absurd (neither (λ e. ground (arith, e)) (refl, refl) h)),
)
judge_risk-rejected high [] [] = (
  (λ e. absurd (ground (arith, e))),
  (λ h. absurd (neither (λ e. ground (arith, e)) (refl, refl) h)),
)

pub recommended_iff :
    (contract : ScoutContract) (p : ProposedCandidate)
    → ((normalize_candidate p contract).status ≡ recommended) ↔ ((p.risk ≡ low) × Within contract p)
unfolding normalize_candidate
recommended_iff contract p =
    let outside = files_outside_write_ceiling p.expected_files contract.allowed_write_paths in
    let missing = checks_not_declared p.verification contract.allowed_checks in
    let judged = judge_risk-recommended p.risk outside missing in
    let within = Within-iff contract p in
    (
      (λ e. let h = judged.0 e in (h.0, within.0 (h.1, h.2))),
      (λ h. let e = within.1 h.1 in judged.1 (h.0, e.0, e.1)),
    )

rejected_iff :
    (contract : ScoutContract) (p : ProposedCandidate)
    → ((normalize_candidate p contract).status ≡ rejected)
      ↔ ((p.risk ≡ reject) ⊎ ¬ Within contract p)
unfolding normalize_candidate
rejected_iff contract p =
    let outside = files_outside_write_ceiling p.expected_files contract.allowed_write_paths in
    let missing = checks_not_declared p.verification contract.allowed_checks in
    let judged = judge_risk-rejected p.risk outside missing in
    let within = Within-iff contract p in
    (
      (λ e. elim (judged.0 e) [ inl bad ↦ inl bad | inr over ↦ inr (λ h. over (within.1 h)) ]),
      (λ h. elim h [
        | inl bad ↦ judged.1 (inl bad)
        | inr over ↦ judged.1 (inr (λ h. over (within.0 h)))
      ]),
    )

-- A candidate is turned into a task exactly if its status is not `REJECT`, each of its files is matched by
-- an allowed write path, and each of its checks is declared by the contract or has the name of a
-- member that every object has; the scope is then the candidate's own. The same holds of the
-- status that Scout gives: a proposal is recommended exactly if its risk is low and it is within the
-- ceiling, and it is rejected exactly if its source says so or it is not within the ceiling.
pub runnable_iff :
    (contract : ScoutContract)
    → ((c : ScoutCandidate)
        → (((lines : List String) × ((scope : CandidateScope) × (derive_task_from_candidate c
                    contract
                  ≡ derived lines scope)))
            ↔ ((c.status ≢ rejected) × Within contract c.proposed))
          × ((lines : List String) (scope : CandidateScope)
              → derive_task_from_candidate c contract ≡ derived lines scope
              → scope ≡ scope_of c))
      × ((p : ProposedCandidate)
          → (((normalize_candidate p contract).status ≡ recommended)
              ↔ ((p.risk ≡ low) × Within contract p))
            × (((normalize_candidate p contract).status ≡ rejected)
                ↔ ((p.risk ≡ reject) ⊎ ¬ Within contract p)))
runnable_iff contract = (
  (λ c. (derive_iff contract c, derive_scope contract c)),
  (λ p. (recommended_iff contract p, rejected_iff contract p)),
)
