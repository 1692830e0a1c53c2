-- ===== src/Scout/Task.antt =====
-- `deriveTaskFromCandidate` of src/scout/derive-task.ts and the loop of `scanProject` in
-- src/scout/scan.ts.
use Prim.Native.String.{◌++◌ as append}
use claude_powerplant.Prelude.{
  ℕ, zero, suc, ◌+◌, ◌-◌, String, Bool, true, false, none, some, List, [], ◌∷◌, ◌++◌, map, length,
  leb, if◌then◌else◌,
}
use claude_powerplant.Text.{units, decimal}
use claude_powerplant.Scout.{
  Emitted, parse_proposed, ScoutContract, files_outside_write_ceiling, checks_not_declared,
}
use claude_powerplant.Scout.Verdict.{
  ScoutStatus, recommended, defer, rejected, needs_user_decision, Note, ScoutCandidate,
  CoverageStrength, classify_verification_coverage, normalize_candidate,
}

pub record CandidateScope : Type 0 where
  pub candidate_id : List ℕ
  pub title : String
  pub expected_files : List String
  pub verification : List String

-- A `CandidateScopeError`, or the lines of the task with the scope
pub data Derived : Type 0 where
  marked_reject : List Note → Derived
  names_outside references_undeclared : List String → Derived
  derived : List String → CandidateScope → Derived

-- `join(', ')`
abbrev pub listed : List String → String
listed [] = ""
listed (s ∷ []) = s
listed (s ∷ t ∷ ss) = append s (append ", " (listed (t ∷ ss)))

unfoldable pub goal_lines : List String → List String
goal_lines [] = []
goal_lines (g ∷ gs) = "Non-goals:" ∷ map (λ goal. append "- " goal) (g ∷ gs)

unfoldable pub task_lines : ScoutCandidate → List String
task_lines c =
    append c.proposed.title "."
    ∷ ""
    ∷ c.proposed.why_it_matters
    ∷ ""
    ∷ "Scope — do not exceed:"
    ∷ append "- Only modify these files: " (listed c.proposed.expected_files)
    ∷ goal_lines c.proposed.non_goals

abbrev pub scope_of : ScoutCandidate → CandidateScope
scope_of c = record {
  candidate_id = c.id;
  title = c.proposed.title;
  expected_files = c.proposed.expected_files;
  verification = c.proposed.verification;
}

-- The ceiling is tested again, behind the status.
unfoldable pub within_ceiling : ScoutCandidate → List String → List String → Derived
within_ceiling c (f ∷ fs) missing = names_outside (f ∷ fs)
within_ceiling c [] (id ∷ ids) = references_undeclared (id ∷ ids)
within_ceiling c [] [] = derived (task_lines c) (scope_of c)

abbrev pub is_rejected : ScoutStatus → Bool
is_rejected rejected = true
is_rejected recommended = false
is_rejected defer = false
is_rejected needs_user_decision = false

unfoldable pub derive_task_from_candidate : ScoutCandidate → ScoutContract → Derived
derive_task_from_candidate c contract =
    if is_rejected c.status
    then marked_reject c.notes
    else within_ceiling c
        (files_outside_write_ceiling c.proposed.expected_files contract.allowed_write_paths)
        (checks_not_declared c.proposed.verification contract.allowed_checks)

-- `buildFeatureTrial`, with the fields that are computed
pub record FeatureTrial : Type 0 where
  pub expected_files : List String
  pub non_goals : List String
  pub verification_coverage : CoverageStrength
  pub scope_ceiling : List String

unfoldable pub build_feature_trial : ScoutCandidate → ScoutContract → FeatureTrial
build_feature_trial c contract = record {
  expected_files = c.proposed.expected_files;
  non_goals = c.proposed.non_goals;
  verification_coverage =
      classify_verification_coverage c.proposed.verification c.proposed.expected_files
        contract.allowed_checks;
  scope_ceiling = contract.allowed_write_paths;
}

abbrev pub max_candidates : ℕ
max_candidates = 25

abbrev pub zeros : ℕ → List ℕ
zeros zero = []
zeros (suc n) = b'0' ∷ zeros n

-- `scout-${String(n).padStart(3, '0')}`
unfoldable pub scout_id : ℕ → List ℕ
scout_id n = units "scout-" ++ zeros (3 - length (decimal n)) ++ decimal n

abbrev pub listed_as : ScoutContract → List ScoutCandidate → Emitted → List ScoutCandidate
listed_as contract found emitted = elim (parse_proposed emitted) [
  | none ↦ found
  | some p ↦
      found ++ record (normalize_candidate p contract) { id = scout_id (length found + 1) } ∷ []
]

-- The loop over what one source emits
unfoldable pub take_candidates :
    ScoutContract → List ScoutCandidate → List Emitted → List ScoutCandidate
take_candidates contract found [] = found
take_candidates contract found (e ∷ es) = elim (parse_proposed e) [
  | none ↦ take_candidates contract found es
  | some p ↦
      let next = listed_as contract found e in
      let rest = take_candidates contract next es in
      if leb max_candidates (length next) then next else rest
]

-- The loop over the sources
unfoldable pub scan_sources :
    ScoutContract → List ScoutCandidate → List (List Emitted) → List ScoutCandidate
scan_sources contract found [] = found
scan_sources contract found (es ∷ sources) =
    let next = take_candidates contract found es in
    let rest = scan_sources contract next sources in
    if leb max_candidates (length next) then next else rest
