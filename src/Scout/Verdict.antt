-- ===== src/Scout/Verdict.antt =====
-- `classifyVerificationCoverage` and `normalizeCandidate` of src/scout/scout-candidate.ts.
use claude_powerplant.Prelude.{
  inherited_names, ℕ, ◌+◌, String, ◌==◌, Bool, true, false, not, ◌&&◌, ◌||◌, Option, none, some,
  List, [], ◌∷◌, Dict, get, has, leb, eqb, if◌then◌else◌,
}
use mathlib.Core.List.{reverse}
use claude_powerplant.Text.{units, includes, includes_word, is_prefix}
use claude_powerplant.Scout.{
  ScoutRisk, low, medium, high, reject, ProposedCandidate, Check, ScoutContract,
  files_outside_write_ceiling, checks_not_declared,
}

pub data ScoutStatus : Type 0 where
  recommended defer rejected needs_user_decision : ScoutStatus

pub data CoverageStrength : Type 0 where
  strong weak advisory_only : CoverageStrength

-- Why a verdict was assigned
pub data Note : Type 0 where
  out_of_scope high_risk medium_risk : Note
  outside_ceiling undeclared : List String → Note

-- A candidate read from a file may lack the coverage.
pub record ScoutCandidate : Type 0 where
  pub id : List ℕ
  pub proposed : ProposedCandidate
  pub status : ScoutStatus
  pub notes : List Note
  pub verification_coverage : Option CoverageStrength

-- `toLowerCase`: other letters than these have no ASCII letter in their lower case, and are kept.
unfoldable pub lower_command : List ℕ → List ℕ
lower_command [] = []
lower_command (c ∷ s) =
    let rest = lower_command s in
    if leb b'A' c && leb c b'Z'
    then (c + 32) ∷ rest
    else if eqb c 0x212a
    then b'k' ∷ rest
    else if eqb c 0x130
    then b'i' ∷ 0x307 ∷ rest
    else c ∷ rest

abbrev pub is_suffix : List ℕ → List ℕ → Bool
is_suffix p s = is_prefix (reverse p) (reverse s)

-- `/\b(pytest|vitest|jest|mocha|tsc)\b/` or the npm commands
abbrev pub runs_tests : List ℕ → Bool
runs_tests cmd =
    includes_word cmd (units "pytest")
    || includes_word cmd (units "vitest")
    || includes_word cmd (units "jest")
    || includes_word cmd (units "mocha")
    || includes_word cmd (units "tsc")
    || includes cmd (units "npm test")
    || includes cmd (units "npm run test")
    || includes cmd (units "npm run typecheck")

unfoldable pub check_command_covers_path : String → String → Bool
check_command_covers_path command path =
    let cmd = lower_command (units command) in
    if includes cmd (units "compileall")
    then true
    else if includes cmd (units "py_compile")
    then includes (units command) (units path)
    else if runs_tests cmd
    then true
    else if includes_word cmd (units "go test")
    then is_suffix (units "_test.go") (units path)
    else false

abbrev pub first : List String → Option String
first [] = none
first (s ∷ ss) = some s

abbrev pub first_path : List String → String
first_path [] = "(unknown)"
first_path (s ∷ ss) = s

-- `allowedChecks[checkId]`, with what is read of it; a value of `Object.prototype` has no `required`.
unfoldable pub selected : Dict Check → String → Option Check
selected checks id = elim (get checks id) [
  | some check ↦ some check
  | none ↦ if has inherited_names id then some (record { command = ""; required = false }) else none
]

unfoldable pub classify_verification_coverage :
    List String → List String → Dict Check → CoverageStrength
classify_verification_coverage verification files checks = elim (first verification) [
  | none ↦ weak
  | some id ↦ if id == "" then weak else elim (selected checks id) [
    | none ↦ weak
    | some check ↦
        if not check.required
        then advisory_only
        else if check_command_covers_path check.command (first_path files)
        then strong
        else weak
  ]
]

-- `status` and `notes`
unfoldable pub judge_risk : ScoutRisk → List String → List String → ScoutStatus × List Note
judge_risk reject outside missing = (rejected, out_of_scope ∷ [])
judge_risk risk (f ∷ fs) missing = (rejected, outside_ceiling (f ∷ fs) ∷ [])
judge_risk risk [] (c ∷ cs) = (rejected, undeclared (c ∷ cs) ∷ [])
judge_risk high [] [] = (needs_user_decision, high_risk ∷ [])
judge_risk medium [] [] = (needs_user_decision, medium_risk ∷ [])
judge_risk low [] [] = (recommended, [])

unfoldable pub normalize_candidate : ProposedCandidate → ScoutContract → ScoutCandidate
normalize_candidate p contract =
    let judged =
      judge_risk p.risk (files_outside_write_ceiling p.expected_files contract.allowed_write_paths)
        (checks_not_declared p.verification contract.allowed_checks) in
    record {
      id = p.id;
      proposed = p;
      status = judged.0;
      notes = judged.1;
      verification_coverage =
          some (
            classify_verification_coverage p.verification p.expected_files contract.allowed_checks);
    }
