-- ===== src/Scout.antt =====
-- Scout, which proposes tasks: src/scout/scout-candidate.ts, src/scout/derive-task.ts and the loop of
-- src/scout/scan.ts. Here is what a source proposes, the schema, and the ceiling of the contract.
pub mod Verdict
pub mod Task
pub mod Within
pub mod Ceiling
pub mod Listing
pub mod Scan
mod Tests
use claude_powerplant.Prelude.{
  inherited_names, ℕ, ◌+◌, String, ◌==◌, Bool, true, false, not, ◌&&◌, ◌||◌, Option, none, some,
  List, [], ◌∷◌, ◌++◌, Dict, get, has, any, all, keep, length, leb, eqb, is_some, if◌then◌else◌,
}
use claude_powerplant.Text.{units, is_digit}
use claude_powerplant.Ingest.Schema.{drop_prefix}
use claude_powerplant.Glob.{matches_glob}

abbrev pub scout_domains : List String
scout_domains =
    "cli-affordance" ∷ "test-gap" ∷ "config-validation" ∷ "error-message" ∷ "docs-mismatch"
    ∷ "policy-exclusion" ∷ "verification-contract" ∷ "artifact-safety" ∷ "developer-workflow" ∷ []

pub data ScoutRisk : Type 0 where
  low medium high reject : ScoutRisk

-- `z.enum(SCOUT_RISKS)`
unfoldable pub risk_of : String → Option ScoutRisk
risk_of s =
    if s == "LOW"
    then some low
    else if s == "MEDIUM"
    then some medium
    else if s == "HIGH"
    then some high
    else if s == "REJECT"
    then some reject
    else none

-- What a source emits: a value that lacks a field or has one of another type, or one with the fields.
pub record RawCandidate : Type 0 where
  pub id : List ℕ
  pub title : String
  pub domain : String
  pub why_it_matters : String
  pub repo_evidence : List String
  pub risk : String
  pub expected_files : List String
  pub verification : List String
  pub non_goals : List String

pub data Emitted : Type 0 where
  misfit : Emitted
  shaped : RawCandidate → Emitted

pub record ProposedCandidate : Type 0 where
  pub id : List ℕ
  pub title : String
  pub domain : String
  pub why_it_matters : String
  pub repo_evidence : List String
  pub risk : ScoutRisk
  pub expected_files : List String
  pub verification : List String
  pub non_goals : List String

-- `/^scout-\d{3,}$/`
unfoldable pub is_scout_id : List ℕ → Bool
is_scout_id id = elim (drop_prefix (units "scout-") id) [
  | none ↦ false
  | some digits ↦ leb 3 (length digits) && all is_digit digits
]

abbrev pub filled_text : String → Bool
filled_text s = not (eqb (length (units s)) 0)

-- `z.array(z.string().min(1)).min(1)`
abbrev pub filled_texts : List String → Bool
filled_texts ss = not (eqb (length ss) 0) && all filled_text ss

-- `ProposedCandidateSchema.safeParse`
unfoldable pub parse_proposed : Emitted → Option ProposedCandidate
parse_proposed misfit = none
parse_proposed (shaped r) = elim (risk_of r.risk) [
  | none ↦ none
  | some risk ↦
      if is_scout_id r.id
        && filled_text r.title
        && leb (length (units r.title)) 120
        && has scout_domains r.domain
        && filled_text r.why_it_matters
        && filled_texts r.repo_evidence
        && filled_texts r.expected_files
        && filled_texts r.verification
      then some (record {
        id = r.id;
        title = r.title;
        domain = r.domain;
        why_it_matters = r.why_it_matters;
        repo_evidence = r.repo_evidence;
        risk = risk;
        expected_files = r.expected_files;
        verification = r.verification;
        non_goals = r.non_goals;
      })
      else none
]

pub record Check : Type 0 where
  pub command : String
  pub required : Bool

-- The part of a loaded contract that Scout reads
pub record ScoutContract : Type 0 where
  pub allowed_write_paths : List String
  pub allowed_checks : Dict Check

-- `allowedWritePaths.some(glob => matchesGlob(file, glob))`
unfoldable pub covered : List String → String → Bool
covered globs file = any (λ glob. matches_glob file glob) globs

-- `filesOutsideWriteCeiling`
unfoldable pub files_outside_write_ceiling : List String → List String → List String
files_outside_write_ceiling files globs = keep (λ file. not (covered globs file)) files

-- `checkId in allowedChecks`
unfoldable pub declared : Dict Check → String → Bool
declared checks id = is_some (get checks id) || has inherited_names id

-- `checksNotDeclared`
unfoldable pub checks_not_declared : List String → Dict Check → List String
checks_not_declared ids checks = keep (λ id. not (declared checks id)) ids
