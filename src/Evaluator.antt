-- ===== src/Evaluator.antt =====
-- The evaluators of a preflight: src/preflight/oracle-bundle.ts, src/preflight/capsule-evaluator.ts and
-- src/preflight/oracle-evaluator.ts. Texts are sequences of UTF-16 code units. The digest and JSON are
-- parameters; what Docker and the files give is a value.
pub mod Spawn
pub mod Capsule
pub mod Oracle
pub mod Trust
pub mod Channels
pub mod Verdict
pub mod Reports
pub mod Fixture
mod Tests
use claude_powerplant.Prelude.{
  ℕ, String, ◌==◌, Bool, true, false, not, Option, none, some, List, [], ◌∷◌, if◌then◌else◌,
}

-- What `JSON.parse` gives: `null`, or a value with the text of its `status`, if it has one.
pub data Json : Type 0 where
  null : Json
  value : Option String → Json

pub data OracleStatus : Type 0 where
  pass fail error timeout capped : OracleStatus

-- `s === 'PASS' ? 'PASS' : s === 'FAIL' ? 'FAIL' : 'ERROR'`
unfoldable pub status_of : Option String → OracleStatus
status_of none = error
status_of (some s) = if s == "PASS" then pass else if s == "FAIL" then fail else error

-- A receipt of a bundle, with what the evaluators read.
pub record OracleBundle : Type 0 where
  pub oracle_sha256 : String
  pub bundled_oracle_path : String

-- `createOracleBundle`: the hash is that of the copy.
unfoldable pub create_oracle_bundle : (List ℕ → String) → String → List ℕ → OracleBundle
create_oracle_bundle sha path copy = record { oracle_sha256 = sha copy; bundled_oracle_path = path }

-- `verifyOracleBundleIntegrity`
unfoldable pub is_tampered : (List ℕ → String) → List ℕ → String → Bool
is_tampered sha content expected = not (sha content == expected)
