-- ===== src/Contracts/Tools.antt =====
-- src/contracts/project-tool-contracts.ts: the names, inputs and results of the five pilot tools,
-- and the authorization of paths and checks.
use claude_powerplant.Prelude.{
  ℕ, String, Bool, true, false, not, ◌&&◌, ◌||◌, Option, none, some, List, [], ◌∷◌, Dict, get, any,
  all, length, leb, eqb, is_some, ◌==◌, if◌then◌else◌,
}
use claude_powerplant.Text.{units, includes, is_letter, is_digit}
use claude_powerplant.Glob.{matches_glob}

pub data PilotToolName : Type 0 where
  list_files read_file write_file run_check finalize : PilotToolName

-- `isKnownPilotToolName`, with the name that it narrows to.
unfoldable pub known_tool : String → Option PilotToolName
known_tool name =
    if name == "project_list_files"
    then some list_files
    else if name == "project_read_file"
    then some read_file
    else if name == "project_write_file"
    then some write_file
    else if name == "project_run_check"
    then some run_check
    else if name == "project_finalize"
    then some finalize
    else none

abbrev pub tool_name : PilotToolName → String
tool_name list_files = "project_list_files"
tool_name read_file = "project_read_file"
tool_name write_file = "project_write_file"
tool_name run_check = "project_run_check"
tool_name finalize = "project_finalize"

-- A tool's input: an object's fields, each a text or some other value, or no object at all.
pub data Value : Type 0 where
  text : String → Value
  other : Value

pub data Input : Type 0 where
  fields : Dict Value → Input
  no_object : Input

-- The text under a key, as `z.string()` reads it.
abbrev pub text_at : Dict Value → String → Option String
text_at m k = elim (get m k) [ none ↦ none | some v ↦ elim v [ text s ↦ some s | other ↦ none ] ]

-- `.strict()`: no key but the schema's.
abbrev pub only : List String → Dict Value → Bool
only names [] = true
only names ((k, v) ∷ m) = any (λ n. n == k) names && only names m

-- `z.string().min(lo).max(hi)`, in code units
unfoldable pub in_length : ℕ → ℕ → String → Bool
in_length lo hi s = leb lo (length (units s)) && leb (length (units s)) hi

-- `path.isAbsolute` on POSIX
abbrev starts_with_slash : List ℕ → Bool
starts_with_slash [] = false
starts_with_slash (c ∷ s) = eqb c b'/'

unfoldable pub is_safe_relative_path : String → Bool
is_safe_relative_path p =
    not (leb (length (units p)) 0)
    && not (starts_with_slash (units p))
    && not (includes (units p) (b'.' ∷ b'.' ∷ []))
    && not (includes (units p) (0 ∷ []))

-- `/^[a-zA-Z][a-zA-Z0-9_-]*$/`
unfoldable pub is_check_id : List ℕ → Bool
is_check_id [] = false
is_check_id (c ∷ s) =
    is_letter c && all (λ d. is_letter d || is_digit d || eqb d b'_' || eqb d b'-') s

abbrev pub max_content_length : ℕ
max_content_length = 20000

unfoldable pub valid_path : String → Bool
valid_path p = in_length 1 500 p && is_safe_relative_path p

-- `validateToolInput`, one function for each schema; `none` is the error that `parseOrThrow` throws.
unfoldable pub parse_list_files : Input → Option (Unit {0})
parse_list_files (fields m) = if only [] m then some tt else none
parse_list_files no_object = none

abbrev accept {ℓ} : {A : Type ℓ} → Bool → A → Option A
accept ok a = if ok then some a else none

unfoldable pub parse_read_file : Input → Option String
parse_read_file no_object = none
parse_read_file (fields m) = elim (text_at m "path") [
  | none ↦ none
  | some p ↦ accept (only ("path" ∷ []) m && valid_path p) p
]

unfoldable pub parse_write_file : Input → Option (String × String)
parse_write_file no_object = none
parse_write_file (fields m) = elim (text_at m "path") [
  | none ↦ none
  | some p ↦ elim (text_at m "content") [
    | none ↦ none
    | some c ↦
        accept
          (only ("path" ∷ "content" ∷ []) m && valid_path p && in_length 0 max_content_length c)
          (p, c)
  ]
]

unfoldable pub parse_run_check : Input → Option String
parse_run_check no_object = none
parse_run_check (fields m) = elim (text_at m "check") [
  | none ↦ none
  | some c ↦ accept (only ("check" ∷ []) m && in_length 1 100 c && is_check_id (units c)) c
]

unfoldable pub parse_finalize : Input → Option String
parse_finalize no_object = none
parse_finalize (fields m) = elim (text_at m "summary") [
  | none ↦ none
  | some s ↦ accept (only ("summary" ∷ []) m && in_length 1 2000 s) s
]

unfoldable pub is_read_path_authorized : String → List String → Bool
is_read_path_authorized path allowed = any (matches_glob path) allowed

unfoldable pub is_write_path_authorized : String → List String → Bool
is_write_path_authorized path allowed = any (matches_glob path) allowed

pub record CheckEntry : Type 0 where
  pub command : String
  pub required : Bool

-- `hasOwnProperty`
unfoldable pub is_check_authorized : String → Dict CheckEntry → Bool
is_check_authorized id checks = is_some (get checks id)
