-- ===== src/Loader.antt =====
-- The loading of a project's contract: src/projects/load-project-contract.ts. What the YAML library
-- makes of a file is a value: nothing, no mapping, or the fields that are read.
pub mod Paths
pub mod Policy
pub mod Verify
pub mod Globs
pub mod Arrays
pub mod Promises
pub mod Checks
pub mod Safe
mod Tests
use claude_powerplant.Prelude.{
  ℕ, String, Bool, true, false, Option, none, some, List, [], ◌∷◌, Dict, if◌then◌else◌,
}
use claude_powerplant.Contracts.Tools.{CheckEntry}

-- An item of an array
pub data Item : Type 0 where
  text : String → Item
  no_text : Item

-- `required` of a check
pub data Flag : Type 0 where
  unset no_boolean : Flag
  set : Bool → Flag

-- A check: its command, if that is a text, and its flag; or a value that is no mapping
pub data Entry : Type 0 where
  no_object : Entry
  object : Option String → Flag → Entry

-- The value of a field. A mapping has its entries in the order of `Object.entries`.
pub data Value : Type 0 where
  undefined null_value scalar date : Value
  text : String → Value
  array : List Item → Value
  mapping : Dict Entry → Value

pub record RawPolicyYaml : Type 0 where
  pub project_id : Value
  pub include_paths : Value
  pub exclude_paths : Value
  pub deny_if_present_after_copy : Value
  pub allowed_read_paths : Value
  pub allowed_write_paths : Value

pub record RawVerifyYaml : Type 0 where
  pub verification_profile : Value
  pub checks : Value

-- A file of the contract
pub data Document {ℓ} (A : Type ℓ) : Type ℓ where
  missing unparsable no_mapping : Document A
  document : A → Document A

pub data PathFault : Type 0 where
  empty_path absolute traversal null_byte : PathFault

-- What the messages of the errors tell apart
pub data ContractError : Type 0 where
  no_policy no_verify policy_unparsable policy_no_mapping verify_unparsable : ContractError
  verify_no_mapping id_empty id_forbidden id_traversal profile_empty : ContractError
  checks_no_mapping no_checks : ContractError
  profile_malformed : String → ContractError
  not_array not_texts empty_list : String → ContractError
  unsafe : String → PathFault → ContractError
  forbidden_read : String → ContractError
  bad_check_id check_no_object no_command flag_no_boolean : String → ContractError

pub data Loading {ℓ} (A : Type ℓ) : Type ℓ where
  failed : ContractError → Loading A
  loaded : A → Loading A

unfoldable pub and_then {ℓ} : {A B : Type ℓ} → Loading A → (A → Loading B) → Loading B
and_then (failed e) f = failed e
and_then (loaded a) f = f a

-- `if (!ok) throw …`
unfoldable pub check : Bool → ContractError → Loading (Unit {0})
check ok e = if ok then loaded tt else failed e

pub record LoadedPolicy : Type 0 where
  pub project_id : List ℕ
  pub include_paths : List String
  pub exclude_paths : List String
  pub deny_if_present_after_copy : List String
  pub allowed_read_paths : List String
  pub allowed_write_paths : List String

pub data WorkspaceMode : Type 0 where
  sanitized_copy_only : WorkspaceMode

pub record LoadedProjectContract : Type 0 where
  pub policy : LoadedPolicy
  pub workspace_mode : WorkspaceMode
  pub real_project_mounted : Bool
  pub allow_bash : Bool
  pub allowed_checks : Dict CheckEntry
  pub verification_profile : Option (List ℕ)
