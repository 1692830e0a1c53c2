-- ===== src/ToolPolicy.antt =====
-- src/preflight/tool-policy.ts: which tool names a managed session may use.
pub mod Agreement
mod Tests
use claude_powerplant.Prelude.{
  String, Bool, true, false, not, ◌&&◌, ◌||◌, Option, none, some, List, [], ◌∷◌, ◌++◌, Dict, get,
  has, inherited_names, is_some, if◌then◌else◌,
}
use claude_powerplant.Text.{units, includes, is_prefix}
use claude_powerplant.Contracts.Tools.{known_tool}

-- The last is no category of the source, but a member of `Object.prototype` that stands in for one.
pub data ToolCategory : Type 0 where
  broker_custom_tool builtin_write builtin_bash builtin_credentials_read : ToolCategory
  builtin_network builtin_state_path_access unknown_builtin : ToolCategory
  inherited_member : ToolCategory

pub data PolicyDecision : Type 0 where
  allow deny : PolicyDecision

-- The reason is a text made from the category and the name.
pub record ToolPolicyResult : Type 0 where
  pub decision : PolicyDecision
  pub protocol_stop : Bool
  pub category : ToolCategory
  pub attempted_tool : String
  pub denied_before_execution : Bool
  pub no_action_taken : Bool

abbrev pub builtin_tool_category_map : Dict ToolCategory
builtin_tool_category_map =
    ("Write", builtin_write)
    ∷ ("Edit", builtin_write)
    ∷ ("Bash", builtin_bash)
    ∷ ("Read", unknown_builtin)
    ∷ ("WebFetch", builtin_network)
    ∷ ("WebSearch", builtin_network)
    ∷ ("CredentialRead", builtin_credentials_read)
    ∷ ("EnvRead", builtin_credentials_read)
    ∷ ("SecretRead", builtin_credentials_read)
    ∷ []

-- `/\.powerplant[\\/]state/` or `/powerplant[\\/]state/`
unfoldable pub names_state_path : String → Bool
names_state_path name =
    includes (units name) (units ".powerplant/state")
    || includes (units name) (units ".powerplant" ++ (b'\\' ∷ units "state"))
    || includes (units name) (units "powerplant/state")
    || includes (units name) (units "powerplant" ++ (b'\\' ∷ units "state"))

-- The table is a plain object, so the lookup of an inherited name finds that member.
unfoldable pub classify_tool : String → ToolCategory
classify_tool name = elim (known_tool name) [
  | some t ↦ broker_custom_tool
  | none ↦ elim (get builtin_tool_category_map name) [
    | some c ↦ c
    | none ↦
        if has inherited_names name
        then inherited_member
        else if names_state_path name
        then builtin_state_path_access
        else unknown_builtin
  ]
]

-- `category === 'broker_custom_tool'`
abbrev pub is_broker_tool : ToolCategory → Bool
is_broker_tool broker_custom_tool = true
is_broker_tool _ = false

unfoldable pub evaluate_tool_request : String → ToolPolicyResult
evaluate_tool_request name =
    let category = classify_tool name in
    if is_broker_tool category
    then record {
      decision = allow;
      protocol_stop = false;
      category = category;
      attempted_tool = name;
      denied_before_execution = true;
      no_action_taken = false;
    }
    else record {
      decision = deny;
      protocol_stop = true;
      category = category;
      attempted_tool = name;
      denied_before_execution = true;
      no_action_taken = true;
    }

abbrev pub sprint4a_runtime_base : String
sprint4a_runtime_base = "/tmp/powerplant-sprint4a"

-- `isStatPathBypassAttempt`
unfoldable pub is_stat_path_bypass_attempt : String → Bool
is_stat_path_bypass_attempt path =
    includes (units path) (units ".powerplant/state")
    || (not (is_prefix (units sprint4a_runtime_base ++ b'/' ∷ []) (units path))
        && includes (units path) (units "powerplant"))
