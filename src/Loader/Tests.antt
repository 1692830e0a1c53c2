-- ===== src/Loader/Tests.antt =====
-- Contracts that load and that do not, and the properties at inputs that meet their hypotheses.
use claude_powerplant.Prelude.{◌≡◌, refl, true, false, none, some, [], ◌∷◌, put}
use claude_powerplant.Text.{units, includes, trim, lower_all, is_line_end, is_letter}
use claude_powerplant.Ingest.Schema.{drop_prefix}
use claude_powerplant.Contracts.Tools.{is_check_id}
use claude_powerplant.Loader.{
  Item, unset, object, Value, RawPolicyYaml, RawVerifyYaml, Document, loaded, and_then, check,
  LoadedProjectContract, sanitized_copy_only,
}
use claude_powerplant.Loader.Paths.{
  replace_globs, replace_from, path_fault, assert_safe_relative_path, reject_forbidden_read_path,
  is_forbidden_read,
}
use claude_powerplant.Loader.Policy.{
  texts_of, assert_string_array, optional_array, judge_project_id, assert_safe_project_id,
  check_each, listed_paths, read_policy, load_policy_yaml,
}
use claude_powerplant.Loader.Verify.{
  read_profile, read_flag, read_entry, read_checks, some_checks, checks_of, read_verify,
  load_verify_yaml, load_project_contract,
}
use claude_powerplant.Loader.Promises.{PolicyFrom}
use claude_powerplant.Loader.Checks.{VerifyFrom}
use claude_powerplant.Loader.Safe.{load_safe}

stars_are_marked : replace_globs "src/**/*.ts" ≡ units "src/_glob_.ts"
unfolding replace_globs replace_from units
stars_are_marked = refl

keys_are_forbidden : is_forbidden_read (units "config/credentials-2.json") ≡ true
unfolding is_forbidden_read units includes lower_all drop_prefix is_line_end
keys_are_forbidden = refl

abbrev policy : RawPolicyYaml
policy = record {
  project_id = Value.text " demo ";
  include_paths = Value.array (Item.text "src/**" ∷ []);
  exclude_paths = Value.undefined;
  deny_if_present_after_copy = Value.undefined;
  allowed_read_paths = Value.array (Item.text "src/**" ∷ []);
  allowed_write_paths = Value.array (Item.text "src/*.ts" ∷ []);
}

abbrev verify : RawVerifyYaml
verify = record {
  verification_profile = Value.null_value;
  checks = Value.mapping (("test", object (some "npm test") unset) ∷ []);
}

abbrev demo : LoadedProjectContract
demo = record {
  policy = record {
    project_id = units "demo";
    include_paths = "src/**" ∷ [];
    exclude_paths = [];
    deny_if_present_after_copy = [];
    allowed_read_paths = "src/**" ∷ [];
    allowed_write_paths = "src/*.ts" ∷ [];
  };
  workspace_mode = sanitized_copy_only;
  real_project_mounted = false;
  allow_bash = false;
  allowed_checks = ("test", record { command = "npm test"; required = true }) ∷ [];
  verification_profile = none;
}

demo_loads :
    load_project_contract (Document.document policy) (Document.document verify) ≡ loaded demo
unfolding load_project_contract load_policy_yaml load_verify_yaml read_policy read_verify and_then
    check assert_safe_project_id judge_project_id assert_string_array optional_array texts_of
    listed_paths check_each assert_safe_relative_path path_fault replace_globs replace_from
    reject_forbidden_read_path is_forbidden_read read_profile checks_of read_checks read_entry
    read_flag some_checks is_check_id put units includes trim lower_all drop_prefix is_letter
demo_loads = refl

load_safe_example :
    ((doc : RawPolicyYaml) × (Document.document policy ≡ Document.document doc)
      × PolicyFrom doc demo.policy)
    × ((doc : RawVerifyYaml) × (Document.document verify ≡ Document.document doc)
        × VerifyFrom doc demo)
    × (demo.real_project_mounted ≡ false)
    × (demo.allow_bash ≡ false)
load_safe_example = load_safe (Document.document policy) (Document.document verify) demo demo_loads
