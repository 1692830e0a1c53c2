-- ===== src/Loader/Verify.antt =====
-- `loadVerifyYaml` and `loadProjectContract` of src/projects/load-project-contract.ts.
use claude_powerplant.Prelude.{
  ℕ, String, Bool, true, false, not, Option, none, some, List, [], ◌∷◌, Dict, put, eqb, length,
  if◌then◌else◌,
}
use claude_powerplant.Text.{units, trim}
use claude_powerplant.Contracts.Tools.{CheckEntry, is_check_id}
use claude_powerplant.Loader.{
  Flag, unset, no_boolean, set, Entry, no_object, object, Value, RawPolicyYaml, RawVerifyYaml,
  Document, no_policy, no_verify, verify_unparsable, verify_no_mapping, profile_empty,
  profile_malformed, checks_no_mapping, no_checks, bad_check_id, check_no_object, no_command,
  flag_no_boolean, Loading, failed, loaded, and_then, sanitized_copy_only, LoadedProjectContract,
}
use claude_powerplant.Loader.Policy.{load_policy_yaml}

unfoldable pub named_profile : String → Loading (Option (List ℕ))
named_profile s =
    if eqb (length (trim (units s))) 0
    then failed profile_empty
    else if not (is_check_id (trim (units s)))
    then failed (profile_malformed s)
    else loaded (some (trim (units s)))

unfoldable pub read_profile : Value → Loading (Option (List ℕ))
read_profile Value.undefined = loaded none
read_profile Value.null_value = loaded none
read_profile (Value.text s) = named_profile s
read_profile Value.scalar = failed profile_empty
read_profile Value.date = failed profile_empty
read_profile (Value.array is) = failed profile_empty
read_profile (Value.mapping m) = failed profile_empty

unfoldable pub read_flag : String → Flag → Loading Bool
read_flag id unset = loaded true
read_flag id (set b) = loaded b
read_flag id no_boolean = failed (flag_no_boolean id)

unfoldable pub read_entry : String → Entry → Loading CheckEntry
read_entry id no_object = failed (check_no_object id)
read_entry id (object none flag) = failed (no_command id)
read_entry id (object (some command) flag) =
    if eqb (length (trim (units command))) 0
    then failed (no_command id)
    else and_then (read_flag id flag)
        (λ required. loaded (record { command = command; required = required }))

-- The loop over the entries; `checks` is the table so far.
unfoldable pub read_checks : Dict CheckEntry → Dict Entry → Loading (Dict CheckEntry)
read_checks checks [] = loaded checks
read_checks checks ((id, entry) ∷ m) =
    if not (is_check_id (units id))
    then failed (bad_check_id id)
    else and_then (read_entry id entry) (λ e. read_checks (put id e checks) m)

unfoldable pub some_checks : Dict CheckEntry → Loading (Dict CheckEntry)
some_checks [] = failed no_checks
some_checks (c ∷ checks) = loaded (c ∷ checks)

unfoldable pub checks_of : Value → Loading (Dict CheckEntry)
checks_of Value.undefined = failed checks_no_mapping
checks_of Value.null_value = failed checks_no_mapping
checks_of Value.scalar = failed checks_no_mapping
checks_of (Value.text s) = failed checks_no_mapping
checks_of (Value.array is) = failed checks_no_mapping
checks_of Value.date = failed no_checks
checks_of (Value.mapping m) = and_then (read_checks [] m) some_checks

-- `checks` and `verificationProfile`
unfoldable pub read_verify : RawVerifyYaml → Loading (Dict CheckEntry × Option (List ℕ))
read_verify doc =
    and_then (read_profile doc.verification_profile)
      (λ profile. and_then (checks_of doc.checks) (λ checks. loaded (checks, profile)))

unfoldable pub load_verify_yaml :
    Document RawVerifyYaml → Loading (Dict CheckEntry × Option (List ℕ))
load_verify_yaml Document.missing = failed no_verify
load_verify_yaml Document.unparsable = failed verify_unparsable
load_verify_yaml Document.no_mapping = failed verify_no_mapping
load_verify_yaml (Document.document doc) = read_verify doc

abbrev pub is_missing {ℓ} : {A : Type ℓ} → Document A → Bool
is_missing Document.missing = true
is_missing Document.unparsable = false
is_missing Document.no_mapping = false
is_missing (Document.document doc) = false

-- That a file is missing is told before either is read.
unfoldable pub load_project_contract :
    Document RawPolicyYaml → Document RawVerifyYaml → Loading LoadedProjectContract
load_project_contract policy_file verify_file =
    if is_missing policy_file
    then failed no_policy
    else if is_missing verify_file
    then failed no_verify
    else and_then (load_policy_yaml policy_file) (λ policy.
      and_then (load_verify_yaml verify_file) (λ verify. loaded (record {
        policy = policy;
        workspace_mode = sanitized_copy_only;
        real_project_mounted = false;
        allow_bash = false;
        allowed_checks = verify.0;
        verification_profile = verify.1;
      })))
