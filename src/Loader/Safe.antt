-- ===== src/Loader/Safe.antt =====
-- What holds of a contract that `loadProjectContract` of src/projects/load-project-contract.ts returns.
use mathlib.Core.Path.{subst}
use claude_powerplant.Prelude.{ℕ, ◌≡◌, refl, false, Option, List, Dict, arith}
use claude_powerplant.Contracts.Tools.{CheckEntry}
use claude_powerplant.Loader.{
  RawPolicyYaml, RawVerifyYaml, Document, failed, loaded, and_then, LoadedPolicy,
  LoadedProjectContract, sanitized_copy_only, verify_unparsable, verify_no_mapping,
}
use claude_powerplant.Loader.Policy.{read_policy, load_policy_yaml}
use claude_powerplant.Loader.Verify.{read_verify, load_verify_yaml, load_project_contract}
use claude_powerplant.Loader.Arrays.{and_then-loaded}
use claude_powerplant.Loader.Promises.{PolicyFrom, read_policy-From}
use claude_powerplant.Loader.Checks.{VerifyFrom, read_verify-From}

abbrev built : LoadedPolicy → Dict CheckEntry × Option (List ℕ) → LoadedProjectContract
built policy verify = record {
  policy = policy;
  workspace_mode = sanitized_copy_only;
  real_project_mounted = false;
  allow_bash = false;
  allowed_checks = verify.0;
  verification_profile = verify.1;
}

-- A contract that is loaded comes from two files that are there and hold mappings, and says what they say.
-- Its project id is the text of the policy without the white space around it, not empty, with no
-- separator, no wildcard and no `..`. Its include, exclude, read and write paths are the texts of
-- their arrays, each a safe relative path in the sense of the broker, globs included; there is an
-- include path and a read path, and no read path has a forbidden form. Deny patterns are texts. It
-- has a check, each of them under a proper id, with a command that is not blank and required as the
-- file says, or required if it says nothing. Neither file can have the project mounted or allow bash.
pub load_safe :
    (policy_file : Document RawPolicyYaml) (verify_file : Document RawVerifyYaml)
    (c : LoadedProjectContract)
    → load_project_contract policy_file verify_file ≡ loaded c
    → ((policy : RawPolicyYaml) × (policy_file ≡ Document.document policy)
        × PolicyFrom policy c.policy)
      × ((verify : RawVerifyYaml) × (verify_file ≡ Document.document verify) × VerifyFrom verify c)
      × (c.real_project_mounted ≡ false)
      × (c.allow_bash ≡ false)
unfolding load_project_contract load_policy_yaml load_verify_yaml and_then
load_safe Document.missing verify_file c e = absurd (ground (arith, e))
load_safe Document.unparsable Document.missing c e = absurd (ground (arith, e))
load_safe Document.unparsable Document.unparsable c e = absurd (ground (arith, e))
load_safe Document.unparsable Document.no_mapping c e = absurd (ground (arith, e))
load_safe Document.unparsable (Document.document verify) c e = absurd (ground (arith, e))
load_safe Document.no_mapping Document.missing c e = absurd (ground (arith, e))
load_safe Document.no_mapping Document.unparsable c e = absurd (ground (arith, e))
load_safe Document.no_mapping Document.no_mapping c e = absurd (ground (arith, e))
load_safe Document.no_mapping (Document.document verify) c e = absurd (ground (arith, e))
load_safe (Document.document policy) Document.missing c e = absurd (ground (arith, e))
load_safe (Document.document policy) Document.unparsable c e =
    let (p, policy_e, rest) =
      and_then-loaded (read_policy policy) (λ p. failed verify_unparsable) c e in
    absurd (ground (arith, rest))
load_safe (Document.document policy) Document.no_mapping c e =
    let (p, policy_e, rest) =
      and_then-loaded (read_policy policy) (λ p. failed verify_no_mapping) c e in
    absurd (ground (arith, rest))
load_safe (Document.document policy) (Document.document verify) c e =
    let (p, policy_e, rest) =
      and_then-loaded (read_policy policy)
        (λ p. and_then (read_verify verify) (λ v. loaded (built p v))) c e in
    let (v, verify_e, same) =
      and_then-loaded (read_verify verify) (λ v. loaded (built p v)) c rest in
    let whole : built p v ≡ c = ground (arith, same) in
    subst
      (λ c.
        ((doc : RawPolicyYaml) × (Document.document policy ≡ Document.document doc)
          × PolicyFrom doc c.policy)
        × ((doc : RawVerifyYaml) × (Document.document verify ≡ Document.document doc)
            × VerifyFrom doc c)
        × (c.real_project_mounted ≡ false)
        × (c.allow_bash ≡ false))
      whole
      (
        (policy, refl, read_policy-From policy p policy_e),
        (verify, refl, read_verify-From verify (built p v) verify_e),
        refl,
        refl,
      )
