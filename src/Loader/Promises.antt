-- ===== src/Loader/Promises.antt =====
-- What holds of a policy that `loadPolicyYaml` of src/projects/load-project-contract.ts returns.
use mathlib.Core.Path.{subst}
use claude_powerplant.Prelude.{
  ℕ, ◌≡◌, ◌≢◌, refl, sym, ◌∙◌, String, true, false, List, [], ◌∷◌, eqb, length, arith, All,
}
use claude_powerplant.Text.{units, includes, trim}
use claude_powerplant.Loader.{Value, RawPolicyYaml, loaded, LoadedPolicy}
use claude_powerplant.Loader.Paths.{assert_safe_relative_path}
use claude_powerplant.Loader.Policy.{
  assert_string_array, optional_array, has_forbidden_unit, judge_project_id, assert_safe_project_id,
  check_glob, check_read, listed_paths, read_policy,
}
use claude_powerplant.Loader.Arrays.{
  all_loaded, Safe, Readable, Texts, OptionalTexts, checked-Safe, check_glob-Safe,
  check_read-Readable, listed_paths-All, listed_paths-some, string_array-Texts,
  optional_array-Texts,
}

-- The id is that of the file without the white space around it, and names one directory.
abbrev pub IdFrom : Value → List ℕ → Type 0
IdFrom v id =
    (s : String) × (v ≡ Value.text s)
    × (id ≡ trim (units s))
    × (id ≢ [])
    × (has_forbidden_unit (units s) ≡ false)
    × (includes (units s) (b'.' ∷ b'.' ∷ []) ≡ false)

-- What a policy promises, and where its parts stand in the file
pub record PolicyFrom (doc : RawPolicyYaml) (p : LoadedPolicy) : Type 0 where
  pub id : IdFrom doc.project_id p.project_id
  pub include_texts : Texts doc.include_paths p.include_paths
  pub include_safe : All Safe p.include_paths
  pub include_some : p.include_paths ≢ []
  pub exclude_texts : OptionalTexts doc.exclude_paths p.exclude_paths
  pub exclude_safe : All Safe p.exclude_paths
  pub deny_texts : OptionalTexts doc.deny_if_present_after_copy p.deny_if_present_after_copy
  pub read_texts : Texts doc.allowed_read_paths p.allowed_read_paths
  pub read_safe : All Readable p.allowed_read_paths
  pub read_some : p.allowed_read_paths ≢ []
  pub write_texts : Texts doc.allowed_write_paths p.allowed_write_paths
  pub write_safe : All Safe p.allowed_write_paths

pub filled_some : (s : List ℕ) → eqb (length s) 0 ≡ false → s ≢ []
filled_some [] e same = ground (arith, e)
filled_some (c ∷ s) e same = ground (arith, same)

project_id-From : (v : Value) (id : List ℕ) → assert_safe_project_id v ≡ loaded id → IdFrom v id
unfolding assert_safe_project_id judge_project_id
project_id-From Value.undefined id e = absurd (ground (arith, e))
project_id-From Value.null_value id e = absurd (ground (arith, e))
project_id-From Value.scalar id e = absurd (ground (arith, e))
project_id-From Value.date id e = absurd (ground (arith, e))
project_id-From (Value.array is) id e = absurd (ground (arith, e))
project_id-From (Value.mapping m) id e = absurd (ground (arith, e))
project_id-From (Value.text s) id e =
    let same : id ≡ trim (units s) = ground (arith, e) in
    (
      s,
      refl,
      same,
      (λ empty. filled_some (trim (units s)) (ground (arith, e)) (sym same ∙ empty)),
      ground (arith, e),
      ground (arith, e),
    )

policy_parts :
    (doc : RawPolicyYaml) (id : List ℕ) (include exclude deny read write : List String)
    → assert_safe_project_id doc.project_id ≡ loaded id
    → listed_paths "includePaths" false
        (λ p. assert_safe_relative_path (units p) "includePaths")
        (assert_string_array doc.include_paths "includePaths")
      ≡ loaded include
    → listed_paths "excludePaths" true
        (check_glob "excludePaths")
        (optional_array doc.exclude_paths "excludePaths")
      ≡ loaded exclude
    → optional_array doc.deny_if_present_after_copy "denyIfPresentAfterCopy" ≡ loaded deny
    → listed_paths "allowedReadPaths" false check_read
        (assert_string_array doc.allowed_read_paths "allowedReadPaths")
      ≡ loaded read
    → listed_paths "allowedWritePaths" true
        (check_glob "allowedWritePaths")
        (assert_string_array doc.allowed_write_paths "allowedWritePaths")
      ≡ loaded write
    → PolicyFrom doc (record {
      project_id = id;
      include_paths = include;
      exclude_paths = exclude;
      deny_if_present_after_copy = deny;
      allowed_read_paths = read;
      allowed_write_paths = write;
    })
policy_parts doc id include exclude deny read write id_e include_e exclude_e deny_e read_e write_e =
    let (inc, inc_safe, inc_some) =
      listed_paths-some Safe (λ p. assert_safe_relative_path (units p) "includePaths")
        "includePaths" (λ p. checked-Safe p "includePaths")
        (assert_string_array doc.include_paths "includePaths") include include_e in
    let (exc, exc_safe) =
      listed_paths-All Safe (check_glob "excludePaths") "excludePaths"
        (check_glob-Safe "excludePaths") (optional_array doc.exclude_paths "excludePaths") exclude
        exclude_e in
    let (rea, rea_safe, rea_some) =
      listed_paths-some Readable check_read "allowedReadPaths" check_read-Readable
        (assert_string_array doc.allowed_read_paths "allowedReadPaths") read read_e in
    let (wri, wri_safe) =
      listed_paths-All Safe (check_glob "allowedWritePaths") "allowedWritePaths"
        (check_glob-Safe "allowedWritePaths")
        (assert_string_array doc.allowed_write_paths "allowedWritePaths") write write_e in
    record {
      id = project_id-From doc.project_id id id_e;
      include_texts = string_array-Texts doc.include_paths "includePaths" include inc;
      include_safe = inc_safe;
      include_some = inc_some;
      exclude_texts = optional_array-Texts doc.exclude_paths "excludePaths" exclude exc;
      exclude_safe = exc_safe;
      deny_texts =
          optional_array-Texts doc.deny_if_present_after_copy "denyIfPresentAfterCopy" deny deny_e;
      read_texts = string_array-Texts doc.allowed_read_paths "allowedReadPaths" read rea;
      read_safe = rea_safe;
      read_some = rea_some;
      write_texts = string_array-Texts doc.allowed_write_paths "allowedWritePaths" write wri;
      write_safe = wri_safe;
    }

pub read_policy-From :
    (doc : RawPolicyYaml) (p : LoadedPolicy) → read_policy doc ≡ loaded p → PolicyFrom doc p
unfolding read_policy
read_policy-From doc p e =
    let (
      id, include, exclude, deny, read, write, id_e, include_e, exclude_e, deny_e, read_e, write_e,
      same,
    ) =
      all_loaded (assert_safe_project_id doc.project_id)
        (listed_paths "includePaths" false (λ p. assert_safe_relative_path (units p) "includePaths")
          (assert_string_array doc.include_paths "includePaths"))
        (listed_paths "excludePaths" true (check_glob "excludePaths")
          (optional_array doc.exclude_paths "excludePaths"))
        (optional_array doc.deny_if_present_after_copy "denyIfPresentAfterCopy")
        (listed_paths "allowedReadPaths" false check_read
          (assert_string_array doc.allowed_read_paths "allowedReadPaths"))
        (listed_paths "allowedWritePaths" true (check_glob "allowedWritePaths")
          (assert_string_array doc.allowed_write_paths "allowedWritePaths"))
        (λ id include exclude deny read write. record {
          project_id = id;
          include_paths = include;
          exclude_paths = exclude;
          deny_if_present_after_copy = deny;
          allowed_read_paths = read;
          allowed_write_paths = write;
        })
        p e in
    subst (λ p. PolicyFrom doc p) same
      (policy_parts doc id include exclude deny read write id_e include_e exclude_e deny_e read_e
        write_e)
