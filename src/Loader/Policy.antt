-- ===== src/Loader/Policy.antt =====
-- `loadPolicyYaml` of src/projects/load-project-contract.ts.
use claude_powerplant.Prelude.{
  ℕ, String, Bool, true, false, not, List, [], ◌∷◌, any, eqb, length, if◌then◌else◌,
}
use claude_powerplant.Text.{units, includes, trim}
use claude_powerplant.Loader.{
  Item, Value, RawPolicyYaml, Document, no_policy, policy_unparsable, policy_no_mapping, id_empty,
  id_forbidden, id_traversal, not_array, not_texts, empty_list, Loading, failed, loaded, and_then,
  check, LoadedPolicy,
}
use claude_powerplant.Loader.Paths.{
  reject_forbidden_read_path, assert_safe_relative_path, replace_globs,
}

unfoldable pub texts_of : String → List Item → Loading (List String)
texts_of field [] = loaded []
texts_of field (Item.no_text ∷ is) = failed (not_texts field)
texts_of field (Item.text s ∷ is) =
    let rest = texts_of field is in and_then rest (λ ss. loaded (s ∷ ss))

unfoldable pub assert_string_array : Value → String → Loading (List String)
assert_string_array (Value.array is) field = texts_of field is
assert_string_array Value.undefined field = failed (not_array field)
assert_string_array Value.null_value field = failed (not_array field)
assert_string_array Value.scalar field = failed (not_array field)
assert_string_array Value.date field = failed (not_array field)
assert_string_array (Value.text s) field = failed (not_array field)
assert_string_array (Value.mapping m) field = failed (not_array field)

-- A field that may be left out
unfoldable pub optional_array : Value → String → Loading (List String)
optional_array Value.undefined field = loaded []
optional_array Value.null_value field = assert_string_array Value.null_value field
optional_array Value.scalar field = assert_string_array Value.scalar field
optional_array Value.date field = assert_string_array Value.date field
optional_array (Value.text s) field = assert_string_array (Value.text s) field
optional_array (Value.array is) field = assert_string_array (Value.array is) field
optional_array (Value.mapping m) field = assert_string_array (Value.mapping m) field

-- `/[/\\<>|*?"]/.test(id)`
abbrev pub has_forbidden_unit : List ℕ → Bool
has_forbidden_unit id = any (λ c. any (λ d. eqb c d) (units "/\\<>|*?\"")) id

unfoldable pub judge_project_id : List ℕ → Loading (List ℕ)
judge_project_id id =
    if eqb (length (trim id)) 0
    then failed id_empty
    else if has_forbidden_unit id
    then failed id_forbidden
    else if includes id (b'.' ∷ b'.' ∷ [])
    then failed id_traversal
    else loaded (trim id)

unfoldable pub assert_safe_project_id : Value → Loading (List ℕ)
assert_safe_project_id (Value.text s) = judge_project_id (units s)
assert_safe_project_id Value.undefined = failed id_empty
assert_safe_project_id Value.null_value = failed id_empty
assert_safe_project_id Value.scalar = failed id_empty
assert_safe_project_id Value.date = failed id_empty
assert_safe_project_id (Value.array is) = failed id_empty
assert_safe_project_id (Value.mapping m) = failed id_empty

-- `for (const p of paths) …`, up to the first error
unfoldable pub check_each : (String → Loading (Unit {0})) → List String → Loading (Unit {0})
check_each f [] = loaded tt
check_each f (p ∷ ps) = let rest = check_each f ps in and_then (f p) (λ _. rest)

abbrev pub check_glob : String → String → Loading (Unit {0})
check_glob field p = assert_safe_relative_path (replace_globs p) field

abbrev pub check_read : String → Loading (Unit {0})
check_read p = and_then (check_glob "allowedReadPaths" p) (λ _. reject_forbidden_read_path p)

-- `assertStringArray`, the test on its length, and the loop
unfoldable pub listed_paths :
    String → Bool → (String → Loading (Unit {0})) → Loading (List String) → Loading (List String)
listed_paths field may_be_empty f found = and_then found (λ ps.
    if not may_be_empty
    then and_then (check (not (eqb (length ps) 0)) (empty_list field))
        (λ _. and_then (check_each f ps) (λ _. loaded ps))
    else and_then (check_each f ps) (λ _. loaded ps))

unfoldable pub read_policy : RawPolicyYaml → Loading LoadedPolicy
read_policy doc = and_then (assert_safe_project_id doc.project_id) (λ id.
    and_then
      (listed_paths "includePaths" false (λ p. assert_safe_relative_path (units p) "includePaths")
        (assert_string_array doc.include_paths "includePaths"))
      (λ include.
        and_then
          (listed_paths "excludePaths" true (check_glob "excludePaths")
            (optional_array doc.exclude_paths "excludePaths"))
          (λ exclude.
            and_then (optional_array doc.deny_if_present_after_copy "denyIfPresentAfterCopy")
              (λ deny.
                and_then
                  (listed_paths "allowedReadPaths" false check_read
                    (assert_string_array doc.allowed_read_paths "allowedReadPaths"))
                  (λ read.
                    and_then
                      (listed_paths "allowedWritePaths" true (check_glob "allowedWritePaths")
                        (assert_string_array doc.allowed_write_paths "allowedWritePaths"))
                      (λ write. loaded (record {
                        project_id = id;
                        include_paths = include;
                        exclude_paths = exclude;
                        deny_if_present_after_copy = deny;
                        allowed_read_paths = read;
                        allowed_write_paths = write;
                      })))))))

unfoldable pub load_policy_yaml : Document RawPolicyYaml → Loading LoadedPolicy
load_policy_yaml Document.missing = failed no_policy
load_policy_yaml Document.unparsable = failed policy_unparsable
load_policy_yaml Document.no_mapping = failed policy_no_mapping
load_policy_yaml (Document.document doc) = read_policy doc
