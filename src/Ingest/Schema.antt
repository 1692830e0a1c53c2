-- ===== src/Ingest/Schema.antt =====
-- Gate 1 of an import: src/skills/candidate-store.ts, with the regular expression for skill names of
-- src/skills/skill-types.ts. Texts are sequences of UTF-16 code units. The decoding of UTF-8 and JSON
-- with its schema are parameters.
use mathlib.Core.Option
use claude_powerplant.Prelude.{
  ℕ, String, Bool, true, false, not, ◌&&◌, ◌||◌, Option, none, some, List, [], ◌∷◌, ◌++◌, get, any,
  keep, map, leb, eqb, is_some, if◌then◌else◌,
}
use claude_powerplant.Text.{units, is_prefix, is_line_end, split_lines, trim, trim_start}
use claude_powerplant.Ingest.Copy.{Snapshot}

-- The manifest of a candidate
pub record CandidateManifest : Type 0 where
  pub id : String
  pub name : List ℕ
  pub version : ℕ
  pub description : List ℕ
  pub tags : List (List ℕ)
  pub created_at : List ℕ
  pub promoted_at : Option (List ℕ)
  pub source_run_id : Option (List ℕ)
  pub sha256 : Option (List ℕ)
  pub evaluation_passed : Bool
  pub evaluation_at : Option (List ℕ)

-- What reading a text as a manifest gives: no JSON, an issue of the schema, or a manifest.
pub data ParsedManifest : Type 0 where
  invalid_json misfit : ParsedManifest
  manifest : CandidateManifest → ParsedManifest

pub record Reader : Type 0 where
  pub decode : List ℕ → List ℕ
  pub parse : List ℕ → ParsedManifest

pub data Gate1Issue : Type 0 where
  skill_md_missing skill_md_unreadable skill_md_empty : Gate1Issue
  manifest_invalid_json manifest_misfit hash_supplied no_description : Gate1Issue
  invalid_name : List ℕ → Gate1Issue

pub data Gate1Result : Type 0 where
  gate1_success : CandidateManifest → Gate1Result
  gate1_failure : Gate1Issue → Gate1Result

-- `/^[a-z][a-z0-9]*(-[a-z0-9]+)*$/`, behind its first letter
abbrev is_name_unit : ℕ → Bool
is_name_unit c = (leb b'a' c && leb c b'z') || (leb b'0' c && leb c b'9')

unfoldable pub skill_name_from : Bool → List ℕ → Bool
skill_name_from after_dash [] = not after_dash
skill_name_from after_dash (c ∷ s) =
    (is_name_unit c || (not after_dash && eqb c b'-')) && skill_name_from (eqb c b'-') s

unfoldable pub is_skill_name : List ℕ → Bool
unfolding skill_name_from
is_skill_name [] = false
is_skill_name (c ∷ s) = leb b'a' c && leb c b'z' && skill_name_from false s

-- What follows a prefix
unfoldable pub drop_prefix : List ℕ → List ℕ → Option (List ℕ)
drop_prefix [] s = some s
drop_prefix (c ∷ p) [] = none
drop_prefix (c ∷ p) (d ∷ s) = if eqb c d then drop_prefix p s else none

-- What stands before the first occurrence of a text
unfoldable pub before : List ℕ → List ℕ → Option (List ℕ)
before p [] = if is_prefix p [] then some [] else none
before p (c ∷ s) =
    let longer = Option.map (λ r. c ∷ r) (before p s) in
    if is_prefix p (c ∷ s) then some [] else longer

abbrev filled : List ℕ → Bool
filled [] = false
filled (c ∷ s) = true

-- The block between `---` lines, unless it is empty
unfoldable pub frontmatter : List ℕ → Option (List ℕ)
unfolding drop_prefix before units
frontmatter content = elim (drop_prefix (units "---\n") content) [
  | none ↦ none
  | some rest ↦ elim (before (units "\n---") rest) [
    | none ↦ none
    | some block ↦ if filled block then some block else none
  ]
]

unfoldable pub first_line : List ℕ → List ℕ
first_line [] = []
first_line (c ∷ s) = let rest = first_line s in if is_line_end c then [] else c ∷ rest

-- `\s*(.+)$`, trimmed: white space may run over lines, and gives back what `.+` needs.
unfoldable pub field_value : List ℕ → Option (List ℕ)
unfolding trim_start first_line is_line_end trim
field_value s = elim (trim_start s) [
  | [] ↦ if any (λ c. not (is_line_end c)) s then some [] else none
  | c ∷ rest ↦ some (trim (first_line (c ∷ rest)))
]

-- The first line start at which a prefix stands and what follows it can be read
unfoldable pub find_at_line {ℓ} :
    {A : Type ℓ} → (List ℕ → Option A) → List ℕ → Bool → List ℕ → Option A
find_at_line read p at_start [] = none
find_at_line read p at_start (c ∷ s) =
    let later = find_at_line read p (is_line_end c) s in
    elim (if at_start then drop_prefix p (c ∷ s) else none) [
      | none ↦ later
      | some rest ↦ elim (read rest) [ some v ↦ some v | none ↦ later ]
    ]

unfoldable pub extract_frontmatter_field : List ℕ → List ℕ → Option (List ℕ)
extract_frontmatter_field content field = elim (frontmatter content) [
  | none ↦ none
  | some block ↦ find_at_line field_value (field ++ b':' ∷ []) true block
]

-- The parts between the units of a kind
unfoldable pub split_by : (ℕ → Bool) → List ℕ → List ℕ → List (List ℕ)
split_by cuts part [] = part ∷ []
split_by cuts part (c ∷ s) =
    let cut = part ∷ split_by cuts [] s in
    let longer = split_by cuts (part ++ c ∷ []) s in if cuts c then cut else longer

-- `\s*\[([^\]]*)\]`
unfoldable pub inline_tags : List ℕ → Option (List ℕ)
unfolding trim_start
inline_tags s = elim (trim_start s) [
  | [] ↦ none
  | c ∷ rest ↦ if eqb c b'[' then before (b']' ∷ []) rest else none
]

-- `/^  - (.+)$/gm` on one line
unfoldable pub listed_tag : List ℕ → List ℕ
unfolding drop_prefix units trim
listed_tag line = elim (drop_prefix (units "  - ") line) [ none ↦ [] | some tag ↦ trim tag ]

unfoldable pub extract_frontmatter_tags : List ℕ → List (List ℕ)
unfolding units trim split_by listed_tag
extract_frontmatter_tags content = elim (frontmatter content) [
  | none ↦ []
  | some block ↦ elim (find_at_line inline_tags (units "tags:") true block) [
    | some inner ↦ keep filled (map trim (split_by (λ c. eqb c b',') [] inner))
    | none ↦ keep filled (map listed_tag (split_by is_line_end [] block))
  ]
]

-- `firstLine.replace(/^#+\s*/, '')`
unfoldable pub drop_marks : List ℕ → List ℕ
drop_marks [] = []
drop_marks (c ∷ s) = let rest = drop_marks s in if eqb c b'#' then rest else c ∷ s

unfoldable pub heading_text : List ℕ → List ℕ
unfolding drop_marks trim_start
heading_text [] = []
heading_text (c ∷ s) = if eqb c b'#' then trim_start (drop_marks s) else c ∷ s

abbrev head_line : List (List ℕ) → List ℕ
head_line [] = []
head_line (line ∷ lines) = line

-- What stands under a name of the snapshot: a file, a directory, or nothing.
pub data Found : Type 0 where
  file : List ℕ → Found
  directory absent : Found

unfoldable pub find : Snapshot → String → Found
find snapshot name = elim (get snapshot name) [
  | some bytes ↦ file bytes
  | none ↦
      if any (λ e. is_prefix (units name ++ b'/' ∷ []) (units e.0)) snapshot
      then directory
      else absent
]

-- The manifest that is read from `manifest.json`
unfoldable pub judge_manifest : String → ParsedManifest → Gate1Result
judge_manifest id invalid_json = gate1_failure manifest_invalid_json
judge_manifest id misfit = gate1_failure manifest_misfit
judge_manifest id (manifest m) =
    if is_some m.sha256 then gate1_failure hash_supplied else gate1_success (record m { id = id })

-- The manifest that is made from the frontmatter of `SKILL.md`
unfoldable pub skeleton : List ℕ → String → List ℕ → List ℕ → Gate1Result
unfolding units split_lines trim
skeleton now id snapshot_name content =
    let name = elim (extract_frontmatter_field content (units "name")) as (λ _. List ℕ) [
      | some n ↦ n
      | none ↦ snapshot_name
    ] in
    let described =
      elim (extract_frontmatter_field content (units "description")) as (λ _. List ℕ) [
        | some d ↦ d
        | none ↦ heading_text (head_line (split_lines (trim content)))
      ] in
    if not (is_skill_name name)
    then gate1_failure (invalid_name name)
    else if not (filled described)
    then gate1_failure no_description
    else gate1_success (record {
      id = id;
      name = name;
      version = 1;
      description = described;
      tags = extract_frontmatter_tags content;
      created_at = now;
      promoted_at = none;
      source_run_id = none;
      sha256 = none;
      evaluation_passed = false;
      evaluation_at = none;
    })

-- `skillMdContent` is a text that is not blank.
unfoldable pub validate_content :
    Reader → List ℕ → Snapshot → String → List ℕ → List ℕ → Gate1Result
validate_content reader now snapshot id snapshot_name content =
    elim (find snapshot "manifest.json") [
      | file bytes ↦ judge_manifest id (reader.parse (reader.decode bytes))
      | directory ↦ gate1_failure manifest_invalid_json
      | absent ↦ skeleton now id snapshot_name content
    ]

-- `validateCandidateSchema`; the name is the last part of the path of the snapshot.
unfoldable pub validate_candidate_schema :
    Reader → List ℕ → Snapshot → String → List ℕ → Gate1Result
unfolding trim
validate_candidate_schema reader now snapshot id snapshot_name = elim (find snapshot "SKILL.md") [
  | absent ↦ gate1_failure skill_md_missing
  | directory ↦ gate1_failure skill_md_unreadable
  | file bytes ↦
      if not (filled (trim (reader.decode bytes)))
      then gate1_failure skill_md_empty
      else validate_content reader now snapshot id snapshot_name (reader.decode bytes)
]
