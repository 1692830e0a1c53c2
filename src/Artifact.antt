-- ===== src/Artifact.antt =====
-- The artifact-integrity guard of the write tool, src/projects/detect-artifact-corruption.ts.
pub mod Laws
mod Tests
use Prim.Native.Nat.{max}
use claude_powerplant.Prelude.{
  ℕ, zero, suc, ◌+◌, ◌-◌, ◌*◌, String, Bool, true, false, not, ◌&&◌, ◌||◌, Option, none, some, List,
  [], ◌∷◌, length, any, leb, ltb, eqb, is_some, if◌then◌else◌,
}
use claude_powerplant.Text.{units, same_units, lower, split_lines}

abbrev pub code_extensions : List String
code_extensions =
    ".py" ∷ ".ts" ∷ ".tsx" ∷ ".js" ∷ ".jsx" ∷ ".mjs" ∷ ".cjs" ∷ ".go" ∷ ".rs" ∷ ".java" ∷ ".kt"
    ∷ ".scala" ∷ ".swift" ∷ ".c" ∷ ".h" ∷ ".cc" ∷ ".cpp" ∷ ".hpp" ∷ ".cs" ∷ ".rb" ∷ ".php" ∷ ".sh"
    ∷ []

abbrev pub doc_extensions : List String
doc_extensions = ".md" ∷ ".markdown" ∷ ".txt" ∷ ".rst" ∷ []

-- `toLowerCase`, as far as it can yield an ASCII letter: U+212A (the Kelvin sign) becomes `k`.
unfoldable pub to_lower : List ℕ → List ℕ
unfolding lower
to_lower [] = []
to_lower (c ∷ s) = (if eqb c 0x212a then b'k' else lower c) ∷ to_lower s

-- The text from the last dot on, empty without a dot; `found` is what the walk has so far.
last_dot : List ℕ → List ℕ → List ℕ
last_dot found [] = found
last_dot found (c ∷ s) = last_dot (if eqb c b'.' then c ∷ s else found) s

unfoldable pub extension_of : List ℕ → List ℕ
unfolding last_dot to_lower
extension_of path = to_lower (last_dot [] path)

-- `EXTENSIONS.has(ext)`
unfoldable pub has_extension : List String → List ℕ → Bool
unfolding extension_of units same_units
has_extension exts path = any (λ e. same_units (extension_of path) (units e)) exts

-- How often one code unit stands in a text.
unfoldable pub count : ℕ → List ℕ → ℕ
count a [] = 0
count a (c ∷ s) = (if eqb c a then 1 else 0) + count a s

-- How often a backslash and then `a` stand in a text: the matches of `/\\a/g`.
unfoldable pub count_escaped : ℕ → List ℕ → ℕ
count_escaped a [] = 0
count_escaped a (c ∷ []) = 0
count_escaped a (c ∷ d ∷ s) =
    let here = suc (count_escaped a s) in
    let later = count_escaped a (d ∷ s) in if eqb c b'\\' && eqb d a then here else later

unfoldable pub longest_line : List (List ℕ) → ℕ
longest_line [] = 0
longest_line (l ∷ ls) = max (length l) (longest_line ls)

-- Why a content is refused, with the counts that the message names.
pub data Corruption : Type 0 where
  newline_escapes : ℕ → ℕ → ℕ → Corruption
  quote_escapes : ℕ → ℕ → Corruption

unfoldable pub detect_newline_escape_corruption : List ℕ → List ℕ → Option Corruption
detect_newline_escape_corruption path content =
    if not (has_extension code_extensions path) && not (has_extension doc_extensions path)
    then none
    else let real = count 10 content in
      let escaped = count_escaped b'n' content in
      let longest = longest_line (split_lines content) in
      if leb 5 escaped && leb real 2 && ltb 200 longest
      then some (newline_escapes escaped real longest)
      else none

unfoldable pub detect_quote_escape_corruption : List ℕ → List ℕ → Option Corruption
detect_quote_escape_corruption path content =
    if not (has_extension code_extensions path)
    then none
    else let escaped = count_escaped b'"' content in
      let unescaped = count b'"' content - escaped in
      if leb 8 escaped && leb (unescaped * 3) escaped
      then some (quote_escapes escaped unescaped)
      else none

unfoldable pub detect_artifact_corruption : List ℕ → List ℕ → Option Corruption
detect_artifact_corruption path content =
    let newline = detect_newline_escape_corruption path content in
    if is_some newline then newline else detect_quote_escape_corruption path content
