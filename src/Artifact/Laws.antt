-- ===== src/Artifact/Laws.antt =====
-- What the guard of src/projects/detect-artifact-corruption.ts refuses and what it lets through.
use mathlib.Core.List.{append_assoc, append-nil}
use claude_powerplant.Prelude.{
  ℕ, ◌*◌, ◌≤◌, ◌<◌, ◌≡◌, refl, sym, ap, ◌∙◌, ◌⊎◌, inl, inr, true, false, ◌||◌, ◌&&◌, Option, none,
  List, [], ◌∷◌, ◌++◌, length, eqb, if◌then◌else◌, is_some, arith, Option-cases, Bool-cases,
}
use claude_powerplant.Text.{split_lines, split_lines_from}
use claude_powerplant.Artifact.{
  code_extensions, doc_extensions, has_extension, count, count_escaped, longest_line, Corruption,
  detect_newline_escape_corruption, detect_quote_escape_corruption, detect_artifact_corruption,
}

-- The subtraction in the quote check does not pass zero.
pub count_escaped-le : (a : ℕ) (s : List ℕ) → count_escaped a s ≤ count a s
unfolding count count_escaped
count_escaped-le a [] = omega arith
count_escaped-le a (c ∷ []) = omega arith
count_escaped-le a (c ∷ d ∷ s) = ground (arith, count_escaped-le a s, count_escaped-le a (d ∷ s))

-- A text whose line ends were sent as the two characters `\n`.
abbrev pub collapse : List ℕ → List ℕ
collapse [] = []
collapse (c ∷ s) = (if eqb c 10 then b'\\' ∷ b'n' ∷ [] else c ∷ []) ++ collapse s

count-collapse : (s : List ℕ) → count 10 (collapse s) ≡ 0
unfolding count
count-collapse [] = refl
count-collapse (c ∷ s) = ground (arith, count-collapse s)

count_escaped-cons : (a c : ℕ) (s : List ℕ) → count_escaped a s ≤ count_escaped a (c ∷ s)
unfolding count_escaped
count_escaped-cons a c [] = omega arith
count_escaped-cons a c (d ∷ []) = omega arith
count_escaped-cons a c (d ∷ e ∷ s) = ground (arith, count_escaped-cons a e s)

count_escaped-collapse : (s : List ℕ) → count 10 s ≤ count_escaped b'n' (collapse s)
unfolding count count_escaped
count_escaped-collapse [] = omega arith
count_escaped-collapse (c ∷ s) =
    ground (arith, count_escaped-collapse s, count_escaped-cons b'n' c (collapse s))

split_one_line : (line s : List ℕ) → count 10 s ≡ 0 → split_lines_from line s ≡ (line ++ s) ∷ []
unfolding count split_lines_from
split_one_line line [] h = ap (λ (t : List ℕ). t ∷ []) (sym (append-nil line))
split_one_line line (c ∷ s) h =
    let cut = line ∷ split_lines_from [] s in
    let other : eqb c 10 ≡ false = ground arith in
    rw other (
      split_one_line (line ++ c ∷ []) s (ground arith)
      ∙ ap (λ (t : List ℕ). t ∷ []) (append_assoc line (c ∷ []) s))

longest_line-collapse : (s : List ℕ) → longest_line (split_lines (collapse s)) ≡ length (collapse s)
unfolding longest_line split_lines
longest_line-collapse s =
    ap longest_line (split_one_line [] (collapse s) (count-collapse s)) ∙ omega arith

newline_escapes_found :
    (path content : List ℕ)
    → (has_extension code_extensions path || has_extension doc_extensions path) ≡ true
    → 5 ≤ count_escaped b'n' content
    → count 10 content ≤ 2
    → 200 < longest_line (split_lines content)
    → is_some (detect_newline_escape_corruption path content) ≡ true
unfolding detect_newline_escape_corruption
newline_escapes_found path content kind escaped real long = ground arith

newline_escapes_excluded :
    (path content : List ℕ)
    → 3 ≤ count 10 content
    → detect_newline_escape_corruption path content ≡ none
unfolding detect_newline_escape_corruption
newline_escapes_excluded path content real = ground arith

quote_escapes_excluded :
    (path content : List ℕ)
    → (count_escaped b'"' content < 8) ⊎ (4 * count_escaped b'"' content < 3 * count b'"' content)
    → detect_quote_escape_corruption path content ≡ none
unfolding detect_quote_escape_corruption
quote_escapes_excluded path content quotes = ground (arith, count_escaped-le b'"' content)

-- A source or document file of at least five line ends, sent with each of them as the two
-- characters `\n`, is refused when what was sent is longer than 200 code units.
pub detect-collapse :
    (path s : List ℕ)
    → (has_extension code_extensions path || has_extension doc_extensions path) ≡ true
    → 5 ≤ count 10 s
    → 200 < length (collapse s)
    → is_some (detect_artifact_corruption path (collapse s)) ≡ true
unfolding detect_artifact_corruption
detect-collapse path s kind ends long =
    let found =
      newline_escapes_found path (collapse s) kind (omega (arith, count_escaped-collapse s))
        (omega (arith, count-collapse s)) (omega (arith, longest_line-collapse s)) in
    rw found found

-- A content is let through if it has three line ends or more and either fewer than eight escaped
-- quotes, or escaped quotes that are less than three quarters of all its quotes.
detect-formatted :
    (path content : List ℕ)
    → 3 ≤ count 10 content
    → (count_escaped b'"' content < 8) ⊎ (4 * count_escaped b'"' content < 3 * count b'"' content)
    → detect_artifact_corruption path content ≡ none
unfolding detect_artifact_corruption
detect-formatted path content ends quotes =
    rw (newline_escapes_excluded path content ends) (quote_escapes_excluded path content quotes)

-- A file whose extension is not of code is judged by its line ends alone, and it is refused exactly
-- if its extension is of a document and its line ends are found corrupt.
detect-not_code :
    (path content : List ℕ)
    → has_extension code_extensions path ≡ false
    → (detect_artifact_corruption path content ≡ detect_newline_escape_corruption path content)
      × (is_some (detect_artifact_corruption path content) ≡ (
          has_extension doc_extensions path
          && is_some (detect_newline_escape_corruption path content)))
unfolding detect_artifact_corruption
detect-not_code path content code = (
  by_lines,
  elim (Bool-cases (has_extension doc_extensions path)) [
    | inl doc ↦ rw doc (ap is_some by_lines)
    | inr neither ↦ rw neither (ap is_some (by_lines ∙ undetected neither))
  ],
)
  where
    newline : Option Corruption
    newline = detect_newline_escape_corruption path content

    quotes_skipped : detect_quote_escape_corruption path content ≡ none
    quotes_skipped = unfold detect_quote_escape_corruption in rw code refl

    by_lines : detect_artifact_corruption path content ≡ newline
    by_lines = elim (Option-cases newline) [
      | inl unfound ↦ rw unfound quotes_skipped
      | inr (why, found) ↦ rw found refl
    ]

    undetected : has_extension doc_extensions path ≡ false → newline ≡ none
    undetected doc = unfold detect_newline_escape_corruption in rw (code, doc) refl
