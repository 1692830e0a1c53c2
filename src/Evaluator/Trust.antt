-- ===== src/Evaluator/Trust.antt =====
-- What a receipt of the evaluators of src/preflight rests on.
use mathlib.Core.List.{reverse}
use claude_powerplant.Prelude.{
  ℕ, ◌≡◌, refl, sym, ap, ◌∙◌, ◌↔◌, inl, inr, String, Option, none, some, List, [], ◌∷◌, ◌++◌, arith,
  Option-cases, All,
}
use claude_powerplant.Text.{units, split_lines, trim}
use claude_powerplant.Ingest.Schema.{drop_prefix}
use claude_powerplant.Evaluator.{Json, value}
use claude_powerplant.Evaluator.Capsule.{
  oracle_trusted_result_prefix, scan_lines, extract_oracle_trusted_result,
}

-- What a line of the output carries: the JSON behind the prefix, if it is one.
abbrev pub sentinel : (List ℕ → Option Json) → List ℕ → Option Json
sentinel parse line = elim (drop_prefix (units oracle_trusted_result_prefix) (trim line)) [
  | none ↦ none
  | some text ↦ parse text
]

-- The last line that carries JSON carries this.
abbrev pub LastSentinel : (List ℕ → Option Json) → List ℕ → Json → Type 0
LastSentinel parse stdout json =
    (later : List (List ℕ)) × ((line : List ℕ) × ((earlier : List (List ℕ)) × (reverse
            (split_lines stdout)
          ≡ later ++ line ∷ earlier)
        × (sentinel parse line ≡ some json)
        × All (λ l. sentinel parse l ≡ none) later))

module _ (parse : List ℕ → Option Json) where
  scan_lines-next :
      (line : List ℕ) (lines : List (List ℕ))
      → sentinel parse line ≡ none
      → scan_lines parse (line ∷ lines) ≡ scan_lines parse lines
  unfolding scan_lines
  scan_lines-next line lines e = ground (arith, e)

  scan_lines-here :
      (line : List ℕ) (lines : List (List ℕ)) (json : Json)
      → sentinel parse line ≡ some json
      → scan_lines parse (line ∷ lines) ≡ json
  unfolding scan_lines
  scan_lines-here line lines json e = ground (arith, e)

  scan_lines-value :
      (lines : List (List ℕ)) (s : Option String)
      → scan_lines parse lines ≡ value s
      → (later : List (List ℕ)) × ((line : List ℕ) × ((earlier : List (List ℕ)) × (lines
              ≡ later ++ line ∷ earlier)
            × (sentinel parse line ≡ some (value s))
            × All (λ l. sentinel parse l ≡ none) later))
  unfolding scan_lines
  scan_lines-value [] s e = absurd (ground (arith, e))
  scan_lines-value (line ∷ lines) s e = elim (Option-cases (sentinel parse line)) [
    | inr (json, carries) ↦
        let same = sym (scan_lines-here line lines json carries) ∙ e in
        ([], (line, (lines, refl, carries ∙ ap some same, tt)))
    | inl plain ↦
        let (later, (l, (earlier, split, carries, before))) =
          scan_lines-value lines s (sym (scan_lines-next line lines plain) ∙ e) in
        (line ∷ later, (l, (earlier, ap (λ ls. line ∷ ls) split, carries, (plain, before))))
  ]

  scan_lines-found :
      (later : List (List ℕ)) (line : List ℕ) (earlier : List (List ℕ)) (json : Json)
      → sentinel parse line ≡ some json
      → All (λ l. sentinel parse l ≡ none) later
      → scan_lines parse (later ++ line ∷ earlier) ≡ json
  scan_lines-found [] line earlier json carries before = scan_lines-here line earlier json carries
  scan_lines-found (l ∷ later) line earlier json carries before =
      scan_lines-next l (later ++ line ∷ earlier) before.0
      ∙ scan_lines-found later line earlier json carries before.1

  pub extract_iff :
      (stdout : List ℕ) (s : Option String)
      → (extract_oracle_trusted_result parse stdout ≡ value s) ↔ LastSentinel parse stdout (value s)
  unfolding extract_oracle_trusted_result
  extract_iff stdout s = (
    (λ e. scan_lines-value (reverse (split_lines stdout)) s e),
    (λ h.
        let (later, (line, (earlier, split, carries, before))) = h in
        ap (scan_lines parse) split ∙ scan_lines-found later line earlier (value s) carries before),
  )
