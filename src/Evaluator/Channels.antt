-- ===== src/Evaluator/Channels.antt =====
-- What a verdict of PASS of the evaluators of src/preflight rests on: the last sentinel of the output, or the
-- output file.
use claude_powerplant.Prelude.{
  ℕ, ◌≡◌, ◌≢◌, refl, sym, ap, ◌∙◌, ◌↔◌, inl, inr, ◌⊎◌, String, eq_iff, true, false, Option, none,
  some, List, [], ◌∷◌, has, arith, Bool-cases, Option-cases,
}
use claude_powerplant.Text.{trim}
use claude_powerplant.Evaluator.{Json, null, value, pass, status_of}
use claude_powerplant.Evaluator.Spawn.{SpawnCapsuleResult}
use claude_powerplant.Evaluator.Capsule.{
  Inspection, digests, extract_oracle_trusted_result, OutputFile, unreadable, contents, blank,
  read_file, evaluate,
}
use claude_powerplant.Evaluator.Trust.{LastSentinel, extract_iff}

-- No line of the output carries a value last.
abbrev pub NoSentinel : (List ℕ → Option Json) → List ℕ → Type 0
NoSentinel parse stdout = (s : Option String) → ¬ LastSentinel parse stdout (value s)

-- The output file has a text that is read as a value with this status.
abbrev pub FileSays : (List ℕ → Option Json) → OutputFile → Option String → Type 0
FileSays parse out s =
    (t : List ℕ) × (out ≡ contents t) × (trim t ≢ []) × (parse (trim t) ≡ some (value s))

-- The registry knows the image under the expected reference.
abbrev pub Approved : Inspection → String → Type 0
Approved inspection expected =
    (ds : List String) × (inspection ≡ digests ds) × (has ds expected ≡ true)

status_of-pass : (s : Option String) → (status_of s ≡ pass) ↔ (s ≡ some "PASS")
unfolding status_of
status_of-pass none = ground arith
status_of-pass (some s) = ground (arith, eq_iff s "PASS", eq_iff s "FAIL")

Json-cases : (j : Json) → (j ≡ null) ⊎ ((s : Option String) × (j ≡ value s))
Json-cases null = inl refl
Json-cases (value s) = inr (s, refl)

blank-cases : (s : List ℕ) → (s ≡ []) ⊎ ((blank s ≡ false) × (s ≢ []))
blank-cases [] = inl refl
blank-cases (c ∷ rest) = inr (refl, (λ e. ground (arith, e)))

module _ (parse : List ℕ → Option Json) where
  read_file_filled :
      (t : List ℕ) (j : Json)
      → blank (trim t) ≡ false
      → parse (trim t) ≡ some j
      → ((read_file parse (contents t)).status ≡ pass) ↔ (j ≡ value (some "PASS"))
  unfolding read_file
  read_file_filled t null filled parsed = ground (arith, filled, parsed)
  read_file_filled t (value s) filled parsed =
      ground (arith, filled, parsed, (status_of-pass s).0, (status_of-pass s).1)

  pub read_file_pass :
      (out : OutputFile) → ((read_file parse out).status ≡ pass) ↔ FileSays parse out (some "PASS")
  unfolding read_file
  read_file_pass unreadable =
      ((λ e. absurd (ground (arith, e))), (λ h. absurd (ground (arith, h.1))))
  read_file_pass (contents t) = elim (blank-cases (trim t)) [
    | inl empty ↦ (
      (λ e. absurd (ground (arith, e, empty))),
      (λ h.
          let (t', same, filled, says) = h in
          let t_same : t' ≡ t = ground (arith, same) in absurd (filled (ap trim t_same ∙ empty))),
    )
    | inr (filled, longer) ↦ elim (Option-cases (parse (trim t))) [
      | inl bad ↦ (
        (λ e. absurd (ground (arith, e, filled, bad))),
        (λ h.
            let (t', same, filled', says) = h in
            let t_same : t' ≡ t = ground (arith, same) in
            let says_t : parse (trim t) ≡ some (value (some "PASS")) = rw (← t_same) says in
            absurd (ground (arith, bad, says_t))),
      )
      | inr (json, parsed) ↦
          let judged = read_file_filled t json filled parsed in
          (
            (λ e. (t, refl, longer, parsed ∙ ap some (judged.0 e))),
            (λ h.
                let (t', same, filled', says) = h in
                let t_same : t' ≡ t = ground (arith, same) in
                let says_t : parse (trim t) ≡ some (value (some "PASS")) = rw (← t_same) says in
                judged.1 (ground (arith, parsed, says_t))),
          )
    ]
  ]

  -- What a verdict of PASS rests on: the last sentinel, or the file where there is none
  pub evaluate_pass_iff :
      (r : SpawnCapsuleResult) (out : OutputFile)
      → ((evaluate parse r out).status ≡ pass) ↔ (
          (r.timed_out ≡ false)
          × (r.output_capped ≡ false)
          × (LastSentinel parse r.stdout (value (some "PASS"))
              ⊎ (NoSentinel parse r.stdout × FileSays parse out (some "PASS"))))
  unfolding evaluate
  evaluate_pass_iff r out = elim (Bool-cases r.timed_out) [
    | inl late ↦
        ((λ e. absurd (ground (arith, e, late))), (λ h. absurd (ground (arith, h.0, late))))
    | inr timely ↦ elim (Bool-cases r.output_capped) [
      | inl long ↦ (
        (λ e. absurd (ground (arith, e, timely, long))),
        (λ h. absurd (ground (arith, h.1, long))),
      )
      | inr short ↦ elim (Json-cases (extract_oracle_trusted_result parse r.stdout)) [
        | inr (s, found) ↦
            let last = (extract_iff parse r.stdout s).0 found in
            (
              (λ e.
                  let passes : status_of s ≡ pass = ground (arith, e, timely, short, found) in
                  let says = (status_of-pass s).0 passes in
                  (
                    timely,
                    short,
                    inl ((extract_iff parse r.stdout (some "PASS")).0 (found ∙ ap value says)),
                  )),
              (λ h. elim h.2 [
                | inl says ↦
                    let same = sym found ∙ (extract_iff parse r.stdout (some "PASS")).1 says in
                    let s_pass : s ≡ some "PASS" = ground (arith, same) in
                    ground (arith, timely, short, found, (status_of-pass s).1 s_pass)
                | inr (nothing, file) ↦ absurd (nothing s last)
              ]),
            )
        | inl nothing ↦
            let none_last : NoSentinel parse r.stdout =
              λ s last. ground (arith, nothing, (extract_iff parse r.stdout s).1 last) in
            let file = read_file_pass out in
            (
              (λ e.
                  let passes : (read_file parse out).status ≡ pass =
                    ground (arith, e, timely, short, nothing) in
                  (timely, short, inr (none_last, file.0 passes))),
              (λ h. elim h.2 [
                | inl says ↦ absurd (none_last (some "PASS") says)
                | inr (gone, says) ↦ ground (arith, timely, short, nothing, file.1 says)
              ]),
            )
      ]
    ]
  ]
