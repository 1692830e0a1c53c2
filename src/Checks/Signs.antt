-- ===== src/Checks/Signs.antt =====
-- The signs that src/verification/classify-check-result.ts looks for, spelled out.
use claude_powerplant.Prelude.{
  ◌≡◌, refl, ◌↔◌, ℕ, Bool, true, false, ◌||◌, Option, none, some, List, ◌∷◌, ◌++◌, String, In, [],
  any, eq_iff, eqb_iff, arith, inl, inr, Bool-cases, ◌⊎◌,
}
use claude_powerplant.Contracts.Verdict.{RunnerKind, test}
use claude_powerplant.Text.{units, includes, includes_word, lower_all}
use claude_powerplant.Checks.{
  includes_any_case, includes_word_any_case, any_case_signals, starts_line_with,
  CheckClassificationInput, tooling_missing, zero_tests, binary_missing, command_missing, is_test,
}

-- A text tells of a missing tool: it has one of six phrases in it, in any case, or a word.
abbrev pub TellsOfTool : List ℕ → Type 0
TellsOfTool s =
    ((phrase : String) × In phrase (
        "command not found" ∷ ": not found" ∷ "Cannot find module 'vitest'"
        ∷ "Cannot find module 'typescript'" ∷ "Cannot find module '@vitest/"
        ∷ "npm ERR! missing script" ∷ [])
      × (includes (lower_all s) (lower_all (units phrase)) ≡ true))
    ⊎ (includes_word s (units "MODULE_NOT_FOUND") ≡ true)

-- One of the three signs of a tool that is not there
abbrev pub LacksTool : CheckClassificationInput → Type 0
LacksTool i =
    (i.spawn_error ≡ some (some "ENOENT"))
    ⊎ ((i.exit_code ≡ some 127) ⊎ TellsOfTool (i.stdout ++ 10 ∷ i.stderr))

-- A text tells that no tests were run: by the head of a line, or by a phrase in any case.
abbrev pub TellsOfNoTests : List ℕ → Type 0
TellsOfNoTests s =
    (starts_line_with true (units "# tests 0") s ≡ true)
    ⊎ ((includes_word (lower_all s) (lower_all (units "No test files found")) ≡ true)
        ⊎ (includes_word (lower_all s) (lower_all (units "ran 0 tests")) ≡ true))

-- The same, as the source tests it
abbrev pub lacks_tool : CheckClassificationInput → Bool
lacks_tool i =
    binary_missing i.spawn_error
    || command_missing i.exit_code
    || tooling_missing (i.stdout ++ 10 ∷ i.stderr)

any-In :
    {A : Type 0} (f : A → Bool) (xs : List A) → any f xs ≡ true → (x : A) × In x xs × (f x ≡ true)
any-In f [] e = absurd (cc e)
any-In f (x ∷ xs) e = elim (Bool-cases (f x)) [
  | inl here ↦ (x, inl refl, here)
  | inr absent ↦
      let (y, there, found) = any-In f xs (ground (arith, e, absent)) in (y, inr there, found)
]

In-any : {A : Type 0} (f : A → Bool) (xs : List A) (y : A) → In y xs → f y ≡ true → any f xs ≡ true
In-any f [] y there found = absurd there
In-any f (x ∷ xs) y (inl same) found = let here : f x ≡ true = rw same found in rw here refl
In-any f (x ∷ xs) y (inr there) found = ground (arith, In-any f xs y there found)

tooling_iff : (s : List ℕ) → (tooling_missing s ≡ true) ↔ TellsOfTool s
unfolding tooling_missing includes_any_case
tooling_iff s = (to, from)
  where
    tells : String → Bool
    tells p = includes (lower_all s) (lower_all (units p))

    to : tooling_missing s ≡ true → TellsOfTool s
    to e = elim (Bool-cases (includes_word s (units "MODULE_NOT_FOUND"))) [
      | inl word ↦ inr word
      | inr absent ↦ inl (any-In tells any_case_signals (ground (arith, e, absent)))
    ]

    from : TellsOfTool s → tooling_missing s ≡ true
    from (inl (phrase, there, same)) =
        let found : any tells any_case_signals ≡ true =
          In-any tells any_case_signals phrase there same in
        rw found refl
    from (inr word) = ground (arith, word)

pub zero_tests_iff : (s : List ℕ) → (zero_tests s ≡ true) ↔ TellsOfNoTests s
unfolding zero_tests includes_word_any_case
zero_tests_iff s = ground arith

pub is_test_iff : (kind : Option RunnerKind) → (is_test kind ≡ true) ↔ (kind ≡ some test)
unfolding is_test
is_test_iff kind = ground arith

binary_iff : (e : Option (Option String)) → (binary_missing e ≡ true) ↔ (e ≡ some (some "ENOENT"))
unfolding binary_missing
binary_iff none = ground arith
binary_iff (some none) = ground arith
binary_iff (some (some c)) = ground (arith, eq_iff c "ENOENT")

command_iff : (e : Option ℕ) → (command_missing e ≡ true) ↔ (e ≡ some 127)
unfolding command_missing
command_iff none = ground arith
command_iff (some n) = ground (arith, eqb_iff n 127)

pub lacks_iff : (i : CheckClassificationInput) → (lacks_tool i ≡ true) ↔ LacksTool i
lacks_iff i = (to, from)
  where
    to : lacks_tool i ≡ true → LacksTool i
    to e = elim (Bool-cases (binary_missing i.spawn_error)) [
      | inl gone ↦ inl ((binary_iff i.spawn_error).0 gone)
      | inr there ↦ elim (Bool-cases (command_missing i.exit_code)) [
        | inl gone ↦ inr (inl ((command_iff i.exit_code).0 gone))
        | inr ran ↦
            inr (inr ((tooling_iff (i.stdout ++ 10 ∷ i.stderr)).0 (ground (arith, e, there, ran))))
      ]
    ]

    from : LacksTool i → lacks_tool i ≡ true
    from (inl gone) = ground (arith, (binary_iff i.spawn_error).1 gone)
    from (inr (inl gone)) = ground (arith, (command_iff i.exit_code).1 gone)
    from (inr (inr tells)) = ground (arith, (tooling_iff (i.stdout ++ 10 ∷ i.stderr)).1 tells)

-- A test that fails is a proposition that does not hold, and conversely.
pub refuted_iff :
    {P : Type 0} (b : Bool) → (b ≡ true) ↔ P → ((b ≡ false) → P → ⊥) × ((P → ⊥) → b ≡ false)
refuted_iff b (to, from) = (
  (λ fails p. absurd (ground (arith, fails, from p))),
  (λ refutes. elim (Bool-cases b) [ inl holds ↦ absurd (refutes (to holds)) | inr fails ↦ fails ]),
)
