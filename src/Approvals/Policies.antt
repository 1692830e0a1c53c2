-- ===== src/Approvals/Policies.antt =====
-- What the policies of src/approvals allow.
use claude_powerplant.Prelude.{
  In, ℕ, ◌≡◌, ◌≢◌, refl, ◌∙◌, ◌↔◌, inl, inr, String, eq_iff, true, some, List, [], ◌∷◌, get, length,
  eqb_iff, arith, Bool-cases, Option-cases,
}
use claude_powerplant.Text.{units, same_units, trim, trim_end}
use claude_powerplant.Approvals.{
  text, null, other, PendingToolUse, PolicyResult, allowed, shown, only_event, listed, judge_bash,
  evaluate_bash_policy, judge_write_output, evaluate_write_output_policy, is_text, judge_write,
  evaluate_write_policy,
}

same_units-eq : (s t : List ℕ) → same_units s t ≡ true → s ≡ t
unfolding same_units
same_units-eq [] [] h = refl
same_units-eq [] (d ∷ t) h = cc h
same_units-eq (c ∷ s) [] h = cc h
same_units-eq (c ∷ s) (d ∷ t) h = ground (arith, eqb_iff c d, same_units-eq s t)

same_units_refl : (s : List ℕ) → same_units s s ≡ true
unfolding same_units
same_units_refl [] = refl
same_units_refl (c ∷ s) = ground (arith, eqb_iff c c, same_units_refl s)

-- A command of the allowlist, up to white space at its ends.
abbrev pub Listed : List ℕ → List String → Type 0
Listed command commands = (a : String) × In a commands × (command ≡ trim (units a))

listed_sound :
    (command : List ℕ) (commands : List String)
    → listed command commands ≡ true
    → Listed command commands
unfolding listed
listed_sound command [] h = cc h
listed_sound command (a ∷ later) h = elim (Bool-cases (same_units command (trim (units a)))) [
  | inl same ↦ (a, inl refl, same_units-eq command (trim (units a)) same)
  | inr differs ↦ let (b, there, e) = listed_sound command later (ground arith) in (b, inr there, e)
]

listed_complete :
    (command : List ℕ) (commands : List String)
    → Listed command commands
    → listed command commands ≡ true
unfolding listed
listed_complete command [] (a, there, e) = absurd there
listed_complete command (x ∷ xs) (a, inl same, e) =
    let found : same_units command (trim (units x)) ≡ true =
      rw (e, same) (same_units_refl (trim (units a))) in
    rw found refl
listed_complete command (x ∷ xs) (a, inr there, e) =
    ground (arith, listed_complete command xs (a, there, e))

-- One event, of the tool `name`.
abbrev pub Single : String → (PendingToolUse → Type 0) → List PendingToolUse → Type 0
Single name P events = (e : PendingToolUse) × (events ≡ e ∷ []) × (e.name ≡ name) × P e

only_event-allowed :
    (events : List PendingToolUse) (judge : PendingToolUse → PolicyResult)
    → only_event events judge ≡ allowed
    → (e : PendingToolUse) × (events ≡ e ∷ []) × (judge e ≡ allowed)
unfolding only_event
only_event-allowed [] judge h = absurd (cc h)
only_event-allowed (e ∷ []) judge h = (e, refl, h)
only_event-allowed (e ∷ f ∷ es) judge h = absurd (cc h)

-- A tool use that the bash policy may allow.
abbrev pub BashCommand : List String → PendingToolUse → Type 0
BashCommand commands e =
    (length (trim (units (shown e.input "command"))) ≢ 0)
    × Listed (trim (units (shown e.input "command"))) commands

judge_bash_iff :
    (commands : List String) (e : PendingToolUse)
    → (judge_bash commands e ≡ allowed) ↔ ((e.name ≡ "bash") × BashCommand commands e)
unfolding judge_bash
judge_bash_iff commands e = (to, from)
  where
    command : List ℕ
    command = trim (units (shown e.input "command"))

    to : judge_bash commands e ≡ allowed → (e.name ≡ "bash") × BashCommand commands e
    to h = (
      ground (arith, eq_iff e.name "bash"),
      (
        (λ empty. absurd (ground (arith, eq_iff e.name "bash", eqb_iff (length command) 0))),
        listed_sound command commands (ground (arith, eq_iff e.name "bash")),
      ),
    )

    from : (e.name ≡ "bash") × BashCommand commands e → judge_bash commands e ≡ allowed
    from (bash, (some_text, there)) = ground (
      arith,
      eq_iff e.name "bash",
      eqb_iff (length command) 0,
      listed_complete command commands there,
      some_text,
    )

judge_write_output_iff :
    (path : String) (e : PendingToolUse)
    → (judge_write_output path e ≡ allowed)
      ↔ ((e.name ≡ "write") × (shown e.input "file_path" ≡ path))
unfolding judge_write_output
judge_write_output_iff path e = (
  (λ h. ground (arith, eq_iff e.name "write", eq_iff (shown e.input "file_path") path)),
  (λ h. ground (arith, eq_iff e.name "write", eq_iff (shown e.input "file_path") path)),
)

-- A write of the content, up to white space at its end, to a path given as a text.
abbrev pub ExpectedWrite : String → String → PendingToolUse → Type 0
ExpectedWrite path content e =
    (get e.input "file_path" ≡ some (text path))
    × (trim_end (units (shown e.input "content")) ≡ trim_end (units content))

judge_write_iff :
    (path content : String) (e : PendingToolUse)
    → (judge_write path content e ≡ allowed) ↔ ((e.name ≡ "write") × ExpectedWrite path content e)
unfolding judge_write is_text
judge_write_iff path content e = (to, from)
  where
    to : judge_write path content e ≡ allowed → (e.name ≡ "write") × ExpectedWrite path content e
    to h = elim (Option-cases (get e.input "file_path")) [
      | inl gone ↦ absurd (ground arith)
      | inr (text s, there) ↦ (
        ground (arith, eq_iff e.name "write"),
        (
          there ∙ ground (arith, eq_iff s path, eq_iff e.name "write"),
          same_units-eq _ _ (ground (arith, eq_iff s path, eq_iff e.name "write")),
        ),
      )
      | inr (null, there) ↦ absurd (ground arith)
      | inr (other s, there) ↦ absurd (ground arith)
    ]

    from : (e.name ≡ "write") × ExpectedWrite path content e → judge_write path content e ≡ allowed
    from (write, (there, same)) = ground (
      arith,
      there,
      eq_iff e.name "write",
      eq_iff path path,
      same ∙ refl,
      same_units_refl (trim_end (units content)),
    )

only_event_iff :
    (name : String) (P : PendingToolUse → Type 0) (judge : PendingToolUse → PolicyResult)
    (events : List PendingToolUse)
    → ((e : PendingToolUse) → (judge e ≡ allowed) ↔ ((e.name ≡ name) × P e))
    → (only_event events judge ≡ allowed) ↔ Single name P events
unfolding only_event
only_event_iff name P judge events judges = (to, from)
  where
    to : only_event events judge ≡ allowed → Single name P events
    to h =
        let (e, one, ok) = only_event-allowed events judge h in
        let (named, holds) = (judges e).0 ok in (e, one, named, holds)

    from : Single name P events → only_event events judge ≡ allowed
    from (e, one, named, holds) = rw one ((judges e).1 (named, holds))

-- The bash policy allows exactly one pending use of the tool `bash` whose command is, up to white
-- space at the ends, not empty and on the allowlist.
bash_policy_iff :
    (events : List PendingToolUse) (commands : List String)
    → (evaluate_bash_policy events commands ≡ allowed) ↔ Single "bash" (BashCommand commands) events
unfolding evaluate_bash_policy
bash_policy_iff events commands =
    only_event_iff "bash" (BashCommand commands) (judge_bash commands) events
      (judge_bash_iff commands)

-- The write policies allow exactly one pending use of the tool `write`: the first with the path as
-- a text and the content up to white space at its end, the second with the path alone, given as a
-- text or as a value that `String` shows so.
pub write_policies_iff :
    (events : List PendingToolUse) (path content : String)
    → ((evaluate_write_policy events path content ≡ allowed)
        ↔ Single "write" (ExpectedWrite path content) events)
      × ((evaluate_write_output_policy events path ≡ allowed)
          ↔ Single "write" (λ e. shown e.input "file_path" ≡ path) events)
unfolding evaluate_write_policy evaluate_write_output_policy
write_policies_iff events path content = (
  only_event_iff "write" (ExpectedWrite path content) (judge_write path content) events
      (judge_write_iff path content),
  only_event_iff "write" (λ e. shown e.input "file_path" ≡ path) (judge_write_output path) events
      (judge_write_output_iff path),
)
