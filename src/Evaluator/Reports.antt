-- ===== src/Evaluator/Reports.antt =====
-- What the promise of `spawnCapsule` in src/preflight/capsule-evaluator.ts resolves to.
use mathlib.Core.List.{append_assoc, append-nil}
use claude_powerplant.Prelude.{
  ℕ, ◌+◌, ◌≡◌, refl, ap, ◌∙◌, Bool, true, false, ◌||◌, Option, none, some, List, [], ◌∷◌, ◌++◌, ltb,
  arith, All,
}
use claude_powerplant.Evaluator.Spawn.{
  ChildEvent, stdout_data, stderr_data, timer_fired, spawn_error, closed, Child, SpawnCapsuleResult,
  new_child, on_stdout, settled, run_child,
}

-- The events that resolve the promise, with the exit code
abbrev pub Ends : ChildEvent → Option ℕ → Type 0
Ends (stdout_data n t) exit_code = ⊥
Ends (stderr_data t) exit_code = ⊥
Ends timer_fired exit_code = ⊥
Ends spawn_error exit_code = exit_code ≡ none
Ends (closed code) exit_code = exit_code ≡ code

abbrev pub Flowing : ChildEvent → Type 0
Flowing (stdout_data n t) = Unit
Flowing (stderr_data t) = Unit
Flowing timer_fired = Unit
Flowing spawn_error = ⊥
Flowing (closed code) = ⊥

abbrev pub stdout_bytes : List ChildEvent → ℕ
stdout_bytes [] = 0
stdout_bytes (stdout_data n t ∷ es) = n + stdout_bytes es
stdout_bytes (_ ∷ es) = stdout_bytes es

abbrev pub stdout_text : List ChildEvent → List ℕ
stdout_text [] = []
stdout_text (stdout_data n t ∷ es) = t ++ stdout_text es
stdout_text (_ ∷ es) = stdout_text es

abbrev pub fired : List ChildEvent → Bool
fired [] = false
fired (timer_fired ∷ es) = true
fired (_ ∷ es) = fired es

-- The events before the end, the end, and what the result says of them
abbrev Reported : ℕ → Child → List ChildEvent → SpawnCapsuleResult → Type 0
Reported max c es r =
    (before : List ChildEvent) × ((last : ChildEvent) × ((after : List ChildEvent) × (es
          ≡ before ++ last ∷ after)
        × All Flowing before
        × Ends last r.exit_code
        × (r.stdout ≡ c.stdout_only ++ stdout_text before)
        × (r.output_capped ≡ ltb max (c.output_bytes + stdout_bytes before))
        × (r.timed_out ≡ (c.timed_out || fired before))))

on_stdout-capped :
    (max n : ℕ) (t : List ℕ) (c : Child)
    → c.output_capped ≡ ltb max c.output_bytes
    → (on_stdout max n t c).output_capped ≡ ltb max (on_stdout max n t c).output_bytes
unfolding on_stdout
on_stdout-capped max n t c e = ground (arith, e)

on_stdout-keeps :
    (max n : ℕ) (t : List ℕ) (c : Child)
    → ((on_stdout max n t c).output_bytes ≡ c.output_bytes + n)
      × ((on_stdout max n t c).stdout_only ≡ c.stdout_only ++ t)
      × ((on_stdout max n t c).timed_out ≡ c.timed_out)
unfolding on_stdout
on_stdout-keeps max n t c = ground arith

run_child-Reported :
    (max : ℕ) (c : Child) (es : List ChildEvent) (r : SpawnCapsuleResult)
    → c.output_capped ≡ ltb max c.output_bytes
    → run_child max c es ≡ some r
    → Reported max c es r
unfolding run_child settled
run_child-Reported max c [] r capped e = absurd (ground (arith, e))
run_child-Reported max c (stdout_data n t ∷ es) r capped e =
    let c' = on_stdout max n t c in
    let (bytes, text, timed) = on_stdout-keeps max n t c in
    let (before, (last, (after, split, flowing, ends, stdout, cap, late))) =
      run_child-Reported max c' es r (on_stdout-capped max n t c capped) e in
    (
      stdout_data n t ∷ before,
      (
        last,
        (
          after,
          ap (λ es. stdout_data n t ∷ es) split,
          (tt, flowing),
          ends,
          stdout
              ∙ ap (λ s. s ++ stdout_text before) text
              ∙ append_assoc c.stdout_only t (stdout_text before),
          cap ∙ ap (ltb max) (omega (arith, bytes)),
          late ∙ ap (λ b. b || fired before) timed,
        ),
      ),
    )
run_child-Reported max c (stderr_data t ∷ es) r capped e =
    let (before, (last, (after, split, flowing, ends, stdout, cap, late))) =
      run_child-Reported max (record c { diagnostics = c.diagnostics ++ t }) es r capped e in
    (
      stderr_data t ∷ before,
      (last, (after, ap (λ es. stderr_data t ∷ es) split, (tt, flowing), ends, stdout, cap, late)),
    )
run_child-Reported max c (timer_fired ∷ es) r capped e =
    let (before, (last, (after, split, flowing, ends, stdout, cap, late))) =
      run_child-Reported max (record c { timed_out = true; kills = c.kills + 1 }) es r capped e in
    (
      timer_fired ∷ before,
      (
        last,
        (
          after,
          ap (λ es. timer_fired ∷ es) split,
          (tt, flowing),
          ends,
          stdout,
          cap,
          ground (arith, late),
        ),
      ),
    )
run_child-Reported max c (spawn_error ∷ es) r capped e = (
  [],
  (
    spawn_error,
    (
      es,
      refl,
      tt,
      ground (arith, e),
      ground (arith, e, append-nil c.stdout_only),
      ground (arith, e, capped),
      ground (arith, e),
    ),
  ),
)
run_child-Reported max c (closed code ∷ es) r capped e = (
  [],
  (
    closed code,
    (
      es,
      refl,
      tt,
      ground (arith, e),
      ground (arith, e, append-nil c.stdout_only),
      ground (arith, e, capped),
      ground (arith, e),
    ),
  ),
)

-- If the promise of a spawned capsule resolves, it does so at the first event that closes it, with the
-- exit code of that event, and its result says of the events before: the text of the standard
-- output, that it is capped exactly if this output had more bytes than allowed, and that it timed
-- out exactly if the timer fired.
pub child_reports :
    (max : ℕ) (es : List ChildEvent) (r : SpawnCapsuleResult)
    → run_child max new_child es ≡ some r
    → (before : List ChildEvent) × ((last : ChildEvent) × ((after : List ChildEvent) × (es
            ≡ before ++ last ∷ after)
          × All Flowing before
          × Ends last r.exit_code
          × (r.stdout ≡ stdout_text before)
          × (r.output_capped ≡ ltb max (stdout_bytes before))
          × (r.timed_out ≡ fired before)))
unfolding new_child
child_reports max es r e =
    let (before, (last, (after, split, flowing, ends, stdout, cap, late))) =
      run_child-Reported max new_child es r (ground arith) e in
    (before, (last, (after, split, flowing, ends, stdout, cap ∙ ap (ltb max) (omega arith), late)))
