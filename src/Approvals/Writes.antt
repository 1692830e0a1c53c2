-- ===== src/Approvals/Writes.antt =====
-- What src/approvals/confirmation-event-handler.ts grants when it is run with the write policy, as
-- src/sessions/run-cloud-output-allow-smoke.ts runs it.
use mathlib.Core.Path.{subst}
use claude_powerplant.Prelude.{
  In, ◌≡◌, ◌⊎◌, ◌↔◌, refl, sym, ap, inl, inr, String, Bool, true, false, Option, some, List, [],
  ◌∷◌, ◌++◌, map, any, All, All-concat, Bool-cases,
}
use claude_powerplant.Approvals.{
  PendingToolUse, PolicyResult, Denial, allowed, denied, evaluate_write_policy,
}
use claude_powerplant.Approvals.Policies.{Single, ExpectedWrite, write_policies_iff}
use claude_powerplant.Approvals.Confirmation.{
  Decision, allow, deny, is_allow, SessionEvent, message, tool_use, requires_action, idle,
  terminated, other_event, Confirmation, Handling, Turn, confirmations, post, see_tool_use,
  read_events, begin_turn, end_turn, run_with_confirmation, start, add_text, decide_write,
}
use claude_powerplant.Approvals.Answers.{flatten, answer, run-Answered}

module _ (decide : List PendingToolUse → Decision) (Q : PendingToolUse → Type 0) where
  -- All tool uses that were seen satisfy Q.
  abbrev Seen : Handling → Type 0
  Seen h = All Q h.tool_use_events

  see_tool_use-Seen :
      (immediate : Bool) (t : Turn) (u : PendingToolUse)
      → Seen t.handling
      → Q u
      → Seen (see_tool_use decide immediate t u).handling
  unfolding see_tool_use post
  see_tool_use-Seen true t u p q = All-concat Q t.handling.tool_use_events (u ∷ []) p (q, tt)
  see_tool_use-Seen false t u p q = All-concat Q t.handling.tool_use_events (u ∷ []) p (q, tt)

  read_events-Seen :
      (immediate : Bool) (t : Turn) (events : List SessionEvent)
      → Seen t.handling
      → ((u : PendingToolUse) → In (tool_use u) events → Q u)
      → Seen (read_events decide immediate t events).handling
  unfolding read_events
  read_events-Seen immediate t [] p q = p
  read_events-Seen immediate t (message bs ∷ es) p q =
      let h = record t.handling { final_text = add_text t.handling.final_text bs } in
      read_events-Seen immediate (record t { handling = h }) es p (λ u m. q u (inr m))
  read_events-Seen immediate t (tool_use u ∷ es) p q =
      read_events-Seen immediate (see_tool_use decide immediate t u) es
        (see_tool_use-Seen immediate t u p (q u (inl refl))) (λ v m. q v (inr m))
  read_events-Seen immediate t (requires_action ∷ es) p q = p
  read_events-Seen immediate t (idle ∷ es) p q = p
  read_events-Seen immediate t (terminated ∷ es) p q = p
  read_events-Seen immediate t (other_event ∷ es) p q =
      read_events-Seen immediate t es p (λ u m. q u (inr m))

  end_turn-Seen :
      (immediate : Bool) (t : Turn) → Seen t.handling → Seen (end_turn decide immediate t).0
  unfolding end_turn post
  end_turn-Seen true t p = p
  end_turn-Seen false t p = elim (Bool-cases t.requires_action) [
    | inl asked ↦ rw asked p
    | inr ended ↦ rw ended p
  ]

  run-Seen :
      (immediate : Bool) (h : Handling) (streams : List (List SessionEvent))
      → Seen h
      → ((u : PendingToolUse) (events : List SessionEvent)
          → In events streams
          → In (tool_use u) events
          → Q u)
      → Seen (run_with_confirmation decide immediate h streams).0
  unfolding run_with_confirmation begin_turn
  run-Seen immediate h [] p q = p
  run-Seen immediate h (events ∷ streams) p q =
      let read =
        read_events-Seen immediate (begin_turn decide immediate h) events p
          (λ u m. q u events (inl refl) m) in
      let turn =
        end_turn decide immediate
          (read_events decide immediate (begin_turn decide immediate h) events) in
      let ended =
        end_turn-Seen immediate
          (read_events decide immediate (begin_turn decide immediate h) events) read in
      elim (Bool-cases turn.1) [
        | inl on ↦ rw on (run-Seen immediate turn.0 streams ended (λ u es m. q u es (inr m)))
        | inr over ↦ rw over ended
      ]

-- A posted batch answers the uses `us`: it names them, and has an `allow` in it exactly if they are
-- one expected write.
abbrev pub Judges : String → String → List PendingToolUse → List Confirmation → Type 0
Judges path content us batch =
    (map (λ c. c.tool_use_id) batch ≡ map (λ u. u.id) us)
    × ((any (λ c. is_allow c.decision) batch ≡ true)
        ↔ Single "write" (ExpectedWrite path content) us)

-- Two lists match, one by one.
abbrev pub Matched : {A B : Type 0} → (A → B → Type 0) → List A → List B → Type 0
Matched R [] [] = Unit
Matched R [] (y ∷ ys) = ⊥
Matched R (x ∷ xs) [] = ⊥
Matched R (x ∷ xs) (y ∷ ys) = R x y × Matched R xs ys

ids-confirmations :
    (us : List PendingToolUse) (d : Decision)
    → map (λ (c : Confirmation). c.tool_use_id) (confirmations us d) ≡ map (λ u. u.id) us
unfolding confirmations
ids-confirmations [] d = refl
ids-confirmations (u ∷ us) d = ap (λ t. u.id ∷ t) (ids-confirmations us d)

denied-all :
    (us : List PendingToolUse) (why : Option String)
    → any (λ c. is_allow c.decision) (confirmations us (deny why)) ≡ false
unfolding confirmations
denied-all [] why = refl
denied-all (u ∷ us) why = denied-all us why

PolicyResult-cases : (r : PolicyResult) → (r ≡ allowed) ⊎ ((d : Denial) × (r ≡ denied d))
PolicyResult-cases allowed = inl refl
PolicyResult-cases (denied d) = inr (d, refl)

decide_write-Judges :
    (explain : Denial → String) (path content : String) (us : List PendingToolUse)
    → Judges path content us (answer (decide_write explain path content) us)
unfolding decide_write
decide_write-Judges explain path content us = (ids-confirmations us _, (to, from))
  where
    judged :
        (evaluate_write_policy us path content ≡ allowed)
        ↔ Single "write" (ExpectedWrite path content) us
    judged = (write_policies_iff us path content).0

    to :
        any (λ c. is_allow c.decision) (answer (decide_write explain path content) us) ≡ true
        → Single "write" (ExpectedWrite path content) us
    to grants = elim (PolicyResult-cases (evaluate_write_policy us path content)) [
      | inl granted ↦ judged.0 granted
      | inr (d, refused) ↦
          let decided : decide_write explain path content us ≡ deny (some (explain d)) =
            rw (refused, decide_write) refl in
          let grants' = rw decided at grants in
          absurd (cc (grants', denied-all us (some (explain d))))
    ]

    from :
        Single "write" (ExpectedWrite path content) us
        → any (λ c. is_allow c.decision) (answer (decide_write explain path content) us) ≡ true
    from (e, one, named, holds) =
        let granted = judged.1 (e, one, named, holds) in
        let decided : decide_write explain path content us ≡ allow =
          rw (granted, decide_write) refl in
        rw (decided, one) (unfold confirmations in refl)

answers-Judges :
    (explain : Denial → String) (path content : String) (batches : List (List PendingToolUse))
    → Matched
        (Judges path content)
        batches
        (map (answer (decide_write explain path content)) batches)
answers-Judges explain path content [] = tt
answers-Judges explain path content (us ∷ batches) =
    (decide_write-Judges explain path content us, answers-Judges explain path content batches)

-- A tool use that came in one of the streams
abbrev pub Streamed : List (List SessionEvent) → PendingToolUse → Type 0
Streamed streams u = (events : List SessionEvent) × In events streams × In (tool_use u) events

-- Run with the write policy, the handler answers batches of tool uses that came in the streams, in the
-- order in which it saw them: each batch that it posts names the uses of one batch, and has an `allow`
-- in it exactly if that batch is one use of the tool `write` with the expected path, and with the
-- expected content up to white space at its end.
pub writes_confined :
    (explain : Denial → String) (path content : String) (immediate : Bool)
    (streams : List (List SessionEvent))
    → (batches : List (List PendingToolUse)) × ((rest : List PendingToolUse)
        × ((run_with_confirmation
              (decide_write explain path content)
              immediate
              start
              streams).0.tool_use_events
            ≡ flatten batches ++ rest))
      × Matched
          (Judges path content)
          batches
          (run_with_confirmation
            (decide_write explain path content)
            immediate
            start
            streams).0.posted
      × All
          (Streamed streams)
          (run_with_confirmation
            (decide_write explain path content)
            immediate
            start
            streams).0.tool_use_events
writes_confined explain path content immediate streams =
    let (rest, a, at_once, on) =
      run-Answered (decide_write explain path content) immediate streams in
    (
      a.batches,
      (rest, a.seen),
      subst (Matched (Judges path content) a.batches) (sym a.posts)
          (answers-Judges explain path content a.batches),
      run-Seen (decide_write explain path content) (Streamed streams) immediate start streams tt
          (λ u events m there. (events, m, there)),
    )
