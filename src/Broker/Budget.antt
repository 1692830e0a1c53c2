-- ===== src/Broker/Budget.antt =====
-- The tool budget of src/broker/project-tool-broker.ts: it ends a session whose streams all carry
-- calls, and one that it ends has not passed.
use Prim.Native.String.{◌++◌ as append}
use claude_powerplant.Prelude.{
  ℕ, suc, ◌+◌, ◌≤◌, ◌≡◌, refl, ap, ◌∙◌, inl, inr, String, Bool, true, false, List, [], ◌∷◌, ◌++◌,
  all, length, leb, leb→le, arith, Bool-cases, Option-cases,
}
use claude_powerplant.Contracts.Tools.{
  PilotToolName, known_tool, list_files, read_file, write_file, run_check, finalize, Input,
}
use claude_powerplant.Outcome.{failed_tool_budget_exhausted}
use claude_powerplant.Outcome.Verdicts.{exhausted_outcome}
use claude_powerplant.Broker.{done, Contract, Machine, BrokerState}
use claude_powerplant.Broker.Handlers.{
  handle_list_files, handle_read_file, write_admitted, invalidate_checks, handle_write_file,
  record_verdict, record_check, run_declared_check, handle_run_check, finalize_admitted,
  handle_finalize, handle,
}
use claude_powerplant.Broker.Session.{
  Block, text, other_block, StreamEvent, message, tool_use, custom_tool_use, requires_action, idle,
  terminated, other_event, ToolUse, Turn, add_text, count_builtin, count_custom, read_stream,
  start_turn, Progress, stopped, waiting, aborted, run_tool, run_tools, initial, round, exhausted,
  session, evidence, session_result, max_tool_calls,
}
use claude_powerplant.Broker.Passive.{Attempt-cases}

-- The custom tool calls of a stream, up to the event that ends its reading.
unfoldable pub calls : List StreamEvent → ℕ
calls [] = 0
calls (custom_tool_use id name input ∷ es) = suc (calls es)
calls (message bs ∷ es) = calls es
calls (tool_use ∷ es) = calls es
calls (other_event ∷ es) = calls es
calls (requires_action ids ∷ es) = 0
calls (idle ∷ es) = 0
calls (terminated ∷ es) = 0

abbrev pub is_waiting : {D : Type 0} → Progress D → Bool
is_waiting (waiting s) = true
is_waiting _ = false

abbrev pub total_calls : List (List StreamEvent) → ℕ
total_calls [] = 0
total_calls (events ∷ streams) = calls events + total_calls streams

add_text-total :
    {D : Type 0} (s : BrokerState D) (bs : List Block)
    → (add_text s bs).total_custom_tool_calls ≡ s.total_custom_tool_calls
unfolding add_text
add_text-total s [] = refl
add_text-total s (text t ∷ bs) =
    add_text-total (record s { final_response = append s.final_response t }) bs
add_text-total s (other_block ∷ bs) = add_text-total s bs

count_custom-total :
    {D : Type 0} (s : BrokerState D) (name : String)
    → (count_custom s name).total_custom_tool_calls ≡ suc s.total_custom_tool_calls
unfolding count_custom
count_custom-total s name = ground arith

read_stream-total :
    {D : Type 0} (t : Turn D) (events : List StreamEvent) {u : Turn D}
    → read_stream t events ≡ done u
    → u.state.total_custom_tool_calls ≡ t.state.total_custom_tool_calls + calls events
unfolding read_stream calls
read_stream-total t [] e = ground arith
read_stream-total t (message bs ∷ es) e =
    read_stream-total (record t { state = add_text t.state bs }) es e
    ∙ ap (λ n. n + calls es) (add_text-total t.state bs)
read_stream-total t (tool_use ∷ es) e =
    read_stream-total (record t { state = count_builtin t.state }) es e
    ∙ ap (λ n. n + calls es) (unfold count_builtin in refl)
read_stream-total {D = D} t (custom_tool_use id name input ∷ es) e =
    elim (Option-cases (known_tool name)) [
      | inl unknown ↦ let e' = rw (unknown, read_stream) at e in cc e'
      | inr (tool, known) ↦
          let next : Turn D = record t {
            state = count_custom t.state name;
            tool_uses = t.tool_uses ++ record { id = id; tool = tool; input = input } ∷ [];
          } in
          let counted = read_stream-total next es (rw (known, read_stream) at e) in
          omega (arith, counted, count_custom-total t.state name)
    ]
read_stream-total t (requires_action ids ∷ es) e = ground arith
read_stream-total t (idle ∷ es) e = ground arith
read_stream-total t (terminated ∷ es) e = ground arith
read_stream-total t (other_event ∷ es) e = read_stream-total t es e

module _ {D : Type 0} (machine : Machine D) (contract : Contract) where
  abbrev SameTotal : BrokerState D → BrokerState D → Type 0
  SameTotal s t = t.total_custom_tool_calls ≡ s.total_custom_tool_calls

  list_files-total : (s : BrokerState D) → SameTotal s (handle_list_files machine contract s).0
  unfolding handle_list_files
  list_files-total s = ground arith

  read_file-total :
      (s : BrokerState D) (i : Input) → SameTotal s (handle_read_file machine contract s i).0
  unfolding handle_read_file
  read_file-total s i = ground arith

  write_file-total :
      (s : BrokerState D) (i : Input) → SameTotal s (handle_write_file machine contract s i).0
  unfolding handle_write_file write_admitted invalidate_checks
  write_file-total s i = ground arith

  run_check-total :
      (s : BrokerState D) (i : Input) → SameTotal s (handle_run_check machine contract s i).0
  unfolding handle_run_check run_declared_check record_check record_verdict
  run_check-total s i = ground arith

  finalize-total :
      (s : BrokerState D) (i : Input) → SameTotal s (handle_finalize machine contract s i).0
  unfolding handle_finalize finalize_admitted
  finalize-total s i = ground arith

  handle-total :
      (tool : PilotToolName) (s : BrokerState D) (i : Input)
      → SameTotal s (handle machine contract tool s i).0
  unfolding handle
  handle-total list_files s i = list_files-total s
  handle-total read_file s i = read_file-total s i
  handle-total write_file s i = write_file-total s i
  handle-total run_check s i = run_check-total s i
  handle-total finalize s i = finalize-total s i

  run_tools-total :
      (s : BrokerState D) (us : List ToolUse) → SameTotal s (run_tools machine contract s us)
  unfolding run_tools run_tool
  run_tools-total s [] = refl
  run_tools-total s (u ∷ us) =
      run_tools-total (run_tool machine contract s u) us ∙ handle-total u.tool s u.input

  round-total :
      (s t : BrokerState D) (events : List StreamEvent)
      → round machine contract s events ≡ waiting t
      → t.total_custom_tool_calls ≡ s.total_custom_tool_calls + calls events
  unfolding round
  round-total s t events e = elim (Attempt-cases (read_stream (start_turn s) events)) [
    | inr (name, unknown) ↦ absurd (let e' = rw (unknown, round) at e in cc e')
    | inl (u, read) ↦
        let e' = rw (read, round) at e in
        let same = run_tools-total u.state u.tool_uses in
        let counted = read_stream-total (start_turn s) events read in
        let started : (start_turn s).state.total_custom_tool_calls ≡ s.total_custom_tool_calls =
          unfold start_turn in refl in
        ground arith
  ]

  abbrev Spent : ℕ → BrokerState D → Type 0
  Spent n t =
      (t.total_custom_tool_calls ≡ n) × (leb max_tool_calls t.total_custom_tool_calls ≡ false)

  next-total :
      (s t : BrokerState D) (events : List StreamEvent) (streams : List (List StreamEvent))
      (p : Progress D)
      → ((u : BrokerState D)
          → session machine contract u streams ≡ waiting t
          → Spent (u.total_custom_tool_calls + total_calls streams) t)
      → round machine contract s events ≡ p
      → elim p as (λ (x : Progress D). Progress D) [
        | stopped s' ↦ stopped s'
        | aborted name ↦ aborted name
        | waiting s' ↦ session machine contract s' streams
      ]
        ≡ waiting t
      → Spent (s.total_custom_tool_calls + total_calls (events ∷ streams)) t
  next-total s t events streams (stopped u) ih r e = absurd (cc e)
  next-total s t events streams (aborted name) ih r e = absurd (cc e)
  next-total s t events streams (waiting u) ih r e =
      let (all_spent, room) = ih u e in (omega (arith, all_spent, round-total s u events r), room)

  waiting-total :
      (s t : BrokerState D) (streams : List (List StreamEvent))
      → session machine contract s streams ≡ waiting t
      → Spent (s.total_custom_tool_calls + total_calls streams) t
  unfolding session exhausted
  waiting-total s t [] e = ground arith
  waiting-total s t (events ∷ streams) e =
      elim (Bool-cases (leb max_tool_calls s.total_custom_tool_calls)) [
        | inl full ↦ absurd (let e' = rw (full, session) at e in cc e')
        | inr room ↦
            next-total s t events streams (round machine contract s events)
              (λ u. waiting-total u t streams) refl (rw (room, session) at e)
      ]

total_calls-ge :
    (streams : List (List StreamEvent))
    → all (λ es. leb 1 (calls es)) streams ≡ true
    → length streams ≤ total_calls streams
total_calls-ge [] h = omega arith
total_calls-ge (es ∷ streams) h = ground (arith, total_calls-ge streams, leb→le 1 (calls es))

total_calls-lt :
    {D : Type 0} (p : Progress D) (n : ℕ)
    → ((t : BrokerState D) → p ≡ waiting t → n ≤ 29)
    → 30 ≤ n
    → is_waiting p ≡ false
total_calls-lt (stopped s) n h full = refl
total_calls-lt (aborted name) n h full = refl
total_calls-lt (waiting s) n h full = absurd (omega (arith, h s refl))

module _ {D : Type 0} (machine : Machine D) (contract : Contract) where
  session-exhausted :
      (s : BrokerState D) (streams : List (List StreamEvent))
      → leb max_tool_calls s.total_custom_tool_calls ≡ true
      → session machine contract s streams ≡ exhausted machine contract s
  unfolding session
  session-exhausted s [] full = rw full refl
  session-exhausted s (events ∷ streams) full = rw (full, session) refl

  -- Every session ends: when each stream of the API carries at least one custom tool call, a
  -- session that has been given 30 streams no longer waits for another.
  pub session_bounded :
      (disk : D) (streams : List (List StreamEvent))
      → all (λ es. leb 1 (calls es)) streams ≡ true
      → 30 ≤ length streams
      → is_waiting (session machine contract (initial machine contract disk) streams) ≡ false
  session_bounded disk streams h full =
      total_calls-lt (session machine contract (initial machine contract disk) streams)
        (total_calls streams)
        (λ t e.
          let (spent, room) =
            waiting-total machine contract (initial machine contract disk) t streams e in
          let fresh : (initial machine contract disk).total_custom_tool_calls ≡ 0 =
            unfold initial in refl in
          ground arith)
        (omega (arith, total_calls-ge streams h))

  -- A session that comes to the top of its loop with 30 calls or more stops there, and it has not
  -- passed, whatever its checks and its finalize call gave.
  pub budget_denies :
      (s : BrokerState D) (streams : List (List StreamEvent))
      → leb max_tool_calls s.total_custom_tool_calls ≡ true
      → (t : BrokerState D) × (session machine contract s streams ≡ stopped t)
        × ((session_result t).passed ≡ false)
        × ((session_result t).classification.termination_reason ≡ failed_tool_budget_exhausted)
  unfolding exhausted session_result
  budget_denies s streams full =
      let t : BrokerState D = record s { budget_exhausted = true } in
      let (denied, reason) = exhausted_outcome (evidence t) (unfold evidence in refl) in
      (t, session-exhausted s streams full, denied, reason)
