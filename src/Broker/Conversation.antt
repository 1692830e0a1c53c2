-- ===== src/Broker/Conversation.antt =====
-- An induction over the session loop of src/broker/project-tool-broker.ts: what the tool calls and
-- the silent steps between them keep holds wherever a session comes to rest.
use Prim.Native.String.{◌++◌ as append}
use mathlib.Core.Path.{subst}
use claude_powerplant.Prelude.{
  ◌≡◌, refl, ◌∙◌, inl, inr, String, true, List, [], ◌∷◌, ◌++◌, put, length, eqb, leb, arith,
  Bool-cases, Option-cases,
}
use claude_powerplant.Contracts.Tools.{PilotToolName, known_tool, Input}
use claude_powerplant.Broker.{done, Contract, Machine, Reply, BrokerState}
use claude_powerplant.Broker.Handlers.{handle}
use claude_powerplant.Broker.Session.{
  Block, text, other_block, StreamEvent, message, tool_use, custom_tool_use, requires_action, idle,
  terminated, other_event, ToolUse, Turn, add_text, count_builtin, count_custom, read_stream,
  start_turn, result_events, Progress, stopped, waiting, aborted, run_tool, run_tools, initial,
  round, exhausted, session, max_tool_calls,
}
use claude_powerplant.Broker.Transcript.{Quiet, Reachable, begin, call, quiet}
use claude_powerplant.Broker.Passive.{Attempt-cases}

module _ {D : Type 0} where
  Quiet-refl : (s : BrokerState D) → Quiet s s
  Quiet-refl s = record {
    gates = record { same_passed = refl; same_valid = refl; same_test = refl };
    same_received = refl;
    same_patch = refl;
    same_disk = refl;
  }

  Quiet-trans : {s t u : BrokerState D} → Quiet s t → Quiet t u → Quiet s u
  Quiet-trans p q = record {
    gates = record {
      same_passed = q.gates.same_passed ∙ p.gates.same_passed;
      same_valid = q.gates.same_valid ∙ p.gates.same_valid;
      same_test = q.gates.same_test ∙ p.gates.same_test;
    };
    same_received = q.same_received ∙ p.same_received;
    same_patch = q.same_patch ∙ p.same_patch;
    same_disk = q.same_disk ∙ p.same_disk;
  }

  append-Quiet :
      (s : BrokerState D) (t : String)
      → Quiet s (record s { final_response = append s.final_response t })
  append-Quiet s t = ground arith

  add_text-Quiet : (s : BrokerState D) (bs : List Block) → Quiet s (add_text s bs)
  unfolding add_text
  add_text-Quiet s [] = Quiet-refl s
  add_text-Quiet s (text t ∷ bs) =
      Quiet-trans (append-Quiet s t)
        (add_text-Quiet (record s { final_response = append s.final_response t }) bs)
  add_text-Quiet s (other_block ∷ bs) = add_text-Quiet s bs

  Quiet-done : (t : Turn D) {u : Turn D} → done t ≡ done u → Quiet t.state u.state
  Quiet-done t {u} e =
      let same : t ≡ u = cc e in
      subst (λ (x : Turn D). Quiet t.state x.state) same (Quiet-refl t.state)

  count_builtin-Quiet : (s : BrokerState D) → Quiet s (count_builtin s)
  unfolding count_builtin
  count_builtin-Quiet s = ground arith

  count_custom-Quiet : (s : BrokerState D) (name : String) → Quiet s (count_custom s name)
  unfolding count_custom
  count_custom-Quiet s name = ground arith

  store-Quiet :
      (s : BrokerState D) (id : String) (reply : Reply)
      → Quiet s (record s { computed_results = put id reply s.computed_results })
  store-Quiet s id reply = ground arith

  budget-Quiet : (s : BrokerState D) → Quiet s (record s { budget_exhausted = true })
  budget-Quiet s = ground arith

  -- Reading a stream runs no tool.
  read_stream-Quiet :
      (t : Turn D) (events : List StreamEvent) {u : Turn D}
      → read_stream t events ≡ done u
      → Quiet t.state u.state
  unfolding read_stream
  read_stream-Quiet t [] e = Quiet-done t e
  read_stream-Quiet t (message bs ∷ es) e =
      Quiet-trans (add_text-Quiet t.state bs)
        (read_stream-Quiet (record t { state = add_text t.state bs }) es e)
  read_stream-Quiet t (tool_use ∷ es) e =
      Quiet-trans (count_builtin-Quiet t.state)
        (read_stream-Quiet (record t { state = count_builtin t.state }) es e)
  read_stream-Quiet t (custom_tool_use id name input ∷ es) e =
      elim (Option-cases (known_tool name)) [
        | inl unknown ↦ let e' = rw (unknown, read_stream) at e in cc e'
        | inr (tool, known) ↦
            let next : Turn D = record t {
              state = count_custom t.state name;
              tool_uses = t.tool_uses ++ record { id = id; tool = tool; input = input } ∷ [];
            } in
            Quiet-trans (count_custom-Quiet t.state name)
              (read_stream-Quiet next es (rw (known, read_stream) at e))
      ]
  read_stream-Quiet t (requires_action ids ∷ es) e =
      Quiet-done (record t { asked = true; remaining = ids }) e
  read_stream-Quiet t (idle ∷ es) e = Quiet-done t e
  read_stream-Quiet t (terminated ∷ es) e = Quiet-done t e
  read_stream-Quiet t (other_event ∷ es) e = read_stream-Quiet t es e

  turn-Quiet :
      (s : BrokerState D) (events : List StreamEvent) {u : Turn D}
      → read_stream (start_turn s) events ≡ done u
      → Quiet s u.state
  unfolding start_turn
  turn-Quiet s events e = read_stream-Quiet (start_turn s) events e

-- The state where a session stopped or waits satisfies P.
abbrev pub Ends : {D : Type 0} → (BrokerState D → Type 0) → Progress D → Type 0
Ends P (stopped s) = P s
Ends P (waiting s) = P s
Ends P (aborted name) = Unit

module _ {D : Type 0} (machine : Machine D) (contract : Contract) (P : BrokerState D → Type 0)
    (P-quiet : (s t : BrokerState D) → Quiet s t → P s → P t)
    (P-call : (tool : PilotToolName) (s : BrokerState D) (i : Input)
      → P s
      → P (handle machine contract tool s i).0) where
  run_tool-keeps : (s : BrokerState D) (u : ToolUse) → P s → P (run_tool machine contract s u)
  unfolding run_tool
  run_tool-keeps s u p = P-quiet _ _ (store-Quiet _ u.id _) (P-call u.tool s u.input p)

  run_tools-keeps :
      (s : BrokerState D) (us : List ToolUse) → P s → P (run_tools machine contract s us)
  unfolding run_tools
  run_tools-keeps s [] p = p
  run_tools-keeps s (u ∷ us) p =
      run_tools-keeps (run_tool machine contract s u) us (run_tool-keeps s u p)

  round-keeps :
      (s : BrokerState D) (events : List StreamEvent)
      → P s
      → Ends P (round machine contract s events)
  unfolding round
  round-keeps s events p = elim (Attempt-cases (read_stream (start_turn s) events)) [
    | inr (name, unknown) ↦ rw (unknown, round) tt
    | inl (t, read) ↦
        let now : P t.state = P-quiet _ _ (turn-Quiet s events read) p in
        let after = run_tools-keeps t.state t.tool_uses now in
        elim (Bool-cases t.asked) [
          | inr not_asked ↦ rw (read, round) (rw not_asked now)
          | inl asked ↦
              elim (Bool-cases (
                eqb
                  (length
                    (result_events (run_tools machine contract t.state t.tool_uses) t.remaining))
                  0)) [
                    | inl empty ↦ rw (read, round) (rw (asked, empty) after)
                    | inr some_left ↦ rw (read, round) (rw (asked, some_left) after)
                  ]
        ]
  ]

  next-keeps :
      (streams : List (List StreamEvent)) (p : Progress D)
      → ((s : BrokerState D) → P s → Ends P (session machine contract s streams))
      → Ends P p
      → Ends P (elim p [
        | stopped s' ↦ stopped s'
        | aborted name ↦ aborted name
        | waiting s' ↦ session machine contract s' streams
      ])
  next-keeps streams (stopped s) ih c = c
  next-keeps streams (aborted name) ih c = tt
  next-keeps streams (waiting s) ih c = ih s c

  -- A property of the state that tool calls and silent steps keep is kept by a whole session.
  pub session-keeps :
      (s : BrokerState D) (streams : List (List StreamEvent))
      → P s
      → Ends P (session machine contract s streams)
  unfolding session exhausted
  session-keeps s [] p = elim (Bool-cases (leb max_tool_calls s.total_custom_tool_calls)) [
    | inl full ↦ rw full (P-quiet _ _ (budget-Quiet s) p)
    | inr room ↦ rw room p
  ]
  session-keeps s (events ∷ streams) p =
      elim (Bool-cases (leb max_tool_calls s.total_custom_tool_calls)) [
        | inl full ↦ rw (full, session) (P-quiet _ _ (budget-Quiet s) p)
        | inr room ↦
            rw (room, session)
              (next-keeps streams (round machine contract s events)
                (λ t c. session-keeps t streams c) (round-keeps s events p))
      ]

-- The broker's state is one that tool calls lead to.
abbrev pub Conversing : {D : Type 0} → Machine D → Contract → BrokerState D → Type 0
Conversing machine contract s = (h : List Reply) × Reachable machine contract s h

pub session-Conversing :
    {D : Type 0} (machine : Machine D) (contract : Contract) (disk : D)
    (streams : List (List StreamEvent))
    → Ends
        (Conversing machine contract)
        (session machine contract (initial machine contract disk) streams)
session-Conversing machine contract disk streams =
    session-keeps machine contract (Conversing machine contract) (λ s t q c. (c.0, quiet q c.1))
      (λ tool s i c. (_, call tool i c.1)) (initial machine contract disk) streams ([], begin disk)
