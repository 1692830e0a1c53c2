-- ===== src/Approvals/Confirmation.antt =====
-- `runWithConfirmation` of src/approvals/confirmation-event-handler.ts. What the API sends is a list of
-- streams, one for each turn; what is posted is a list, oldest first.
use Prim.Native.String.{◌++◌ as append}
use claude_powerplant.Prelude.{
  String, Bool, true, false, not, Option, some, List, [], ◌∷◌, ◌++◌, map, if◌then◌else◌,
}
use claude_powerplant.Approvals.{PendingToolUse, Denial, allowed, denied, evaluate_write_policy}

-- `ConfirmDecision`
pub data Decision : Type 0 where
  allow : Decision
  deny : Option String → Decision

abbrev pub is_allow : Decision → Bool
is_allow allow = true
is_allow (deny _) = false

pub data MessageBlock : Type 0 where
  text : String → MessageBlock
  other_block : MessageBlock

pub data SessionEvent : Type 0 where
  message : List MessageBlock → SessionEvent
  tool_use : PendingToolUse → SessionEvent
  requires_action idle terminated other_event : SessionEvent

-- One `user.tool_confirmation` event.
pub record Confirmation : Type 0 where
  pub tool_use_id : String
  pub decision : Decision

-- The variables of the function, and what it has posted.
pub record Handling : Type 0 where
  pub final_text : String
  pub tool_use_events : List PendingToolUse
  pub confirmed : Bool
  pub posted : List (List Confirmation)

pub record Turn : Type 0 where
  pub handling : Handling
  pub tool_use_this_turn : List PendingToolUse
  pub requires_action : Bool

unfoldable pub add_text : String → List MessageBlock → String
add_text t [] = t
add_text t (text s ∷ bs) = add_text (append t s) bs
add_text t (other_block ∷ bs) = add_text t bs

-- `postConfirmations`
unfoldable pub confirmations : List PendingToolUse → Decision → List Confirmation
confirmations us d = map (λ u. record { tool_use_id = u.id; decision = d }) us

unfoldable pub post : Handling → List PendingToolUse → Decision → Handling
post h us d = record h { confirmed = is_allow d; posted = h.posted ++ confirmations us d ∷ [] }

module _ (decide : List PendingToolUse → Decision) (immediate_confirmation : Bool) where
  -- One `agent.tool_use` event; with immediate confirmation it is answered at once.
  unfoldable pub see_tool_use : Turn → PendingToolUse → Turn
  unfolding post
  see_tool_use t u =
      let seen = record t.handling { tool_use_events = t.handling.tool_use_events ++ u ∷ [] } in
      record t {
        tool_use_this_turn = t.tool_use_this_turn ++ u ∷ [];
        handling = if immediate_confirmation then post seen (u ∷ []) (decide (u ∷ [])) else seen;
      }

  -- The `for await` over one stream.
  unfoldable pub read_events : Turn → List SessionEvent → Turn
  read_events t [] = t
  read_events t (message bs ∷ es) =
      read_events
        (record t {
          handling = record t.handling { final_text = add_text t.handling.final_text bs };
        })
        es
  read_events t (tool_use u ∷ es) = read_events (see_tool_use t u) es
  read_events t (requires_action ∷ es) = record t { requires_action = true }
  read_events t (idle ∷ es) = t
  read_events t (terminated ∷ es) = t
  read_events t (other_event ∷ es) = read_events t es

  unfoldable pub begin_turn : Handling → Turn
  begin_turn h = record { handling = h; tool_use_this_turn = []; requires_action = false }

  -- What a turn comes to: `true` when the function goes on with another stream.
  unfoldable pub end_turn : Turn → Handling × Bool
  end_turn t =
      if immediate_confirmation
      then (t.handling, false)
      else if not t.requires_action
      then (t.handling, false)
      else (post t.handling t.tool_use_this_turn (decide t.tool_use_this_turn), true)

  -- The `while (true)`; the flag says whether the function waits for a stream that is not there.
  unfoldable pub run_with_confirmation : Handling → List (List SessionEvent) → Handling × Bool
  run_with_confirmation h [] = (h, true)
  run_with_confirmation h (events ∷ streams) =
      let turn = end_turn (read_events (begin_turn h) events) in
      let later = run_with_confirmation turn.0 streams in if turn.1 then later else turn

abbrev pub start : Handling
start = record { final_text = ""; tool_use_events = []; confirmed = false; posted = [] }

-- The decision of src/sessions/run-cloud-output-allow-smoke.ts: the write policy's, with its reason as
-- text.
unfoldable pub decide_write : (Denial → String) → String → String → List PendingToolUse → Decision
decide_write explain path content us = elim (evaluate_write_policy us path content) [
  | allowed ↦ allow
  | denied d ↦ deny (some (explain d))
]
