-- ===== src/ToolPolicy/Agreement.antt =====
-- The policy of src/preflight/tool-policy.ts against the broker of src/broker/project-tool-broker.ts.
use claude_powerplant.Prelude.{
  ◌≡◌, ◌+◌, refl, sym, ◌∙◌, ◌↔◌, inl, inr, String, eq_iff, true, false, none, some, List, [], ◌∷◌,
  ◌++◌, get, arith, Option-cases,
}
use claude_powerplant.Contracts.Tools.{
  PilotToolName, list_files, read_file, write_file, run_check, finalize, known_tool, tool_name,
  Input,
}
use claude_powerplant.Broker.{threw}
use claude_powerplant.Broker.Session.{
  StreamEvent, message, tool_use, custom_tool_use, requires_action, idle, terminated, other_event,
  Turn, add_text, count_builtin, count_custom, read_stream,
}
use claude_powerplant.ToolPolicy.{allow, deny, is_broker_tool, classify_tool, evaluate_tool_request}

known_tool-tool_name : (t : PilotToolName) → known_tool (tool_name t) ≡ some t
unfolding known_tool
known_tool-tool_name list_files = refl
known_tool-tool_name read_file = refl
known_tool-tool_name write_file = refl
known_tool-tool_name run_check = refl
known_tool-tool_name finalize = refl

known_tool-name :
    (name : String) (t : PilotToolName) → known_tool name ≡ some t → name ≡ tool_name t
unfolding known_tool
known_tool-name name t e = ground (
  arith,
  eq_iff name "project_list_files",
  eq_iff name "project_read_file",
  eq_iff name "project_write_file",
  eq_iff name "project_run_check",
  eq_iff name "project_finalize",
)

-- No built-in tool has the broker's category.
builtin-deny :
    (name : String) → known_tool name ≡ none → is_broker_tool (classify_tool name) ≡ false
unfolding classify_tool get
builtin-deny name unknown = ground (arith, unknown)

-- An error that leaves the reading of a stream names an unknown tool.
threw-unknown :
    {D : Type 0} (t : Turn D) (es : List StreamEvent) (name : String)
    → read_stream t es ≡ threw name
    → known_tool name ≡ none
unfolding read_stream
threw-unknown t [] name e = absurd (ground arith)
threw-unknown t (message bs ∷ es) name e =
    threw-unknown (record t { state = add_text t.state bs }) es name e
threw-unknown t (tool_use ∷ es) name e =
    threw-unknown (record t { state = count_builtin t.state }) es name e
threw-unknown t (custom_tool_use id n input ∷ es) name e = elim (Option-cases (known_tool n)) [
  | inl unknown ↦ let e' = rw (unknown, read_stream) at e in ground (arith, unknown)
  | inr (tool, known) ↦
      threw-unknown
        (record t {
          state = count_custom t.state n;
          tool_uses = t.tool_uses ++ record { id = id; tool = tool; input = input } ∷ [];
        })
        es name (rw (known, read_stream) at e)
]
threw-unknown t (requires_action ids ∷ es) name e = absurd (ground arith)
threw-unknown t (idle ∷ es) name e = absurd (ground arith)
threw-unknown t (terminated ∷ es) name e = absurd (ground arith)
threw-unknown t (other_event ∷ es) name e = threw-unknown t es name e

request-known :
    (name : String) (t : PilotToolName)
    → known_tool name ≡ some t
    → ((evaluate_tool_request name).decision ≡ allow)
      × ((evaluate_tool_request name).protocol_stop ≡ false)
      × ((evaluate_tool_request name).no_action_taken ≡ false)
unfolding evaluate_tool_request classify_tool
request-known name t known = rw (known, classify_tool) (refl, refl, refl)

request-unknown :
    (name : String)
    → known_tool name ≡ none
    → ((evaluate_tool_request name).decision ≡ deny)
      × ((evaluate_tool_request name).protocol_stop ≡ true)
      × ((evaluate_tool_request name).no_action_taken ≡ true)
unfolding evaluate_tool_request
request-unknown name unknown =
    rw (builtin-deny name unknown, evaluate_tool_request) (refl, refl, refl)

named-known : (name : String) (t : PilotToolName) → name ≡ tool_name t → known_tool name ≡ none → ⊥
named-known name t same unknown =
    let known : known_tool name ≡ some t = rw same (known_tool-tool_name t) in
    ground (arith, known, unknown)

read_stream-unknown :
    {D : Type 0} (turn : Turn D) (id name : String) (input : Input) (es : List StreamEvent)
    → known_tool name ≡ none
    → read_stream turn (custom_tool_use id name input ∷ es) ≡ threw name
unfolding read_stream
read_stream-unknown turn id name input es unknown = rw (unknown, read_stream) refl

-- On custom tool calls the policy and the broker agree: a tool name is allowed exactly if it is that of
-- one of the five pilot tools, and it is a protocol stop exactly if its custom call makes the reading
-- of a stream end with an error of that name; no action is taken exactly on a stop. On a use of a
-- built-in tool they do not: the broker counts the event, whatever the tool, and reads on, while the
-- policy stops on each name that is none of the five.
pub policy_agrees :
    {D : Type 0} (turn : Turn D) (id name : String) (input : Input) (es : List StreamEvent)
    → (((evaluate_tool_request name).decision ≡ allow)
        ↔ ((t : PilotToolName) × (name ≡ tool_name t)))
      × (((evaluate_tool_request name).protocol_stop ≡ true)
          ↔ (read_stream turn (custom_tool_use id name input ∷ es) ≡ threw name))
      × ((evaluate_tool_request name).no_action_taken ≡ (evaluate_tool_request name).protocol_stop)
      × (read_stream turn (tool_use ∷ es)
          ≡ read_stream
              (record turn {
                state = record turn.state {
                  builtin_tool_use_count = turn.state.builtin_tool_use_count + 1;
                };
              })
              es)
unfolding read_stream count_builtin
policy_agrees turn id name input es = elim (Option-cases (known_tool name)) [
  | inr (t, known) ↦
      let (ok, goes_on, acts) = request-known name t known in
      (
        ((λ _. (t, known_tool-name name t known)), (λ _. ok)),
        (
          (λ stops. absurd (ground (arith, goes_on, stops))),
          (λ e. absurd (
              ground
                (arith, threw-unknown turn (custom_tool_use id name input ∷ es) name e, known))),
        ),
        acts ∙ sym goes_on,
        refl,
      )
  | inl unknown ↦
      let (denied, stops, rests) = request-unknown name unknown in
      (
        (
          (λ ok. absurd (ground (arith, ok, denied))),
          (λ named. absurd (named-known name named.0 named.1 unknown)),
        ),
        ((λ _. read_stream-unknown turn id name input es unknown), (λ _. stops)),
        rests ∙ sym stops,
        refl,
      )
]
