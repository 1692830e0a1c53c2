-- ===== src/ToolPolicy/Tests.antt =====
-- The tool policy and the test on paths, and the property at a concrete name.
use claude_powerplant.Prelude.{◌≡◌, ◌+◌, refl, ◌↔◌, true, false, [], ◌∷◌}
use claude_powerplant.Text.{units, includes}
use claude_powerplant.Contracts.Tools.{PilotToolName, tool_name, no_object}
use claude_powerplant.Broker.{threw}
use claude_powerplant.Broker.Session.{
  tool_use, custom_tool_use, idle, initial, start_turn, read_stream,
}
use claude_powerplant.Broker.Tests.{machine, contract}
use claude_powerplant.ToolPolicy.{allow, evaluate_tool_request, is_stat_path_bypass_attempt}
use claude_powerplant.ToolPolicy.Agreement.{policy_agrees}

state_is_flagged : is_stat_path_bypass_attempt "/root/.powerplant/state/x" ≡ true
unfolding is_stat_path_bypass_attempt includes units
state_is_flagged = refl

workspace_is_free : is_stat_path_bypass_attempt "/tmp/powerplant-sprint4a/run/x" ≡ false
unfolding is_stat_path_bypass_attempt includes units
workspace_is_free = refl

policy_agrees_example :
    (((evaluate_tool_request "Bash").decision ≡ allow)
      ↔ ((t : PilotToolName) × ("Bash" ≡ tool_name t)))
    × (((evaluate_tool_request "Bash").protocol_stop ≡ true) ↔ (
        read_stream
          (start_turn (initial machine contract []))
          (custom_tool_use "t1" "Bash" no_object ∷ idle ∷ [])
        ≡ threw "Bash"))
    × ((evaluate_tool_request "Bash").no_action_taken
        ≡ (evaluate_tool_request "Bash").protocol_stop)
    × (read_stream (start_turn (initial machine contract [])) (tool_use ∷ idle ∷ [])
        ≡ read_stream
            (record (start_turn (initial machine contract [])) {
              state = record (start_turn (initial machine contract [])).state {
                builtin_tool_use_count =
                    (start_turn (initial machine contract [])).state.builtin_tool_use_count + 1;
              };
            })
            (idle ∷ []))
policy_agrees_example =
    policy_agrees (start_turn (initial machine contract [])) "t1" "Bash" no_object (idle ∷ [])
