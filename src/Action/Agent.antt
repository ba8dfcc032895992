-- ===== src/Action/Agent.antt =====
-- agent-core/agents/action_agent.py, lines 458 to 486: the agent on the orchestrator's state.
-- `llm` is the model's answer to the user's message, parsed.
pub mod Calls
use realityai_agents.Prelude.{
  String, Bool, true, false, Option, none, some, List, [], ◌∷◌, ◌==◌, if◌then◌else◌,
}
use realityai_agents.Python.{Py, ok, raise}
use realityai_agents.Outer.Node.{default_to}
use realityai_agents.State.{AgentState, AgentUpdate, ToolCall, messages_or_empty, last_or_empty}
use realityai_agents.Action.Step.{Effects, Eff, Env}
use realityai_agents.Action.Subgraph.{
  Answer, ActionAgentInput, ActionAgentOutput, invoke_action_subgraph,
}

abbrev role_or_student : Option String → String
role_or_student none = "student"
role_or_student (some role) = if role == "" then "student" else role

module _ {C : Type 0} where
  unfoldable pub agent_input : AgentState C → ActionAgentInput
  agent_input s = record {
    user_message = last_or_empty (messages_or_empty s.messages);
    user_id = default_to "" s.user_id;
    session_id = default_to "" s.session_id;
    user_role = role_or_student s.user_role;
  }

pub agent_update : ActionAgentOutput → AgentUpdate
agent_update output =
    if output.selected_tool == ""
    then record { response = output.response; tool_calls = [] }
    else record {
      response = output.response;
      tool_calls =
          record {
            tool_name = output.selected_tool;
            arguments = [];
            result = none;
            success = output.success;
            error = if output.success then none else some output.response;
          }
          ∷ [];
    }

abbrev pub updated : Py ActionAgentOutput × Effects → Py AgentUpdate × Effects
updated (ok output, w) = (ok (agent_update output), w)
updated (raise e, w) = (raise e, w)

module _ {C : Type 0} (env : Env) (llm : String → Answer) where
  unfoldable pub run_action_agent : AgentState C → Eff AgentUpdate
  unfolding agent_input
  run_action_agent s w =
      let inp = agent_input s in updated (invoke_action_subgraph env (llm inp.user_message) inp w)
