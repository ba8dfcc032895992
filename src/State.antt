-- ===== src/State.antt =====
-- agent-core/state.py: what flows through the orchestrator's graph. A key that is not set is `none`.
-- `plan` and `step_outputs`, which no node of the graph reads, and the keys of the older safety check
-- are left out.
use realityai_agents.Prelude.{String, Bool, Option, none, some, List, [], ◌∷◌}
use realityai_agents.Python.{Value, Args}
use realityai_agents.Outer.Schemas.{OuterSafetyResult}
use realityai_agents.Preprocessing.Schemas.{Message, RewrittenQuery}
use realityai_agents.Preprocessing.CorefResolver.{last_message}
use realityai_agents.OutputFilter.{OutputFilterResult}

pub record ToolCall : Type 0 where
  pub tool_name : String
  pub arguments : Args
  pub result : Option Value
  pub success : Bool
  pub error : Option String

pub record AgentState (C : Type 0) : Type 0 where
  pub messages : Option (List Message)
  pub intent : Option Value
  pub intent_confidence : Option Value
  pub selected_agent : Option String
  pub user_role : Option String
  pub outer_safety_result : Option OuterSafetyResult
  pub rewritten_query : Option (RewrittenQuery C)
  pub user_query_normalized : Option String
  pub tool_calls : List ToolCall
  pub response : Option String
  pub output_filter_result : Option OutputFilterResult
  pub user_id : Option String
  pub session_id : Option String
  pub requires_approval : Option Bool
  pub approval_status : Option String

-- What an agent returns for the state.
pub record AgentUpdate : Type 0 where
  pub response : String
  pub tool_calls : List ToolCall

abbrev pub messages_or_empty : Option (List Message) → List Message
messages_or_empty none = []
messages_or_empty (some ms) = ms

-- `messages[-1].content`, or the empty text
abbrev pub last_or_empty : List Message → String
last_or_empty [] = ""
last_or_empty (m ∷ ms) = (last_message m ms).content
