-- ===== src/Degradation.antt =====
-- agent-core/agents/degradation.py: failure detection, the retry and the escalation. The agent under
-- its time limit is a parameter, a step on the world `W`; so are regular expressions, and the order
-- in which Python lists a set. `simplify_prompt`, which nothing calls, is left out.
pub mod Attempts
use realityai_agents.Prelude.{
  ℕ, zero, suc, String, Bool, true, false, not, Option, none, some, List, [], ◌∷◌, ◌++◌, map,
  if◌then◌else◌, ◌&&◌, ◌+◌, any, contains, is_empty, ◌+++◌,
}
use realityai_agents.Python.{Exn, timeout_error, Py, ok, raise}
use realityai_agents.State.{ToolCall}

-- `search p t` is `re.search(p, t)`, `course_ids` is the `re.findall` of `detect_hallucination`,
-- and `set_list` is `list(set(…))`.
pub record Scanner : Type 0 where
  pub lower : String → String
  pub upper : String → String
  pub search : String → String → Bool
  pub course_ids : String → List String
  pub set_list : List String → List String

pub data FailureType : Type 0 where
  timeout refusal hallucination tool_error : FailureType

pub record FailureResult : Type 0 where
  pub failure_type : FailureType
  pub message : String
  pub original_response : String

pub record EscalationTicket : Type 0 where
  pub user_query : String
  pub agent_type : String
  pub tools_attempted : List String
  pub errors : List FailureResult
  pub instructor_name : String

-- A tool call as an object, or as a dict with some of the keys "tool_name", "success" and "error".
pub data Call : Type 0 where
  call : ToolCall → Call
  entry : Option String → Option Bool → Option (Option String) → Call

-- The dict that an agent returns.
pub record AgentResult : Type 0 where
  pub response : Option String
  pub tool_calls : Option (List Call)

-- The agent's own dict, or the one with the key "escalation".
pub data Outcome : Type 0 where
  returned : AgentResult → Outcome
  escalated : String → EscalationTicket → Outcome

abbrev pub refusal_patterns : List String
refusal_patterns =
    "i can(?:'t| not) (?:help|assist|do that)" ∷ "i(?:'m| am) (?:not able|unable) to"
    ∷ "(?:sorry|apologies),? (?:but )?i (?:can(?:'t| not)|don(?:'t| not))"
    ∷ "as an ai,? i (?:can(?:'t| not)|don(?:'t| not))" ∷ "i (?:must |need to )?(?:decline|refuse)"
    ∷ []

abbrev pub response_of : Option String → String
response_of none = ""
response_of (some t) = t

abbrev pub calls_of : Option (List Call) → List Call
calls_of none = []
calls_of (some calls) = calls

abbrev pub name_or : String → Option String → String
name_or d none = d
name_or d (some n) = n

abbrev pub tool_name_of : Call → String
tool_name_of (call tc) = tc.tool_name
tool_name_of (entry name success error) = name_or "" name

-- `tc.get("success", True)`
abbrev pub succeeded : Call → Bool
succeeded (call tc) = tc.success
succeeded (entry name none error) = true
succeeded (entry name (some s) error) = s

abbrev shown : Option String → String
shown none = "None"
shown (some t) = t

abbrev error_text : Call → String
error_text (call tc) = shown tc.error
error_text (entry name success none) = "unknown error"
error_text (entry name success (some error)) = shown error

abbrev reported_name : Call → String
reported_name (call tc) = tc.tool_name
reported_name (entry name success error) = name_or "unknown" name

unfoldable pub detect_tool_error : List Call → Option FailureResult
detect_tool_error [] = none
detect_tool_error (tc ∷ calls) =
    let rest = detect_tool_error calls in
    if not (succeeded tc)
    then some record {
      failure_type = tool_error;
      message = "Tool '" +++ (reported_name tc +++ ("' failed: " +++ error_text tc));
      original_response = "";
    }
    else rest

-- The name in it is the default of `instructor_name`.
abbrev pub escalation_text : String
escalation_text =
    "I've forwarded your request to your instructor. They'll be able to help you with this."

abbrev pub timeout_failure : FailureResult
timeout_failure = record {
  failure_type = timeout;
  message = "Agent timed out after 30s";
  original_response = "";
}

abbrev pub tool_names : AgentResult → List String
tool_names result = map tool_name_of (calls_of result.tool_calls)

module _ (scan : Scanner) where
  unfoldable pub detect_refusal : String → Bool
  detect_refusal response = any (λ p. scan.search p (scan.lower response)) refusal_patterns

  unfoldable pub detect_hallucination : String → List String → Bool
  detect_hallucination response context_ids =
      if is_empty context_ids
      then false
      else any (λ id. not (contains id context_ids)) (scan.course_ids (scan.upper response))

  module _ (context_ids : List String) where
    unfoldable pub failure_of : AgentResult → Option FailureResult
    failure_of result =
        let response = response_of result.response in
        if detect_refusal response
        then some record {
          failure_type = refusal;
          message = "LLM refused the request";
          original_response = response;
        }
        else (if not (is_empty context_ids) && detect_hallucination response context_ids
            then some record {
              failure_type = hallucination;
              message = "Response references unknown entities";
              original_response = response;
            }
            else detect_tool_error (calls_of result.tool_calls))

    module _ {W : Type 0} (agent : W → Py AgentResult × W) (agent_type user_query : String) where
      abbrev pub ticket : List FailureResult → List String → EscalationTicket
      ticket errors tools_attempted = record {
        user_query = user_query;
        agent_type = agent_type;
        tools_attempted = scan.set_list tools_attempted;
        errors = errors;
        instructor_name = "your instructor";
      }

      abbrev pub escalate : List FailureResult → List String → Outcome
      escalate errors tools_attempted = escalated escalation_text (ticket errors tools_attempted)

      -- The end of a round, where `again` is what the loop does next: it stops on no failure.
      unfoldable pub on_result :
          (List FailureResult → List String → W → Py Outcome × W)
          → List FailureResult
          → List String
          → AgentResult
          → Option FailureResult
          → W
          → Py Outcome × W
      on_result again errors tools result none w = (ok (returned result), w)
      on_result again errors tools result (some failure) w =
          again (errors ++ failure ∷ []) (tools ++ tool_names result) w

      -- The rest of a round once the agent has answered.
      unfoldable pub on_answer :
          (List FailureResult → List String → W → Py Outcome × W)
          → List FailureResult
          → List String
          → Py AgentResult
          → W
          → Py Outcome × W
      on_answer again errors tools (raise (timeout_error t)) w =
          again (errors ++ timeout_failure ∷ []) tools w
      on_answer again errors tools (raise e) w = (raise e, w)
      on_answer again errors tools (ok result) w =
          on_result again errors tools result (failure_of result) w

      -- The loop, with the attempts that are left.
      unfoldable pub attempts : ℕ → List FailureResult → List String → W → Py Outcome × W
      attempts zero errors tools w = (ok (escalate errors tools), w)
      attempts (suc left) errors tools w =
          on_answer (attempts left) errors tools (agent w).0 (agent w).1

      abbrev pub max_retries : ℕ
      max_retries = 1

      unfoldable pub execute_with_degradation : W → Py Outcome × W
      unfolding attempts
      execute_with_degradation w = attempts (max_retries + 1) [] [] w
