-- ===== src/Planning/Agent.antt =====
-- agent-core/agents/planning_agent.py, lines 432 to 500: the planning agent. `json_of` is `json.dumps`
-- of a step's arguments, and `answer` the model, with what its answer parses to and the answer itself.
pub mod Markers
pub mod Session
pub mod Response
use realityai_agents.Prelude.{
  ℕ, String, Bool, true, false, ◌&&◌, Option, none, some, List, [], ◌∷◌, ◌++◌, map, if◌then◌else◌,
  decimal, join, starts_with, ◌==◌, ◌+++◌,
}
use realityai_agents.Python.{Runtime, str_of, Py, ok, raise, ◌>>=◌, key_error, other_error}
use realityai_agents.Outer.Schemas.{SessionContext}
use realityai_agents.Outer.Node.{default_to}
use realityai_agents.Preprocessing.Schemas.{Message}
use realityai_agents.Preprocessing.CorefResolver.{last_message}
use realityai_agents.State.{AgentState}
use realityai_agents.Action.Step.{Effects}
use realityai_agents.Planning.Plan.{PlanStep, Plan, filled_text}
use realityai_agents.Planning.Outputs.{Outputs, StepEnv}
use realityai_agents.Planning.Node.{StepArgs, StepCall, step_label, step_args}
use realityai_agents.Planning.Run.{
  PlanExecState, run_plan, PlanAnswer, PlanOrText, planned, no_plan, make_plan,
}

-- `state["messages"][-1].content`
abbrev last_content : Option (List Message) → Py String
last_content none = raise (key_error "messages")
last_content (some []) = raise (other_error "list index out of range")
last_content (some (m ∷ ms)) = ok (last_message m ms).content

abbrev text_or : Option String → String → String
text_or none d = d
text_or (some t) d = if t == "" then d else t

abbrev pub query_of : {C : Type 0} → AgentState C → Py String
query_of state =
    if filled_text state.user_query_normalized
    then ok (text_or state.user_query_normalized "")
    else last_content state.messages

abbrev pub session_of : {C : Type 0} → AgentState C → SessionContext
session_of state = record {
  user_id = default_to "" state.user_id;
  session_id = default_to "" state.session_id;
  user_role = text_or state.user_role "student";
  tenant_id = none;
}

-- The dict that the agent returns.
pub record PlanningUpdate (R : Type 0) : Type 0 where
  pub response : String
  pub tool_calls : List (StepCall R)
  pub plan : List PlanStep
  pub step_outputs : Outputs R

module _ {R : Type 0} (rt : Runtime) (json_of : StepArgs → String) where
  abbrev pub is_call_of : PlanStep → StepCall R → Bool
  is_call_of s c =
      (c.tool_name == step_label s.agent_type s)
      && (json_of c.arguments == json_of (step_args s.agent_type s))

  -- `tc_by_label.get(key)`: of the calls with one key, the dict has the last.
  abbrev pub find_call : PlanStep → List (StepCall R) → Option (StepCall R)
  find_call s [] = none
  find_call s (c ∷ cs) = elim (find_call s cs) [
    | some d ↦ some d
    | none ↦ if is_call_of s c then some c else none
  ]

  abbrev pub marker : Option (StepCall R) → String
  marker none = "?"
  marker (some c) = if c.success then "OK" else "FAILED (" +++ (str_of rt c.error +++ ")")

  abbrev pub step_line : List (StepCall R) → PlanStep → String
  step_line calls s =
      "Step "
      +++ (decimal s.step_id
          +++ (": " +++ (s.description +++ (" — " +++ marker (find_call s calls)))))

  abbrev pub plan_response : Plan → List (StepCall R) → String
  plan_response p calls =
      join "\n" (("**Plan:** " +++ p.reasoning) ∷ "" ∷ map (step_line calls) p.steps)

  -- Without a plan: the reasoning, or the model's own words.
  abbrev without_plan : String → String → PlanningUpdate R
  without_plan reasoning raw = record {
    response =
        if starts_with reasoning "Plan validation failed"
        then reasoning
        else (if reasoning == "" then raw else reasoning);
    tool_calls = [];
    plan = [];
    step_outputs = [];
  }

  abbrev pub with_plan : Plan → PlanExecState R → PlanningUpdate R
  with_plan p st = record {
    response = plan_response p st.tool_calls;
    tool_calls = st.tool_calls;
    plan = p.steps;
    step_outputs = st.step_outputs;
  }

  module _ (env : StepEnv R) (limit : ℕ) (answer : String → Py (PlanAnswer × String)) where
    abbrev pub after_run : Plan → Py (Unit {0}) × PlanExecState R → Py (PlanningUpdate R) × Effects
    after_run p (ok u, st) = (ok (with_plan p st), st.effects)
    after_run p (raise e, st) = (raise e, st.effects)

    -- From what the model has planned.
    unfoldable pub execute :
        SessionContext → Py (PlanOrText × String) → Effects → Py (PlanningUpdate R) × Effects
    execute session (raise e) w = (raise e, w)
    execute session (ok (no_plan reasoning, raw)) w = (ok (without_plan reasoning raw), w)
    execute session (ok (planned p, raw)) w = after_run p (run_plan env (some session) limit p w)

    abbrev pub plan_for : {C : Type 0} → AgentState C → Py (PlanOrText × String)
    plan_for state = do
      text ← query_of state
      (parsed, raw) ← answer text
      outcome ← make_plan env.exn_text parsed
      ok (outcome, raw)

    unfoldable pub run_planning_agent :
        {C : Type 0} → AgentState C → Effects → Py (PlanningUpdate R) × Effects
    unfolding execute
    run_planning_agent state w = execute (session_of state) (plan_for state) w
