-- ===== src/Planning/Node.antt =====
-- agent-core/agents/planning_agent.py, lines 105 to 162 and 300 to 341: the node of a step. Whatever
-- the step raises is put out as its result, so a node returns in any case.
pub mod Recorded
use realityai_agents.Prelude.{
  ℕ, String, Bool, true, false, ◌&&◌, not, Option, none, some, List, [], ◌∷◌, if◌then◌else◌, length,
  sorted, ◌==◌, ◌+++◌,
}
use realityai_agents.Python.{Value, null, str, Args, Py, ok, raise, truthy, get_or}
use realityai_agents.Outer.Schemas.{SessionContext}
use realityai_agents.Reasoning.Solver.{course_codes, ScheduleOption}
use realityai_agents.Reasoning.GapAnalysis.{completed_of}
use realityai_agents.Action.Step.{Effects}
use realityai_agents.Planning.Plan.{
  AgentType, query, reasoning, action, constraint_solver, QuerySource, canvas, degree_db,
  catalog_db, syllabus_rag, SolverType, schedule_csp, prereq_check, PlanStep,
}
use realityai_agents.Planning.Outputs.{
  Output, transcript, program, sections, options, action_result, failed, Outputs, StepEnv,
}
use realityai_agents.Planning.Steps.{args_or_none, dispatch_step}

abbrev source_text : QuerySource → String
source_text canvas = "canvas"
source_text degree_db = "degree_db"
source_text catalog_db = "catalog_db"
source_text syllabus_rag = "syllabus_rag"

abbrev solver_text : Option SolverType → String
solver_text none = "None"
solver_text (some schedule_csp) = "schedule_csp"
solver_text (some prereq_check) = "prereq_check"

abbrev query_label : Option QuerySource → String
query_label none = "query"
query_label (some source) = "query/" +++ source_text source

abbrev action_label : Option String → String
action_label none = "action"
action_label (some tool) = if tool == "" then "action" else tool

abbrev template_text : Option String → String
template_text none = "None"
template_text (some t) = t

-- `_step_label`
abbrev pub step_label : AgentType → PlanStep → String
step_label query s = query_label s.query_source
step_label action s = action_label s.action_tool
step_label reasoning s = "reasoning/" +++ template_text s.reasoning_template
step_label constraint_solver s = "solver/" +++ solver_text s.solver_type

-- What `_step_args` returns: the step's own dict, or the one of a reasoning step.
pub data StepArgs : Type 0 where
  given : Args → StepArgs
  reasoning_args : (inputs : Option (List ℕ)) → (template : Option String) → StepArgs

abbrev pub step_args : AgentType → PlanStep → StepArgs
step_args query s = given (args_or_none s.query_params)
step_args action s = given (args_or_none s.action_args)
step_args reasoning s = reasoning_args s.reasoning_inputs s.reasoning_template
step_args constraint_solver s = given (args_or_none s.solver_inputs)

-- What `_summarize_for_trace` returns: a short dict, or the result as it is.
pub data Summary (R : Type 0) : Type 0 where
  of_transcript : (completed : List String) → Summary R
  of_program : (major : String) → (track : Option String) → Summary R
  of_sections : (codes : List String) → Summary R
  of_options : (count : ℕ) → (top_courses : List String) → Summary R
  as_it_is : Output R → Summary R

abbrev pub summarize_for_trace : {R : Type 0} → Output R → Summary R
summarize_for_trace (transcript t) = of_transcript (sorted (completed_of t))
summarize_for_trace (program p) = of_program p.major p.track
summarize_for_trace (sections (c ∷ cs)) = of_sections (course_codes (c ∷ cs))
summarize_for_trace (options (o ∷ os)) = of_options (length (o ∷ os)) (course_codes o.courses)
summarize_for_trace o = as_it_is o

-- The `ToolCall` of a step; `error` is `null` where there is none.
pub record StepCall (R : Type 0) : Type 0 where
  pub tool_name : String
  pub arguments : StepArgs
  pub result : Option (Summary R)
  pub success : Bool
  pub error : Value

-- The node's update: the entry of `step_outputs` under the step's id, and the one tool call.
pub record NodeUpdate (R : Type 0) : Type 0 where
  pub output : Output R
  pub call : StepCall R

-- `result.get("denied_by_inner_safety")`, for the dict of an action step.
abbrev pub is_denial : {R : Type 0} → AgentType → Output R → Bool
is_denial action (action_result args) = truthy (get_or args "denied_by_inner_safety" null)
is_denial kind o = false

abbrev denial_text : {R : Type 0} → Output R → Value
denial_text (action_result args) =
    if truthy (get_or args "message" null)
    then get_or args "message" null
    else get_or args "reason_code" null
denial_text o = null

module _ {R : Type 0} (env : StepEnv R) (s : PlanStep) where
  abbrev call_of : Option (Summary R) → Bool → Value → StepCall R
  call_of result success error = record {
    tool_name = step_label s.agent_type s;
    arguments = step_args s.agent_type s;
    result = result;
    success = success;
    error = error;
  }

  unfoldable pub after_dispatch : Py (Output R) → NodeUpdate R
  after_dispatch (raise e) = record {
    output = failed e;
    call = call_of none false (str (env.exn_text e));
  }
  after_dispatch (ok result) =
      if is_denial s.agent_type result
      then record {
        output = result;
        call = call_of (some (summarize_for_trace result)) false (denial_text result);
      }
      else record { output = result; call = call_of (some (summarize_for_trace result)) true null }

  -- The function that `_make_step_node` returns.
  unfoldable pub step_node : Outputs R → Option SessionContext → Effects → NodeUpdate R × Effects
  unfolding after_dispatch dispatch_step
  step_node os session w =
      let (result, w') = dispatch_step env s.agent_type s os session w in
      (after_dispatch result, w')
