-- ===== src/Planning/Steps.antt =====
-- agent-core/agents/planning_agent.py, lines 185 to 292: the steps of a plan. What a step hands on is
-- an `Output`; pydantic's check of the constraints is a field of the environment, and so is what
-- Python's texts offer for a reference to a step.
use realityai_agents.Prelude.{
  ℕ, String, Bool, true, false, ◌&&◌, Option, none, some, List, [], ◌∷◌, if◌then◌else◌, is_empty,
  decimal, join, lookup, starts_with, ◌+++◌, ◌==◌,
}
use realityai_agents.Python.{
  Value, str, strings, nested, Args, Py, ok, raise, ◌>>=◌, value_error, key_error, type_error,
  other_error,
}
use realityai_agents.Outer.Schemas.{SessionContext}
use realityai_agents.Reasoning.Schemas.{StudentTranscript, DegreeProgram, CourseSection}
use realityai_agents.Reasoning.GapAnalysis.{completed_of, compute_unsatisfied}
use realityai_agents.Reasoning.Solver.{ScheduleOption, Ranks, course_codes, solve}
use realityai_agents.Action.Step.{Effects, run_action_step}
use realityai_agents.Planning.Query.{run_query_step}
use realityai_agents.Planning.Outputs.{
  Output, transcript, program, sections, chunks, unsatisfied, options, text, action_result, Outputs,
  output_at, Param, plain, typed, StepEnv,
}
use realityai_agents.Planning.Plan.{
  AgentType, query, reasoning, action, constraint_solver, SolverType, schedule_csp, prereq_check,
  PlanStep,
}

abbrev pub args_or_none : Option Args → Args
args_or_none none = []
args_or_none (some args) = args

abbrev pub text_or_empty : Option String → String
text_or_empty none = ""
text_or_empty (some t) = t

abbrev pub as_output : {R : Type 0} → Py Args × Effects → Py (Output R) × Effects
as_output (ok args, w) = (ok (action_result args), w)
as_output (raise e, w) = (raise e, w)

module _ {R : Type 0} (env : StepEnv R) where
  abbrev pub ranks : Ranks
  ranks = record {
    Rank = R;
    zero_rank = env.rank_zero;
    rank_of = env.rank_of;
    below = env.rank_below;
  }

  -- `_expect`, for the types that it is called with.
  abbrev pub expect_program : List (Output R) → Py DegreeProgram
  expect_program [] = raise (value_error "reasoning step missing input of type DegreeProgram")
  expect_program (program p ∷ os) = ok p
  expect_program (o ∷ os) = expect_program os

  abbrev pub expect_transcript : List (Output R) → Py StudentTranscript
  expect_transcript [] =
      raise (value_error "reasoning step missing input of type StudentTranscript")
  expect_transcript (transcript t ∷ os) = ok t
  expect_transcript (o ∷ os) = expect_transcript os

  -- The recommendation for the first list among the inputs.
  abbrev not_options : Py (Output R)
  not_options = raise (value_error "explain_schedule_recommendation expects list[ScheduleOption]")

  abbrev no_options : Py (Output R)
  no_options = ok (text "No valid schedule options found.")

  abbrev recommended : ScheduleOption R → Py (Output R)
  recommended top = ok (
      text (
        "Recommended schedule: "
        +++ (join ", " (course_codes top.courses)
            +++ (" ("
                +++ (decimal top.total_credits
                    +++ " credits). All listed courses have prereqs met and no time conflicts.")))))

  abbrev pub explain : List (Output R) → Py (Output R)
  explain [] = raise (value_error "reasoning step missing input of type list")
  explain (options [] ∷ os) = no_options
  explain (options (top ∷ rest) ∷ os) = recommended top
  explain (sections [] ∷ os) = no_options
  explain (sections (c ∷ cs) ∷ os) = not_options
  explain (chunks [] ∷ os) = no_options
  explain (chunks (c ∷ cs) ∷ os) = not_options
  explain (unsatisfied [] ∷ os) = no_options
  explain (unsatisfied (u ∷ us) ∷ os) = not_options
  explain (o ∷ os) = explain os

  abbrev pub inputs_at : Outputs R → List ℕ → Py (List (Output R))
  inputs_at os [] = ok []
  inputs_at os (i ∷ is) = do o ← output_at os i; rest ← inputs_at os is; ok (o ∷ rest)

  abbrev ids_or_none : Option (List ℕ) → List ℕ
  ids_or_none none = []
  ids_or_none (some is) = is

  abbrev text_or_none : Option String → String
  text_or_none none = "None"
  text_or_none (some t) = t

  unfoldable pub run_reasoning_step : PlanStep → Outputs R → Py (Output R)
  run_reasoning_step s os = do
    inputs ← inputs_at os (ids_or_none s.reasoning_inputs)
    let template = text_or_none s.reasoning_template
    if template == "extract_unsatisfied_elective_pool"
        then (do
          p ← expect_program inputs
          t ← expect_transcript inputs
          ok (unsatisfied (compute_unsatisfied p t)))
        else (if template == "explain_schedule_recommendation"
            then explain inputs
            else raise (value_error ("unknown reasoning_template: " +++ template)))

  -- `_resolve_solver_inputs`: a text that refers to a step stands for what that step put out.
  abbrev pub is_ref : String → Bool
  is_ref t = starts_with t "<from_step_" && env.ends_with t ">"

  abbrev output_of_ref : Outputs R → Option ℕ → Py (Param R)
  output_of_ref os none = raise (key_error "a negative step")
  output_of_ref os (some i) = do o ← output_at os i; ok (typed o)

  abbrev pub resolve : Outputs R → Value → Py (Param R)
  resolve os (str t) =
      if is_ref t
      then (do i ← env.int_of (env.inner_text t); output_of_ref os i)
      else ok (plain (str t))
  resolve os v = ok (plain v)

  abbrev pub resolve_inputs : Outputs R → Args → Py (List (String × Param R))
  resolve_inputs os [] = ok []
  resolve_inputs os ((k, v) ∷ args) = do
    p ← resolve os v
    rest ← resolve_inputs os args
    ok ((k, p) ∷ rest)

  -- `candidates`: a list of sections, or an empty list.
  abbrev no_sections : Py (List CourseSection)
  no_sections = raise (value_error "schedule_csp expects candidates: list[CourseSection]")

  abbrev pub candidates_of : Option (Param R) → Py (List CourseSection)
  candidates_of (some (typed (sections cs))) = ok cs
  candidates_of (some (typed (chunks []))) = ok []
  candidates_of (some (typed (unsatisfied []))) = ok []
  candidates_of (some (typed (options []))) = ok []
  candidates_of (some (plain (strings []))) = ok []
  candidates_of p = no_sections

  -- `completed`: of a list of objects, which cannot be hashed, there is no set unless it is empty.
  abbrev set_of_objects : Bool → Py (List String)
  set_of_objects true = ok []
  set_of_objects false = raise (type_error "unhashable type")

  abbrev pub completed_set : Option (Param R) → Py (List String)
  completed_set (some (typed (transcript t))) = ok (completed_of t)
  completed_set (some (typed (sections l))) = set_of_objects (is_empty l)
  completed_set (some (typed (chunks l))) = set_of_objects (is_empty l)
  completed_set (some (typed (unsatisfied l))) = set_of_objects (is_empty l)
  completed_set (some (typed (options l))) = set_of_objects (is_empty l)
  completed_set (some (plain (strings l))) = ok l
  completed_set (some (plain (nested t))) = env.set_of t
  completed_set p = ok []

  unfoldable pub solve_schedule : List (String × Param R) → Py (Output R)
  solve_schedule inputs = do
    candidates ← candidates_of (lookup "candidates" inputs)
    completed ← completed_set (lookup "completed" inputs)
    constraints ← env.constraints_of (lookup "constraints" inputs)
    ok (options (solve ranks constraints candidates completed))

  unfoldable pub run_solver_step : Option SolverType → PlanStep → Outputs R → Py (Output R)
  unfolding solve_schedule
  run_solver_step none s os = raise (value_error "unknown solver_type: None")
  run_solver_step (some prereq_check) s os =
      raise (other_error "prereq_check solver is not implemented yet")
  run_solver_step (some schedule_csp) s os = do
    inputs ← resolve_inputs os (args_or_none s.solver_inputs)
    solve_schedule inputs

  -- `_dispatch_step`
  unfoldable pub dispatch_step :
      AgentType → PlanStep → Outputs R → Option SessionContext → Effects → Py (Output R) × Effects
  unfolding run_reasoning_step run_solver_step
  dispatch_step query s os session w = (run_query_step env s os, w)
  dispatch_step action s os session w = as_output (
      run_action_step (env.action_env s.step_id) s.step_id (text_or_empty s.action_tool)
        s.action_args session w)
  dispatch_step reasoning s os session w = (run_reasoning_step s os, w)
  dispatch_step constraint_solver s os session w = (run_solver_step s.solver_type s os, w)
