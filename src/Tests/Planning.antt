-- ===== src/Tests/Planning.antt =====
-- A plan of four steps: two queries, what a reasoning step finds in them, and an enrolment after it.
use mathlib.Core.List.{Memᴰ}
use realityai_agents.Prelude.{
  Option, ℕ, String, ◌≤◌, ◌≡◌, refl, subst, ◌↔◌, arith, none, some, true, false, List, [], ◌∷◌,
  ◌==◌, ltb, ◌*◌, ◌+◌, length, All, map, ◌+++◌,
}
use realityai_agents.Tests.Samples.{env, runtime, no_effects, enroll_args, session_of}
use realityai_agents.Python.{Py, ok, raise, value_error, type_error, str, strings, ok_inj}
use realityai_agents.Outer.Schemas.{SessionContext}
use realityai_agents.State.{AgentState}
use realityai_agents.Action.Step.Gated.{Permitted}
use realityai_agents.Action.Step.Passed.{denied_flag}
use realityai_agents.Planning.Plan.{
  AgentType, query, reasoning, action, canvas, degree_db, PlanStep, Plan, ids_of, has, is_set,
  validate_dag, validate_step, check_missing, check_cycle, kahn,
}
use realityai_agents.Planning.Plan.Graph.{mult}
use realityai_agents.Planning.Plan.Valid.{IsDag, validate_dag-ok_iff}
use realityai_agents.Planning.Plan.Layers.{topological_layers}
use realityai_agents.Planning.Plan.Layers.NextLayer.{IsOf}
use realityai_agents.Planning.Plan.Layers.Sound.{Layered, ids_in, topological_layers-Layered}
use realityai_agents.Planning.Outputs.{Output, chunks, Document, Param, plain, get_output, StepEnv}
use realityai_agents.Planning.Params.{Params, param_or_blank}
use realityai_agents.Planning.Syllabus.{
  chunk_of, primary_query, expansions, upper_or_none, query_syllabus_rag,
}
use realityai_agents.Planning.Syllabus.Dedup.{IsRanking}
use realityai_agents.Planning.Syllabus.Ranked.{chunk_for, IsBest, query_syllabus_rag-IsBest}
use realityai_agents.Planning.Node.{StepArgs, step_node}
use realityai_agents.Planning.Node.Recorded.{request_of, step_node-success_iff}
use realityai_agents.Planning.Run.{PlanAnswer, planned, make_plan, build_plan, emitted, run_plan}
use realityai_agents.Planning.Run.Limit.{run_plan-ok_iff}
use realityai_agents.Planning.Run.Complete.{named, name_of, run_plan_complete}
use realityai_agents.Planning.Agent
use realityai_agents.Planning.Agent.{PlanningUpdate, run_planning_agent}
use realityai_agents.Planning.Agent.Session.{Guarded, run_planning_agent-calls}
use realityai_agents.Planning.Agent.Response.{IsReport, run_planning_agent-IsReport}

abbrev step_of : ℕ → List ℕ → AgentType → PlanStep
step_of id deps kind = record {
  step_id = id;
  description = "a step";
  depends_on = deps;
  agent_type = kind;
  query_source = none;
  query_params = none;
  reasoning_inputs = none;
  reasoning_template = none;
  action_tool = none;
  action_args = none;
  solver_type = none;
  solver_inputs = none;
  semantic_query = none;
  query_expansion = none;
}

abbrev transcript_step : PlanStep
transcript_step = record (step_of 0 [] query) {
  query_source = some canvas;
  query_params = some (("user_id", str "S002") ∷ []);
}

abbrev program_step : PlanStep
program_step = record (step_of 1 [] query) {
  query_source = some degree_db;
  query_params = some (("major", str "CS") ∷ []);
}

abbrev gap_step : PlanStep
gap_step = record (step_of 2 (1 ∷ 0 ∷ []) reasoning) {
  reasoning_inputs = some (0 ∷ 1 ∷ []);
  reasoning_template = some "extract_unsatisfied_elective_pool";
}

abbrev enroll_step : PlanStep
enroll_step = record (step_of 3 (2 ∷ []) action) {
  action_tool = some "enrollment_modify";
  action_args = some enroll_args;
}

-- The step that depends on others comes first in the text of the plan.
abbrev sample : Plan
sample = record {
  steps = enroll_step ∷ gap_step ∷ transcript_step ∷ program_step ∷ [];
  reasoning = "enrol after a look at the gaps";
}

abbrev layers : List (List PlanStep)
layers = (transcript_step ∷ program_step ∷ []) ∷ (gap_step ∷ []) ∷ (enroll_step ∷ []) ∷ []

validate_dag-ok_iff_example : (validate_dag sample ≡ ok sample) ↔ IsDag sample.steps
validate_dag-ok_iff_example = validate_dag-ok_iff sample

accepted : validate_dag sample ≡ ok sample
unfolding validate_dag check_missing check_cycle kahn
accepted = refl

laid_out : topological_layers sample ≡ ok layers
unfolding topological_layers
laid_out = refl

-- A plan with a cycle is refused.
refused :
    validate_dag
      (record { steps = step_of 0 (1 ∷ []) query ∷ step_of 1 (0 ∷ []) query ∷ []; reasoning = "" })
    ≡ raise (value_error "plan contains a cycle")
unfolding validate_dag check_missing check_cycle kahn
refused = refl

topological_layers-Layered_example :
    (ls : List (List PlanStep)) × (topological_layers sample ≡ ok ls)
    × Layered [] ls
    × All (λ layer. All (IsOf sample.steps) layer) ls
    × ((id : ℕ) → mult id (ids_in ls) ≡ mult id (ids_of sample.steps))
topological_layers-Layered_example = topological_layers-Layered sample accepted

abbrev found : String → ℕ → Document ℕ
found id score = record { doc_id = id; content = "from " +++ id; score = score; identity = 0 }

abbrev step_env : StepEnv ℕ
step_env = record {
  rank_zero = 0;
  rank_of = λ n c. 100 * n + c;
  rank_below = ltb;
  ends_with = λ t u. t == u;
  inner_text = λ t. t;
  int_of = λ t. raise (value_error "invalid literal for int()");
  set_of = λ t. ok [];
  constraints_of = λ p. raise (value_error "constraints");
  exn_text = λ e. "error";
  upper = λ t. t;
  strip = λ t. t;
  param_text = λ p. "";
  items_of = λ p. raise (type_error "not iterable");
  retrieve = λ q course. ok (found "a" 3 ∷ found "b" 5 ∷ found "a" 4 ∷ []);
  action_env = λ id. env;
}

abbrev student : SessionContext
student = session_of "S002" "student"

run_plan-ok_iff_example :
    ((run_plan step_env (some student) 25 sample no_effects).0 ≡ ok tt) ↔ (length layers ≤ 25)
run_plan-ok_iff_example =
    run_plan-ok_iff step_env (some student) 25 sample layers no_effects laid_out

run_plan_complete_example :
    ((run_plan step_env (some student) 25 sample no_effects).0 ≡ ok tt)
    × ((ran : List PlanStep) × All (λ s. Memᴰ s sample.steps) ran
        × ((id : ℕ) → mult id (ids_of ran) ≡ mult id (ids_of sample.steps))
        × (map named (run_plan step_env (some student) 25 sample no_effects).1.tool_calls
            ≡ map name_of ran)
        × ((id : ℕ)
            → is_set (
                get_output id
                  (run_plan step_env (some student) 25 sample no_effects).1.step_outputs)
              ≡ has id (ids_of sample.steps)))
run_plan_complete_example =
    run_plan_complete step_env (some student) 25 sample layers no_effects accepted laid_out
      (omega arith)

step_node-success_iff_example :
    ((step_node step_env enroll_step [] (some student) no_effects).0.call.success ≡ true)
    ↔ Permitted env (request_of student enroll_step)
step_node-success_iff_example =
    step_node-success_iff step_env student enroll_step [] no_effects refl
      (λ raw e. subst (λ r. denied_flag r ≡ false) (ok_inj e) refl)

abbrev json : StepArgs → String
json args = "{}"

abbrev request : AgentState ℕ
request = record {
  messages = some (record { role = "human"; content = "plan my term" } ∷ []);
  intent = none;
  intent_confidence = none;
  selected_agent = none;
  user_role = some "student";
  outer_safety_result = none;
  rewritten_query = none;
  user_query_normalized = none;
  tool_calls = [];
  response = none;
  output_filter_result = none;
  user_id = some "S002";
  session_id = some "sess-1";
  requires_approval = none;
  approval_status = none;
}

abbrev model : String → Py (PlanAnswer × String)
model words = ok (emitted "enrol after a look at the gaps" (ok sample.steps), "{…}")

run_planning_agent-calls_example :
    Guarded step_env
      (Agent.session_of request)
      no_effects
      (run_planning_agent runtime json step_env 25 model request no_effects).1
run_planning_agent-calls_example =
    run_planning_agent-calls runtime json step_env 25 model request no_effects

answered : Agent.plan_for runtime json step_env 25 model request ≡ ok (planned sample, "{…}")
unfolding make_plan build_plan validate_step validate_dag check_missing check_cycle kahn
answered = refl

run_planning_agent-IsReport_example :
    (u : PlanningUpdate ℕ) × ((run_planning_agent runtime json step_env 25 model request
        no_effects).0
      ≡ ok u)
    × IsReport runtime json sample u
run_planning_agent-IsReport_example =
    run_planning_agent-IsReport runtime json step_env 25 model request sample "{…}" layers
      no_effects answered laid_out (omega arith)

abbrev syllabus_params : Params ℕ
syllabus_params =
    ("course_id", plain (str "CS101"))
    ∷ ("topic", plain (str "loops"))
    ∷ ("_query_expansion", plain (strings ("for" ∷ "while" ∷ [])))
    ∷ []

-- The best scores come first.
abbrev syllabus : Output ℕ
syllabus = chunks (map (chunk_of (some "CS101")) (found "b" 5 ∷ found "a" 4 ∷ []))

syllabus_run : query_syllabus_rag step_env syllabus_params ≡ ok syllabus
unfolding query_syllabus_rag
syllabus_run = refl

ltb-IsRanking : IsRanking ltb
ltb-IsRanking = record { asym = λ x y h. ground arith; trans = λ x y z h k. ground arith }

query_syllabus_rag-IsBest_example :
    (course : Option String) × (more : List (Param ℕ)) × (docs : List (Document ℕ)) × (upper_or_none
        step_env
        (param_or_blank syllabus_params "course_id")
      ≡ ok course)
    × (expansions step_env syllabus_params ≡ ok more)
    × (syllabus ≡ chunks (map (chunk_for course) docs))
    × IsBest step_env course (primary_query step_env syllabus_params ∷ more) docs
query_syllabus_rag-IsBest_example =
    query_syllabus_rag-IsBest step_env ltb-IsRanking syllabus_params syllabus_run
