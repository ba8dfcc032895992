-- ===== src/Planning/Run.antt =====
-- agent-core/agents/planning_agent.py, lines 73 to 98 and 344 to 424: the compiled plan as the graph's
-- runtime executes it, and the model's answer as a plan. The runtime runs, superstep by superstep, the nodes
-- all of whose sources have run, at most `limit` times; here those of a superstep run one after the
-- other in the plan's order, each on the outputs of the supersteps before.
pub mod Supersteps
pub mod Limit
pub mod Complete
pub mod Safe
use realityai_agents.Prelude.{
  ℕ, zero, suc, String, Bool, true, false, ◌&&◌, not, Option, none, some, List, [], ◌∷◌, ◌++◌,
  if◌then◌else◌, eqb, all, keep, is_empty, decimal, join, lookup, starts_with, ◌==◌, ◌+++◌,
}
use realityai_agents.Python.{
  Value, null, Py, ok, raise, ◌>>=◌, Exn, attribute_error, other_error, truthy, str_of, Runtime,
}
use realityai_agents.Outer.Schemas.{SessionContext}
use realityai_agents.Outer.Node.{default_to}
use realityai_agents.State.{AgentState, messages_or_empty}
use realityai_agents.Action.Step.{Effects}
use realityai_agents.Planning.Plan.{PlanStep, Plan, has, ids_of, validate_step, validate_dag}
use realityai_agents.Planning.Outputs.{Output, Outputs, StepEnv}
use realityai_agents.Planning.Node.{
  StepArgs, StepCall, NodeUpdate, step_label, step_args, step_node,
}

abbrev pub put_output : {R : Type 0} → ℕ → Output R → Outputs R → Outputs R
put_output id o [] = (id, o) ∷ []
put_output id o ((i, p) ∷ os) =
    let rest = put_output id o os in if eqb i id then (i, o) ∷ os else (i, p) ∷ rest

-- `_merge_step_outputs`: the entries of the second dict win.
abbrev pub merge_step_outputs : {R : Type 0} → Outputs R → Outputs R → Outputs R
merge_step_outputs left [] = left
merge_step_outputs left ((i, o) ∷ right) = merge_step_outputs (put_output i o left) right

-- `PlanExecState`, with what the steps leave behind outside it.
pub record PlanExecState (R : Type 0) : Type 0 where
  pub step_outputs : Outputs R
  pub tool_calls : List (StepCall R)
  pub effects : Effects

-- The edges of `compile_plan_graph`: a step waits for all steps that it depends on.
abbrev pub is_triggered : List ℕ → PlanStep → Bool
is_triggered done s = not (has s.step_id done) && all (λ d. has d done) s.depends_on

abbrev pub triggered : List ℕ → List PlanStep → List PlanStep
triggered done ss = keep (is_triggered done) ss

module _ {R : Type 0} (env : StepEnv R) (session : Option SessionContext) where
  -- An update is merged by the reducers: the outputs as dicts, the calls by `+`.
  abbrev pub merged : PlanStep → NodeUpdate R → Effects → PlanExecState R → PlanExecState R
  merged s u w st = record {
    step_outputs = merge_step_outputs st.step_outputs ((s.step_id, u.output) ∷ []);
    tool_calls = st.tool_calls ++ u.call ∷ [];
    effects = w;
  }

  unfoldable pub superstep : List PlanStep → Outputs R → PlanExecState R → PlanExecState R
  superstep [] before st = st
  superstep (s ∷ ss) before st =
      let (u, w) = step_node env s before session st.effects in
      superstep ss before (merged s u w st)

  abbrev limit_error : Exn
  limit_error = other_error "GraphRecursionError"

  -- A superstep's outcome: nothing left to run, or what the supersteps to come leave.
  abbrev pub continued : {A : Type 0} → Bool → A → A → A
  continued true here later = here
  continued false here later = later

  -- The runtime's loop, where `done` are the steps that have run.
  unfoldable pub run_graph :
      ℕ → List PlanStep → List ℕ → PlanExecState R → Py (Unit {0}) × PlanExecState R
  run_graph zero ss done st =
      continued (is_empty (triggered done ss)) (ok tt, st) (raise limit_error, st)
  run_graph (suc limit) ss done st =
      continued (is_empty (triggered done ss)) (ok tt, st)
        (run_graph limit ss (ids_of (triggered done ss) ++ done)
          (superstep (triggered done ss) st.step_outputs st))

  abbrev pub start_state : Effects → PlanExecState R
  start_state w = record { step_outputs = []; tool_calls = []; effects = w }

  -- `compile_plan_graph(plan).ainvoke(…)`
  unfoldable pub run_plan : ℕ → Plan → Effects → Py (Unit {0}) × PlanExecState R
  unfolding run_graph
  run_plan limit p w = run_graph limit p.steps [] (start_state w)

-- What the model's answer parses to: no JSON, JSON that is no dict, or a dict with its reasoning and
-- its steps, where pydantic may refuse the type of a field.
pub data PlanAnswer : Type 0 where
  no_json : PlanAnswer
  no_dict : PlanAnswer
  emitted : (reasoning : String) → (steps : Py (List PlanStep)) → PlanAnswer

abbrev pub validate_steps : List PlanStep → Py (List PlanStep)
validate_steps [] = ok []
validate_steps (s ∷ ss) = do t ← validate_step s; ts ← validate_steps ss; ok (t ∷ ts)

unfoldable pub build_plan : String → Py (List PlanStep) → Py Plan
build_plan reasoning steps = do
  raw ← steps
  ss ← validate_steps raw
  validate_dag (record { steps = ss; reasoning = reasoning })

-- The plan, or the reasoning that `make_plan` returns in its place.
pub data PlanOrText : Type 0 where
  planned : Plan → PlanOrText
  no_plan : (reasoning : String) → PlanOrText

module _ (exn_text : Exn → String) where
  abbrev pub built : Py Plan → PlanOrText
  built (ok p) = planned p
  built (raise e) = no_plan ("Plan validation failed: " +++ exn_text e)

  unfoldable pub make_plan : PlanAnswer → Py PlanOrText
  unfolding build_plan
  make_plan no_json = ok (no_plan "")
  make_plan no_dict = raise (attribute_error "get")
  make_plan (emitted reasoning (ok [])) = ok (no_plan reasoning)
  make_plan (emitted reasoning steps) = ok (built (build_plan reasoning steps))
