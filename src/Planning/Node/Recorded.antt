-- ===== src/Planning/Node/Recorded.antt =====
-- What the node of an action step records, against the verdict of the gate.
use realityai_agents.Prelude.{
  ℕ, String, ◌≡◌, refl, ap, ◌∙◌, ◌↔◌, Bool, true, false, not, Option, none, some, if◌then◌else◌,
}
use realityai_agents.Python.{Args, Py, ok, raise}
use realityai_agents.Outer.Schemas.{SessionContext}
use realityai_agents.Inner.Schemas.{InnerSafetyInput}
use realityai_agents.Action.Step.{Effects, Env, run_action_step}
use realityai_agents.Action.Step.Gated.{Permitted}
use realityai_agents.Action.Step.Passed.{passed, denied_flag, passed-run_action_step_iff}
use realityai_agents.Planning.Plan.{action, PlanStep}
use realityai_agents.Planning.Outputs.{Outputs, StepEnv}
use realityai_agents.Planning.Steps.{dispatch_step, args_or_none, text_or_empty, as_output}
use realityai_agents.Planning.Node.{NodeUpdate, after_dispatch, step_node}

-- What an action step asks for.
abbrev pub request_of : SessionContext → PlanStep → InnerSafetyInput
request_of session s = record {
  session = session;
  tool_name = text_or_empty s.action_tool;
  tool_args = args_or_none s.action_args;
}

-- The invocation that an action step asks for.
abbrev pub invocation_of : PlanStep → String × Args
invocation_of s = (text_or_empty s.action_tool, args_or_none s.action_args)

pub none_args :
    (session : SessionContext) (tool_env : Env) (id : ℕ) (tool : String) (args : Option Args)
    (w : Effects)
    → run_action_step tool_env id tool args (some session) w
      ≡ run_action_step tool_env id tool (some (args_or_none args)) (some session) w
unfolding run_action_step
none_args session tool_env id tool none w = refl
none_args session tool_env id tool (some args) w = refl

pub as_output-effects : (R : Type 0) (r : Py Args × Effects) → (as_output {R = R} r).1 ≡ r.1
as_output-effects R (ok args, w) = refl
as_output-effects R (raise e, w) = refl

module _ {R : Type 0} (env : StepEnv R) (session : SessionContext) (s : PlanStep) where
  after_dispatch-success :
      (r : Py Args) (w : Effects)
      → s.agent_type ≡ action
      → (after_dispatch env s (as_output {R = R} (r, w)).0).call.success ≡ passed r
  unfolding after_dispatch
  after_dispatch-success (raise e) w kind = refl
  after_dispatch-success (ok raw) w kind = rw kind (flagged (denied_flag raw) _ _ refl refl)
    where
      flagged :
          (b : Bool) (x y : NodeUpdate R)
          → x.call.success ≡ false
          → y.call.success ≡ true
          → (if b then x else y).call.success ≡ not b
      flagged true x y h k = h
      flagged false x y h k = k

  dispatched :
      (os : Outputs R) (w : Effects)
      → s.agent_type ≡ action
      → (step_node env s os (some session) w).0.call.success
        ≡ passed
            (run_action_step
              (env.action_env s.step_id)
              s.step_id
              (text_or_empty s.action_tool)
              (some (args_or_none s.action_args))
              (some session)
              w).0
  unfolding step_node dispatch_step
  dispatched os w kind =
      let tool_env = env.action_env s.step_id in
      let r =
        run_action_step tool_env s.step_id (text_or_empty s.action_tool) s.action_args
          (some session) w in
      ap (λ k. (after_dispatch env s (dispatch_step env k s os (some session) w).0).call.success)
        kind
      ∙ after_dispatch-success r.0 r.1 kind
      ∙ ap (λ (x : Py Args × Effects). passed x.0)
          (none_args session tool_env s.step_id (text_or_empty s.action_tool) s.action_args w)

  -- Where the tool's own results carry no mark of a denial, an action step is recorded as a success
  -- just when the gate permits its action, whatever the tool made of it.
  pub step_node-success_iff :
      (os : Outputs R) (w : Effects)
      → s.agent_type ≡ action
      → ((raw : Args)
          → (env.action_env s.step_id).invoke
              (text_or_empty s.action_tool)
              (args_or_none s.action_args)
            ≡ ok raw
          → denied_flag raw ≡ false)
      → ((step_node env s os (some session) w).0.call.success ≡ true)
        ↔ Permitted (env.action_env s.step_id) (request_of session s)
  step_node-success_iff os w kind clean = rw (dispatched os w kind) (
      passed-run_action_step_iff (env.action_env s.step_id) (request_of session s) w clean
        s.step_id)
