-- ===== src/Action/Step.antt =====
-- agent-core/agents/action_agent.py, lines 176 to 266: an action step of a plan.
-- `invoke` is `tool_func.invoke`: LangChain's check of the arguments and the tool behind it.
pub mod Gated
pub mod Passed
use realityai_agents.Prelude.{
  ℕ, String, Bool, true, false, not, Option, none, some, List, [], ◌∷◌, ◌++◌, ◌==◌, ◌≡◌, refl,
  if◌then◌else◌, contains, decimal, ◌+++◌,
}
use realityai_agents.Python.{
  Runtime, Value, null, flag, str, Args, Py, ok, raise, Exn, value_error, truthy, get_or, put,
  exn_text,
}
use realityai_agents.Outer.Schemas.{SessionContext}
use realityai_agents.Inner.Schemas.{
  allow, deny, InnerSafetyDecision, InnerSafetyInput, InnerSafetyResult, AuditRecord,
}
use realityai_agents.Inner.LiveState.{Read}
use realityai_agents.Inner.Audit.{
  Stamp, AuditStore, update_audit_for_execution, persist_audit_record,
}
use realityai_agents.Inner.Node.{Outcome, inner_safety_check}

-- What an action leaves behind: the audit store, and the tools invoked with their arguments.
pub record Effects : Type 0 where
  pub store : AuditStore
  pub calls : List (String × Args)

-- A coroutine: its effects stay also where it raises.
abbrev pub Eff {ℓ} : Type ℓ → Type ℓ
Eff A = Effects → Py A × Effects

abbrev pub action_tools : List String
action_tools = "grade_update" ∷ "enrollment_modify" ∷ "assignment_create" ∷ []

abbrev pub default_plan_session : SessionContext
default_plan_session = record {
  user_id = "";
  session_id = "plan-driven-default";
  user_role = "student";
  tenant_id = none;
}

-- The environment of an action: the runtime, the course store, the tools, and what is drawn anew.
pub record Env : Type 0 where
  pub rt : Runtime
  pub read : Read
  pub timeout_text : String
  pub invoke : String → Args → Py Args
  pub stamp : Stamp

module _ (env : Env) where
  abbrev pub gate : InnerSafetyInput → AuditStore → Py Outcome
  gate = inner_safety_check env.rt env.read env.timeout_text env.stamp

  -- The outcome of the invocation: the raw result, whether it succeeded, and the error.
  abbrev pub Attempt : Type 0
  Attempt = Args × Bool × Value

  pub attempt : String → Py Args → Attempt
  attempt tool (ok raw) =
      let succeeded = truthy (get_or raw "success" (flag true)) in
      (raw, succeeded, (if succeeded then null else get_or raw "message" null))
  attempt tool (raise e) = (
    ("success", flag false) ∷ ("operation", str tool) ∷ ("message", str (exn_text env.rt e)) ∷ [],
    false,
    str (exn_text env.rt e),
  )

  pub invoke_and_audit : String → Args → InnerSafetyResult → AuditStore → Eff Args
  unfolding attempt
  invoke_and_audit tool args result store w =
      let (raw, succeeded, error) = attempt tool (env.invoke tool args) in
      let final_audit = update_audit_for_execution result.audit succeeded error in
      (
        ok (put raw "audit_id" (str final_audit.audit_id)),
        record {
          store = persist_audit_record final_audit store;
          calls = w.calls ++ (tool, args) ∷ [];
        },
      )

  abbrev denial : String → InnerSafetyResult → Args
  denial tool result =
      ("success", flag false)
      ∷ ("operation", str tool)
      ∷ ("denied_by_inner_safety", flag true)
      ∷ ("reason_code", str result.final_reason_code)
      ∷ ("message", str result.final_reason_human)
      ∷ ("audit_id", str result.audit.audit_id)
      ∷ []

  abbrev pub on_verdict :
      InnerSafetyDecision → String → Args → InnerSafetyResult → AuditStore → Eff Args
  on_verdict deny tool args result store w = (ok (denial tool result), record w { store = store })
  on_verdict allow tool args result store w = invoke_and_audit tool args result store w

  unfoldable pub after_gate : String → Args → Py Outcome → Eff Args
  unfolding invoke_and_audit
  after_gate tool args (raise e) w = (raise e, w)
  after_gate tool args (ok (result, store)) w =
      on_verdict result.final_decision tool args result store w

  abbrev session_or_default : Option SessionContext → SessionContext
  session_or_default none = default_plan_session
  session_or_default (some session) = session

  abbrev args_or_empty : Option Args → Args
  args_or_empty none = []
  args_or_empty (some args) = args

  -- The step's fields that it reads: `step_id`, `action_tool` (empty where absent), `action_args`.
  unfoldable pub run_action_step : ℕ → String → Option Args → Option SessionContext → Eff Args
  unfolding after_gate
  run_action_step step_id tool action_args session w =
      if tool == ""
      then (raise (value_error ("step " +++ (decimal step_id +++ ": missing action_tool"))), w)
      else if not (contains tool action_tools)
      then (
        raise (value_error ("step " +++ (decimal step_id +++ (": unknown action_tool " +++ tool)))),
        w,
      )
      else let args = args_or_empty action_args in
        let i : InnerSafetyInput = record {
          session = session_or_default session;
          tool_name = tool;
          tool_args = args;
        } in
        after_gate tool args (gate i w.store) w
