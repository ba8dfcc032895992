-- ===== src/Action/Subgraph/SameGate.antt =====
-- The subgraph and the action step of a plan go through the same gate with the same effects.
use realityai_agents.Prelude.{ℕ, String, ◌≡◌, refl, sym, ap, ◌∙◌, true, none, some, arith, contains}
use realityai_agents.Python.{Args, Py, ok, raise}
use realityai_agents.Inner.Schemas.{InnerSafetyDecision, allow, deny}
use realityai_agents.Inner.Node.{Outcome}
use realityai_agents.Action.Step.{Effects, Env, gate, after_gate, run_action_step, action_tools}
use realityai_agents.Action.Step.Gated.{step_run-known}
use realityai_agents.Action.Subgraph.{
  Slot, missing, text, ActionState, gate_input, after_safety, execute_action_tool, finalize_audit,
  ◌then_node◌, gated_nodes,
}

-- The state in which `route_action` leaves the subgraph when the model chose a tool.
abbrev pub routed : ActionState → String → Args → Slot → ActionState
routed s tool args confirmation = record s {
  selected_tool = text tool;
  tool_arguments = some args;
  confirmation_text = confirmation;
  inner_safety_result = none;
  raw_tool_result = none;
  execution_error = none;
  response_text = missing;
  success = none;
}

module _ (env : Env) (s0 : ActionState) (tool : String) (args : Args) (confirmation : Slot)
    (w : Effects) where
  abbrev pub start : ActionState
  start = routed s0 tool args confirmation

  -- The effects of the two paths behind one outcome of the gate.
  same_effects :
      (m : Py Outcome)
      → contains tool action_tools ≡ true
      → (after_safety env start m w
          then_node execute_action_tool env
          then_node finalize_audit env).1
        ≡ (after_gate env tool args m w).1
  unfolding after_safety execute_action_tool finalize_audit after_gate
  same_effects (raise e) known = refl
  same_effects (ok (r, st)) known = go r.final_decision (env.invoke tool args) refl refl
    where
      go :
          (d : InnerSafetyDecision) (answer : Py Args)
          → r.final_decision ≡ d
          → env.invoke tool args ≡ answer
          → (after_safety env start (ok (r, st)) w
              then_node execute_action_tool env
              then_node finalize_audit env).1
            ≡ (after_gate env tool args (ok (r, st)) w).1
      go deny answer e a = ground arith
      go allow (ok raw) e a = ground arith
      go allow (raise x) e a = ground arith

  -- For a known tool, the nodes behind the subgraph's routing and the action step of a plan have the
  -- same effects under the same session: the same audit record and the same invocation, also where
  -- the gate raises. So neither path reaches a tool past a check that the other one makes.
  pub gated_nodes-run_action_step :
      (step_id : ℕ)
      → contains tool action_tools ≡ true
      → (gated_nodes env start w).1
        ≡ (run_action_step env step_id tool (some args) (some (gate_input env start).session) w).1
  unfolding gated_nodes gate_input
  gated_nodes-run_action_step step_id known =
      same_effects (gate env (gate_input env start) w.store) known
      ∙ sym (ap (λ x. x.1) (step_run-known env (gate_input env start) w step_id known))
