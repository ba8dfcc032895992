-- ===== src/Tests/Action.antt =====
-- An action step of a plan, and the subgraph, at concrete requests.
use realityai_agents.Prelude.{◌≡◌, refl, ◌⊎◌, none, some, [], ◌∷◌}
use realityai_agents.Tests.Samples.{env, no_effects, enroll, enroll_args}
use realityai_agents.Python.{str_of}
use realityai_agents.Inner.Pattern.{match_pieces}
use realityai_agents.Inner.ToolAuthorization.{check_tool_authorization}
use realityai_agents.Inner.ParameterValidation.{check_parameter_presence, check_parameter_format}
use realityai_agents.Inner.LiveState.{check_live_state, mock_read}
use realityai_agents.Inner.Node.{inner_safety_check}
use realityai_agents.Action.Step.{run_action_step}
use realityai_agents.Action.Step.Gated.{
  Permitted, OneRecord, step_run, run_action_step-calls, run_action_step-OneRecord,
}
use realityai_agents.Action.Subgraph.{ActionState, missing, text, gated_nodes, gate_input}
use realityai_agents.Action.Subgraph.SameGate.{start, gated_nodes-run_action_step}

run_action_step-calls_example :
    (Permitted env enroll
      × ((step_run env enroll no_effects 1).1.calls ≡ ("enrollment_modify", enroll_args) ∷ []))
    ⊎ ((¬ Permitted env enroll) × ((step_run env enroll no_effects 1).1.calls ≡ []))
run_action_step-calls_example = run_action_step-calls env enroll no_effects 1

run_action_step-OneRecord_example :
    OneRecord env enroll no_effects (step_run env enroll no_effects 1).1
unfolding run_action_step inner_safety_check check_tool_authorization check_parameter_presence
    check_parameter_format match_pieces str_of check_live_state mock_read
run_action_step-OneRecord_example = run_action_step-OneRecord env enroll no_effects 1 refl refl

abbrev chosen : ActionState
chosen = record {
  user_message = "enroll me in CS101";
  user_id = "S002";
  session_id = "sess-1";
  user_role = "student";
  selected_tool = missing;
  tool_arguments = none;
  confirmation_text = missing;
  inner_safety_result = none;
  raw_tool_result = none;
  execution_error = none;
  response_text = missing;
  success = none;
}

abbrev chosen_start : ActionState
chosen_start = start env chosen "enrollment_modify" enroll_args (text "Enrolling S002.") no_effects

gated_nodes-run_action_step_example :
    (gated_nodes env chosen_start no_effects).1
    ≡ (run_action_step env 1 "enrollment_modify"
        (some enroll_args)
        (some (gate_input env chosen_start).session)
        no_effects).1
gated_nodes-run_action_step_example =
    gated_nodes-run_action_step env chosen "enrollment_modify" enroll_args (text "Enrolling S002.")
      no_effects 1 refl
