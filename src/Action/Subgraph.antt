-- ===== src/Action/Subgraph.antt =====
-- agent-core/agents/action_agent.py, lines 274 to 450: the compiled subgraph
-- route_action, inner_safety_check, execute_action_tool, finalize_audit, and its boundary.
pub mod SameGate
use realityai_agents.Prelude.{
  String, Bool, true, false, not, ◌&&◌, ◌||◌, Option, none, some, List, [], ◌∷◌, ◌++◌, ◌==◌,
  if◌then◌else◌, contains, ◌+++◌,
}
use realityai_agents.Python.{
  Runtime, Value, null, flag, str, Args, Py, ok, raise, Exn, attribute_error, key_error, truthy,
  get_or, exn_text, str_of,
}
use realityai_agents.Inner.Schemas.{
  allow, deny, InnerSafetyDecision, InnerSafetyInput, InnerSafetyResult,
}
use realityai_agents.Inner.Audit.{update_audit_for_execution, persist_audit_record}
use realityai_agents.Inner.Node.{Outcome}
use realityai_agents.Action.Step.{Effects, Eff, Env, action_tools, gate}

-- A text under a key of a dict: no such key, `None`, or the text.
pub data Slot : Type 0 where
  missing : Slot
  null_slot : Slot
  text : String → Slot

-- `d.get(k, default) or ""`, for a default that is a text, and `d.get(k, default)` as a slot.
abbrev pub slot_or : Slot → String → String
slot_or missing default = default
slot_or null_slot default = ""
slot_or (text s) default = s

abbrev pub with_default : Slot → String → Slot
with_default missing default = text default
with_default s default = s

abbrev pub is_set : Slot → Bool
is_set (text s) = not (s == "")
is_set _ = false

-- f"{slot}"
abbrev pub slot_text : Slot → String
slot_text (text s) = s
slot_text _ = "None"

-- The working memory, `ActionAgentInternalState`: a key that is not set yet is `missing` or `none`.
pub record ActionState : Type 0 where
  pub user_message : String
  pub user_id : String
  pub session_id : String
  pub user_role : String
  pub selected_tool : Slot
  pub tool_arguments : Option Args
  pub confirmation_text : Slot
  pub inner_safety_result : Option InnerSafetyResult
  pub raw_tool_result : Option Args
  pub execution_error : Option String
  pub response_text : Slot
  pub success : Option Bool

-- What the model's answer parses to, where `tool`, `question` and `confirmation` are texts or None,
-- and `arguments` is a dict or not there. Other types are left out.
pub record Decision : Type 0 where
  pub clarification_needed : Bool
  pub question : Slot
  pub tool : Slot
  pub arguments : Option Args
  pub confirmation : Slot

-- The model's answer, or the exception of its call.
pub data Answer : Type 0 where
  not_json : String → Answer
  not_object : Answer
  raised : Exn → Answer
  object : Decision → Answer

-- `bool(d.get(k, False))` of a key that holds a flag
abbrev is_true : Option Bool → Bool
is_true none = false
is_true (some b) = b

-- A node's step: the state with the node's update merged in.
abbrev pub Node : Type 0
Node = ActionState → Eff ActionState

-- The edges of the compiled graph: each node runs on the state that the one before it left.
infixl 5 ◌then_node◌
abbrev pub ◌then_node◌ : Py ActionState × Effects → Node → Py ActionState × Effects
(ok s, w) then_node node = node s w
(raise e, w) then_node node = (raise e, w)

-- `route_action`, on the model's answer. A JSON text that is no object raises, for `.get` stands
-- outside the `try`.
unfoldable pub route_action : Answer → Node
route_action (not_json raw) s w = (
  ok (record s {
    selected_tool = text "";
    tool_arguments = some [];
    confirmation_text = text "";
    response_text = text raw;
    success = some true;
  }),
  w,
)
route_action not_object s w = (raise (attribute_error "no attribute 'get'"), w)
route_action (raised e) s w = (raise e, w)
route_action (object d) s w = (
  ok (
      if d.clarification_needed
      then (record s {
        selected_tool = text "";
        tool_arguments = some [];
        confirmation_text = text "";
        response_text = with_default d.question "Need clarification.";
        success = some true;
      })
      else (record s {
        selected_tool = with_default d.tool "";
        tool_arguments = some (elim d.arguments [ none ↦ [] | some a ↦ a ]);
        confirmation_text = with_default d.confirmation "";
      })),
  w,
)

abbrev or_empty : Option Args → Args
or_empty none = []
or_empty (some args) = args

module _ (env : Env) where
  pub gate_input : ActionState → InnerSafetyInput
  gate_input s = record {
    session = record {
      user_id = s.user_id;
      session_id = s.session_id;
      user_role = if s.user_role == "" then "student" else s.user_role;
      tenant_id = none;
    };
    tool_name = slot_or s.selected_tool "";
    tool_args = or_empty s.tool_arguments;
  }

  abbrev pub noted : ActionState → InnerSafetyResult → InnerSafetyDecision → ActionState
  noted s result allow = record s { inner_safety_result = some result }
  noted s result deny = record s {
    inner_safety_result = some result;
    response_text = text (
        if result.final_reason_human == ""
        then result.final_reason_code
        else result.final_reason_human);
    success = some false;
  }

  pub after_safety : ActionState → Py Outcome → Eff ActionState
  after_safety s (raise e) w = (raise e, w)
  after_safety s (ok (result, store)) w =
      (ok (noted s result result.final_decision), record w { store = store })

  unfoldable pub inner_safety_node : Node
  unfolding gate_input after_safety
  inner_safety_node s w =
      if is_set s.response_text && not (is_set s.selected_tool)
      then (ok s, w)
      else after_safety s (gate env (gate_input s) w.store) w

  abbrev executed : ActionState → Py Args → ActionState
  executed s (ok raw) = record s { raw_tool_result = some raw; success = some true }
  executed s (raise e) =
      let message = exn_text env.rt e in
      record s {
        raw_tool_result = some (("success", flag false) ∷ ("message", str message) ∷ []);
        execution_error = some message;
        success = some false;
        response_text = text ("Tool execution failed: " +++ message);
      }

  pub execute_on : Option InnerSafetyResult → ActionState → Eff ActionState
  execute_on none s w = (ok s, w)
  execute_on (some inner) s w = elim inner.final_decision [
    | deny ↦ (ok s, w)
    | allow ↦
        let tool = slot_or s.selected_tool "" in
        let args = or_empty s.tool_arguments in
        if contains tool action_tools
        then (
          ok (executed s (env.invoke tool args)),
          record w { calls = w.calls ++ (tool, args) ∷ [] },
        )
        else (raise (key_error tool), w)
  ]

  unfoldable pub execute_action_tool : Node
  unfolding execute_on
  execute_action_tool s w = execute_on s.inner_safety_result s w

  -- `state.get("execution_error") or (None if succeeded else raw.get("message"))`
  abbrev error_of : Option String → Bool → Args → Value
  error_of none succeeded raw = if succeeded then null else get_or raw "message" null
  error_of (some e) succeeded raw =
      if e == "" then (if succeeded then null else get_or raw "message" null) else str e

  pub audit_on : Option InnerSafetyResult → ActionState → Effects → ActionState × Effects
  audit_on none s w = (s, w)
  audit_on (some inner) s w = elim inner.final_decision [
    | deny ↦ (s, w)
    | allow ↦
        let raw = or_empty s.raw_tool_result in
        let succeeded = is_true s.success && truthy (get_or raw "success" (flag true)) in
        let final_audit =
          update_audit_for_execution inner.audit succeeded
            (error_of s.execution_error succeeded raw) in
        (
          record s { inner_safety_result = some (record inner { audit = final_audit }) },
          record w { store = persist_audit_record final_audit w.store },
        )
  ]

  -- The update's response is computed from the state in front of the node, which has the same fields.
  abbrev with_response : ActionState → ActionState
  with_response s =
      if is_set s.response_text
      then s
      else let message =
          get_or (or_empty s.raw_tool_result) "message" (str "Operation completed.") in
        record s {
          response_text = text (
              env.rt.strip (
                slot_text (with_default s.confirmation_text "")
                +++ ("\n\nResult: " +++ str_of env.rt message)));
        }

  unfoldable pub finalize_audit : Node
  unfolding audit_on
  finalize_audit s w =
      let (s', w') = audit_on s.inner_safety_result s w in (ok (with_response s'), w')

  unfoldable pub gated_nodes : Node
  unfolding inner_safety_node execute_action_tool finalize_audit
  gated_nodes s w = inner_safety_node s w then_node execute_action_tool then_node finalize_audit

  unfoldable pub run_subgraph : Answer → Node
  unfolding route_action gated_nodes
  run_subgraph answer s w = route_action answer s w then_node gated_nodes

-- The boundary models `ActionAgentInput` and `ActionAgentOutput`.
pub record ActionAgentInput : Type 0 where
  pub user_message : String
  pub user_id : String
  pub session_id : String
  pub user_role : String

pub record ActionAgentOutput : Type 0 where
  pub response : String
  pub success : Bool
  pub selected_tool : String
  pub audit_id : String

abbrev pub initial : ActionAgentInput → ActionState
initial inp = record {
  user_message = inp.user_message;
  user_id = inp.user_id;
  session_id = inp.session_id;
  user_role = inp.user_role;
  selected_tool = missing;
  tool_arguments = none;
  confirmation_text = missing;
  inner_safety_result = none;
  raw_tool_result = none;
  execution_error = none;
  response_text = missing;
  success = none;
}

abbrev output_of : ActionState → ActionAgentOutput
output_of final = record {
  response = slot_or final.response_text "";
  success = is_true final.success;
  selected_tool = slot_or final.selected_tool "";
  audit_id = elim final.inner_safety_result [ none ↦ "" | some inner ↦ inner.audit.audit_id ];
}

abbrev pub project : Py ActionState × Effects → Py ActionAgentOutput × Effects
project (ok final, w) = (ok (output_of final), w)
project (raise e, w) = (raise e, w)

unfoldable pub invoke_action_subgraph : Env → Answer → ActionAgentInput → Eff ActionAgentOutput
unfolding run_subgraph
invoke_action_subgraph env answer inp w = project (run_subgraph env answer (initial inp) w)
