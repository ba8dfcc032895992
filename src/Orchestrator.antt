-- ===== src/Orchestrator.antt =====
-- agent-core/orchestrator.py: the nodes of the graph, its edges, and the runtime's loop over them.
-- The models, the classifiers and the three agents are fields of the environment; `W` is what the
-- agents leave behind outside the state, such as invoked tools and audit records.
pub mod Handle
pub mod Permission
pub mod Filtered
use realityai_agents.Prelude.{
  ℕ, zero, suc, ◌-◌, String, Bool, true, false, not, Option, none, some, List, [], ◌∷◌, ◌==◌,
  if◌then◌else◌, lookup, map, ◌+++◌, ltb,
}
use realityai_agents.Python.{
  Runtime, Value, str, number, Py, ok, raise, ◌>>=◌, Exn, key_error, type_error, attribute_error,
  other_error, is_hashable, truthy,
}
use realityai_agents.Outer.Schemas.{SafetyDecision, allow, deny, flag_for_review, OuterSafetyResult}
use realityai_agents.Outer.StaticRules.{Matching}
use realityai_agents.Outer.InjectionGuard.{Scores, PromptGuardResult}
use realityai_agents.Outer.Node.{GateState, GateUpdate, outer_safety_check, default_to}
use realityai_agents.Preprocessing.Schemas.{Message, RewrittenQuery}
use realityai_agents.Preprocessing.CorefGate.{Lexer}
use realityai_agents.Preprocessing.CorefResolver.{
  Confidence, CorefUpdate, coref_resolver_node, last_message,
}
use realityai_agents.OutputFilter.{Matcher, OutputFilterResult, filter_response}
use realityai_agents.State.{AgentState, AgentUpdate, messages_or_empty, last_or_empty}

-- What the model's answer on the intent parses to: the values under its two keys.
pub data IntentAnswer : Type 0 where
  not_json not_object : IntentAnswer
  object : (intent confidence : Option Value) → IntentAnswer

pub record GraphEnv (C W : Type 0) : Type 1 where
  pub rt : Runtime
  pub classify : String → Py IntentAnswer
  pub matching : Matching
  pub scores : Scores
  pub prompt_guard : String → List String → Py (PromptGuardResult scores.Score)
  pub timeout_text : String
  pub validation_error : Value → Exn  -- what `OuterSafetyInput` raises for an intent that is no text
  pub confidence : Confidence C
  pub lexer : Lexer
  pub coref_threshold : Py C
  pub resolve : String → Py (Option (RewrittenQuery C))
  pub matcher : Matcher
  pub run_action_agent : AgentState C → W → Py AgentUpdate × W
  pub run_query_agent : AgentState C → W → Py AgentUpdate × W
  pub run_planning_agent : AgentState C → W → Py AgentUpdate × W

-- The reviewer's answer that `interrupt` returns: a false value, a dict by its value under
-- "approved", or another true value.
pub data Answer : Type 0 where
  no_answer : Answer
  answer : (approved : Option Value) → Answer
  not_a_dict : Answer

abbrev pub agent_map : List (String × String)
agent_map =
    ("action", "action_agent") ∷ ("query", "query_agent") ∷ ("planning", "planning_agent") ∷ []

-- `state["messages"][-1].content`
abbrev pub last_content : Option (List Message) → Py String
last_content none = raise (key_error "messages")
last_content (some []) = raise (other_error "list index out of range")
last_content (some (m ∷ ms)) = ok (last_message m ms).content

abbrev value_or : Option Value → Value → Value
value_or none default = default
value_or (some v) default = v

abbrev pub intent_of : IntentAnswer → Value × Value
intent_of not_json = (str "query", number "0.5")
intent_of not_object = (str "query", number "0.5")
intent_of (object intent confidence) =
    (value_or intent (str "query"), value_or confidence (number "0.5"))

-- `AGENT_MAP.get(intent, "query_agent")`
abbrev pub select_agent : Value → Py String
select_agent (str s) = ok (default_to "query_agent" (lookup s agent_map))
select_agent v = if is_hashable v then ok "query_agent" else raise (type_error "unhashable type")

-- `outer.final_reason_human if outer and outer.final_reason_human else default`
abbrev pub reason_or : String → Option OuterSafetyResult → String
reason_or default none = default
reason_or default (some outer) =
    if outer.final_reason_human == "" then default else outer.final_reason_human

-- The nodes that run without an answer from outside.
pub data NodeName : Type 0 where
  intent_classification agent_routing outer_safety coref_resolver reject_node execution
        response_generation output_filter :
      NodeName

-- Where an edge leads: to such a node, to `hitl_approval`, in front of which the graph is
-- interrupted, or to `END`.
pub data Target : Type 0 where
  node : NodeName → Target
  hitl_approval finish : Target

abbrev pub route_by_decision : SafetyDecision → Target
route_by_decision allow = node coref_resolver
route_by_decision deny = node reject_node
route_by_decision flag_for_review = hitl_approval

-- `_route_after_outer_safety`, with the map of the conditional edge
pub route_after_outer_safety : Option OuterSafetyResult → Target
route_after_outer_safety none = node reject_node
route_after_outer_safety (some outer) = route_by_decision outer.final_decision

-- `_route_after_hitl`, with the map of the conditional edge
pub route_after_hitl : Option String → Target
route_after_hitl none = node response_generation
route_after_hitl (some status) =
    if status == "approved" then node coref_resolver else node response_generation

module _ {C W : Type 0} (env : GraphEnv C W) where
  abbrev pub S : Type 0
  S = AgentState C

  unfoldable pub classify_intent : S → Py S
  classify_intent s = do
    text ← last_content s.messages
    response ← env.classify text
    let (intent, confidence) = intent_of response
    ok (record s { intent = some intent; intent_confidence = some confidence })

  unfoldable pub route_to_agent : S → Py S
  route_to_agent s = do
    agent ← select_agent (elim s.intent [ none ↦ str "query" | some v ↦ v ])
    ok (record s { selected_agent = some agent })

  abbrev pub intent_text : Option Value → Py (Option String)
  intent_text none = ok none
  intent_text (some (str t)) = ok (some t)
  intent_text (some v) = raise (env.validation_error v)

  pub gate_state : S → Option String → GateState
  gate_state s intent = record {
    messages = some (map (λ m. m.content) (messages_or_empty s.messages));
    user_id = s.user_id;
    session_id = s.session_id;
    user_role = s.user_role;
    intent = intent;
  }

  pub gate : GateState → GateUpdate
  gate = outer_safety_check env.rt env.matching env.scores env.prompt_guard env.timeout_text

  unfoldable pub outer_safety_node : S → Py S
  unfolding gate_state gate
  outer_safety_node s = do
    intent ← intent_text s.intent
    let update = gate (gate_state s intent)
    ok (record s {
      outer_safety_result = some update.outer_safety_result;
      requires_approval = some update.requires_approval;
    })

  abbrev merge_coref : S → Option (CorefUpdate C) → S
  merge_coref s none = s
  merge_coref s (some u) = record s {
    rewritten_query = some u.rewritten_query;
    user_query_normalized = some u.user_query_normalized;
  }

  unfoldable pub resolve_node : S → Py S
  resolve_node s = do
    update ←
        coref_resolver_node env.confidence env.lexer env.coref_threshold env.resolve
          (messages_or_empty s.messages)
    ok (merge_coref s update)

  -- `bool(decision and decision.get("approved"))`
  abbrev pub is_approved : Answer → Py Bool
  is_approved no_answer = ok false
  is_approved (answer none) = ok false
  is_approved (answer (some v)) = ok (truthy v)
  is_approved not_a_dict = raise (attribute_error "no attribute 'get'")

  unfoldable pub hitl_node : Answer → S → Py S
  hitl_node decision s = do
    approved ← is_approved decision
    ok (
        if approved then record s { approval_status = some "approved" } else record s {
          approval_status = some "rejected";
          response = some (
              "Operation rejected by reviewer.\nReason: "
              +++ reason_or "Operation flagged for review" s.outer_safety_result);
        })

  abbrev merge_agent : S → Py AgentUpdate × W → Py S × W
  merge_agent s (ok u, w) =
      (ok (record s { response = some u.response; tool_calls = u.tool_calls }), w)
  merge_agent s (raise e, w) = (raise e, w)

  unfoldable pub execute_agent : S → W → Py S × W
  execute_agent s w =
      let agent = default_to "unknown" s.selected_agent in
      merge_agent s (
        if agent == "action_agent"
        then env.run_action_agent s w
        else if agent == "query_agent"
        then env.run_query_agent s w
        else if agent == "planning_agent"
        then env.run_planning_agent s w
        else (
          ok (record {
            response =
                "["
                +++ (agent +++ ("] Received: " +++ last_or_empty (messages_or_empty s.messages)));
            tool_calls = [];
          }),
          w,
        ))

  unfoldable pub generate_response : S → S
  generate_response s = record s {
    response = some (default_to "I'm not sure how to help with that." s.response);
  }

  unfoldable pub reject : S → S
  reject s = record s {
    response = some (reason_or "Request denied by safety policy." s.outer_safety_result);
  }

  abbrev pub merge_filter : S → OutputFilterResult → S
  merge_filter s result =
      if ltb 0 result.redactions_count
      then record s { output_filter_result = some result; response = some result.redacted_text }
      else record s { output_filter_result = some result }

  unfoldable pub output_filter_node : S → S
  output_filter_node s =
      let response = default_to "" s.response in
      if response == "" then s else merge_filter s (filter_response env.matcher response)

  -- One node on the state and the world.
  unfoldable pub run_node : NodeName → S → W → Py S × W
  run_node intent_classification s w = (classify_intent s, w)
  run_node agent_routing s w = (route_to_agent s, w)
  run_node outer_safety s w = (outer_safety_node s, w)
  run_node coref_resolver s w = (resolve_node s, w)
  run_node reject_node s w = (ok (reject s), w)
  run_node execution s w = execute_agent s w
  run_node response_generation s w = (ok (generate_response s), w)
  run_node output_filter s w = (ok (output_filter_node s), w)

  -- The edges of `build_graph`.
  unfoldable pub edge : NodeName → S → Target
  unfolding route_after_outer_safety
  edge intent_classification s = node agent_routing
  edge agent_routing s = node outer_safety
  edge outer_safety s = route_after_outer_safety s.outer_safety_result
  edge coref_resolver s = node execution
  edge reject_node s = node response_generation
  edge execution s = node response_generation
  edge response_generation s = node output_filter
  edge output_filter s = finish

  -- How a call of the compiled graph ends: at `END`, in front of `hitl_approval`, by an exception, or
  -- at the runtime's recursion limit.
  pub data Stop : Type 0 where
    finished paused : S → W → Stop
    failed : Exn → W → Stop
    limit_hit : W → Stop

  unfoldable pub drive : ℕ → Target → S → W → Stop
  drive steps finish s w = finished s w
  drive steps hitl_approval s w = paused s w
  drive zero (node n) s w = limit_hit w
  drive (suc steps) (node n) s w =
      let (result, w') = run_node n s w in
      elim result [ ok s' ↦ drive steps (edge n s') s' w' | raise e ↦ failed e w' ]

  -- LangGraph's default for the number of steps in one call.
  abbrev pub recursion_limit : ℕ
  recursion_limit = 25

  -- `app.ainvoke(state)`
  unfoldable pub ainvoke : S → W → Stop
  ainvoke s w = drive recursion_limit (node intent_classification) s w

  -- `app.ainvoke(Command(resume=...))` of a paused thread
  unfoldable pub resume : Answer → S → W → Stop
  resume decision s w = elim (hitl_node decision s) [
    | ok s' ↦ drive (recursion_limit - 1) (route_after_hitl s'.approval_status) s' w
    | raise e ↦ failed e w
  ]
