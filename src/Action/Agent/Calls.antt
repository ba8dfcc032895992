-- ===== src/Action/Agent/Calls.antt =====
-- The action agent reaches a tool through the inner gate only.
use realityai_agents.Prelude.{
  subst, ◌≡◌, refl, sym, ap, ◌∙◌, ◌⊎◌, inl, inr, arith, ◌&&◌, not, Option, none, some, ◌==◌,
  if◌then◌else◌, String, [], ◌∷◌, ◌++◌, Bool-cases, contains,
}
use realityai_agents.Python.{Args, Py, ok, raise, Py-cases}
use realityai_agents.Inner.Schemas.{InnerSafetyDecision, allow, deny, InnerSafetyResult}
use realityai_agents.Inner.Node.{Outcome}
use realityai_agents.Inner.Node.Verdict.{inner_safety_check-allow_iff}
use realityai_agents.Action.Step.{Effects, Env, gate, action_tools}
use realityai_agents.Action.Step.Gated.{Permitted}
use realityai_agents.Action.Subgraph.{
  ActionState, Answer, not_json, not_object, raised, object, gate_input, inner_safety_node,
  execute_action_tool, finalize_audit, ◌then_node◌, is_set, gated_nodes, run_subgraph, route_action,
  ActionAgentInput, invoke_action_subgraph, initial, project, after_safety, noted, execute_on,
}
use realityai_agents.Action.Agent.{agent_input, run_action_agent, updated}
use realityai_agents.Outer.Schemas.{SessionContext}
use realityai_agents.State.{AgentState}

module _ (env : Env) where
  -- No tool is invoked, or one permitted call is made.
  abbrev pub AtMostOne : ActionState → Effects → Effects → Type 0
  AtMostOne s w w' =
      (w'.calls ≡ w.calls)
      ⊎ (Permitted env (gate_input env s)
          × (w'.calls
              ≡ w.calls ++ ((gate_input env s).tool_name, (gate_input env s).tool_args) ∷ []))

  finalize-calls : (s : ActionState) (w : Effects) → (finalize_audit env s w).1.calls ≡ w.calls
  unfolding finalize_audit
  finalize-calls s w = ground arith

  finish-calls :
      (r : Py ActionState × Effects) → (r then_node finalize_audit env).1.calls ≡ r.1.calls
  finish-calls (ok s, w) = finalize-calls s w
  finish-calls (raise e, w) = refl

  abbrev Called : ActionState → Effects → Effects → Type 0
  Called s w w' =
      w'.calls ≡ w.calls ++ ((gate_input env s).tool_name, (gate_input env s).tool_args) ∷ []

  -- Without a verdict, or behind a denial, the node that invokes the tool passes.
  execute_on-calls :
      (o : Option InnerSafetyResult) (s : ActionState) (w : Effects)
      → ((execute_on env o s w).1.calls ≡ w.calls)
        ⊎ ((r : InnerSafetyResult) × (o ≡ some r)
            × (r.final_decision ≡ allow)
            × Called s w (execute_on env o s w).1)
  unfolding execute_action_tool gated_nodes
  execute_on-calls none s w = inl refl
  execute_on-calls (some r) s w = go r.final_decision refl
    where
      go :
          (d : InnerSafetyDecision)
          → r.final_decision ≡ d
          → ((execute_on env (some r) s w).1.calls ≡ w.calls)
            ⊎ ((q : InnerSafetyResult) × (some r ≡ some q)
                × (q.final_decision ≡ allow)
                × Called s w (execute_on env (some r) s w).1)
      go deny e = inl (ground arith)
      go allow e = elim (Bool-cases (contains (gate_input env s).tool_name action_tools)) [
        | inl known ↦ inr (r, refl, e, ground arith)
        | inr unknown ↦ inl (ground arith)
      ]

  execute-calls :
      (s : ActionState) (w : Effects)
      → ((execute_action_tool env s w).1.calls ≡ w.calls)
        ⊎ ((r : InnerSafetyResult) × (s.inner_safety_result ≡ some r)
            × (r.final_decision ≡ allow)
            × Called s w (execute_action_tool env s w).1)
  unfolding execute_action_tool
  execute-calls s w = execute_on-calls s.inner_safety_result s w

  after_safety-calls :
      (s : ActionState) (w : Effects) (m : Py Outcome)
      → m ≡ gate env (gate_input env s) w.store
      → AtMostOne s w (after_safety env s m w then_node execute_action_tool env).1
  unfolding inner_safety_node
  after_safety-calls s w (raise e) h = inl refl
  after_safety-calls s w (ok (r, store)) h = go r.final_decision refl
    where
      permitted : r.final_decision ≡ allow → Permitted env (gate_input env s)
      permitted e =
          (inner_safety_check-allow_iff env.rt env.read env.timeout_text env.stamp
              (gate_input env s) w.store).0
            ((r, store), sym h, e)

      w0 : Effects
      w0 = record w { store = store }

      go :
          (d : InnerSafetyDecision)
          → r.final_decision ≡ d
          → AtMostOne s w (execute_action_tool env (noted env s r d) w0).1
      go deny e = elim (execute-calls (noted env s r deny) w0) [
        | inl same ↦ inl same
        | inr (q, found, allowed, called) ↦ inl (absurd (ground arith))
      ]
      go allow e = elim (execute-calls (noted env s r allow) w0) [
        | inl same ↦ inl same
        | inr (q, found, allowed, called) ↦ inr (permitted e, called)
      ]

  front-calls :
      (s : ActionState) (w : Effects)
      → s.inner_safety_result ≡ none
      → AtMostOne s w (inner_safety_node env s w then_node execute_action_tool env).1
  unfolding inner_safety_node
  front-calls s w fresh =
      elim (Bool-cases (is_set s.response_text && not (is_set s.selected_tool))) [
        | inl skipped ↦
            rw (skipped, ◌then_node◌)
              (elim (execute-calls s w) [
                | inl same ↦ inl same
                | inr (q, found, allowed, called) ↦ absurd (ground arith)
              ])
        | inr gated ↦
            rw (gated, ◌then_node◌)
              (after_safety-calls s w (gate env (gate_input env s) w.store) refl)
      ]

  -- One call that the policy, the arguments' form and the state of the world permit this caller.
  abbrev pub OnePermittedCall : SessionContext → Effects → Effects → Type 0
  OnePermittedCall session w w' =
      (tool : String) × (args : Args) × Permitted env
        (record { session = session; tool_name = tool; tool_args = args })
      × (w'.calls ≡ w.calls ++ (tool, args) ∷ [])

  abbrev pub session_of : ActionAgentInput → SessionContext
  session_of inp = record {
    user_id = inp.user_id;
    session_id = inp.session_id;
    user_role = if inp.user_role == "" then "student" else inp.user_role;
    tenant_id = none;
  }

  gated_nodes-calls :
      (s : ActionState) (w : Effects)
      → s.inner_safety_result ≡ none
      → ((gated_nodes env s w).1.calls ≡ w.calls)
        ⊎ OnePermittedCall (gate_input env s).session w (gated_nodes env s w).1
  unfolding gated_nodes
  gated_nodes-calls s w fresh =
      let front = inner_safety_node env s w then_node execute_action_tool env in
      elim (front-calls s w fresh) [
        | inl same ↦ inl (finish-calls front ∙ same)
        | inr (permitted, called) ↦ inr (_, _, permitted, finish-calls front ∙ called)
      ]

  -- The routing draws on the message alone: nobody else's identity, and no earlier verdict.
  routed-session :
      (answer : Answer) (inp : ActionAgentInput) (w : Effects) {s : ActionState}
      → (route_action answer (initial inp) w).0 ≡ ok s
      → (s.inner_safety_result ≡ none) × ((gate_input env s).session ≡ session_of inp)
  unfolding route_action inner_safety_node
  routed-session (not_json raw) inp w h = ground arith
  routed-session not_object inp w h = ground arith
  routed-session (raised e) inp w h = ground arith
  routed-session (object d) inp w h = ground arith

  routed-world :
      (answer : Answer) (inp : ActionAgentInput) (w : Effects)
      → (route_action answer (initial inp) w).1 ≡ w
  unfolding route_action
  routed-world (not_json raw) inp w = refl
  routed-world not_object inp w = refl
  routed-world (raised e) inp w = refl
  routed-world (object d) inp w = refl

  module _ (answer : Answer) (inp : ActionAgentInput) (w : Effects) where
    abbrev routed : Py ActionState × Effects
    routed = route_action answer (initial inp) w

    run_subgraph-calls :
        ((run_subgraph env answer (initial inp) w).1.calls ≡ w.calls)
        ⊎ OnePermittedCall (session_of inp) w (run_subgraph env answer (initial inp) w).1
    unfolding run_subgraph
    run_subgraph-calls = elim (Py-cases routed.0) [
      | inr (x, e) ↦ inl (rw (e, ◌then_node◌) (ap (λ x. x.calls) (routed-world answer inp w)))
      | inl (s, e) ↦
          let (fresh, same_session) = routed-session answer inp w e in
          rw (e, ◌then_node◌)
            (rw (routed-world answer inp w) (
              subst
                (λ session.
                  ((gated_nodes env s w).1.calls ≡ w.calls)
                  ⊎ OnePermittedCall session w (gated_nodes env s w).1)
                same_session (gated_nodes-calls s w fresh)))
    ]

updated-world : (r : Py ActionState × Effects) → (updated (project r)).1 ≡ r.1
updated-world (ok s, w) = refl
updated-world (raise e, w) = refl

-- A run of the action agent invokes no tool, or it makes one call, which the inner gate's layers permit
-- for the caller of the request: the model's answer can choose the tool and its arguments, and neither
-- the caller nor the verdict.
pub run_action_agent-calls :
    {C : Type 0} (env : Env) (llm : String → Answer) (s : AgentState C) (w : Effects)
    → ((run_action_agent env llm s w).1.calls ≡ w.calls)
      ⊎ OnePermittedCall env (session_of env (agent_input s)) w (run_action_agent env llm s w).1
unfolding run_action_agent invoke_action_subgraph
run_action_agent-calls env llm s w =
    let inp = agent_input s in
    let answer = llm inp.user_message in
    subst (λ (w' : Effects). (w'.calls ≡ w.calls) ⊎ OnePermittedCall env (session_of env inp) w w')
      (sym (updated-world (run_subgraph env answer (initial inp) w)))
      (run_subgraph-calls env answer inp w)
