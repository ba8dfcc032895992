-- ===== src/Orchestrator/Permission.antt =====
-- When a request takes effect: behind an allowing outer gate or an approval, and nowhere else.
use realityai_agents.Prelude.{
  String, ◌≡◌, refl, subst, ◌⊎◌, inl, inr, ◌∙◌, Option, none, some, false, any,
}
use realityai_agents.Python.{ok, Py-cases, >>=-ok}
use realityai_agents.Outer.Schemas.{
  SafetyDecision, allow, deny, flag_for_review, OuterSafetyInput, OuterSafetyResult,
}
use realityai_agents.Outer.Node.{build_input}
use realityai_agents.Outer.Rbac.Grants.{IsKnownRole, IsCategory}
use realityai_agents.Outer.StaticRules.{rules}
use realityai_agents.Outer.StaticRules.Priority.{rule_matches}
use realityai_agents.Outer.InjectionGuard.{PromptGuardResult}
use realityai_agents.Outer.InjectionGuard.Verdicts.{Answers, Suspects}
use realityai_agents.Outer.Node.Verdict.{outer_safety_check-allow_iff}
use realityai_agents.Orchestrator.{
  GraphEnv, Stop, finished, paused, failed, limit_hit, S, classify_intent, route_to_agent,
  intent_text, gate_state, gate, outer_safety_node, ainvoke,
}
use realityai_agents.Orchestrator.Handle.{
  judged, deliver, serve, handle, by_verdict, by_decision, ainvoke-handle,
}

module _ {C W : Type 0} (env : GraphEnv C W) where
  -- What is left outside the state.
  abbrev pub world : Stop env → W
  world (finished s w) = w
  world (paused s w) = w
  world (failed e w) = w
  world (limit_hit w) = w

  -- What the outer gate is asked: the request as it came in, under the intent that the model gave.
  pub record Asked (s : S env) (i : OuterSafetyInput) : Type 0 where
    pub s1 : S env
    pub s2 : S env
    pub intent : Option String
    pub classified : classify_intent env s ≡ ok s1
    pub routed : route_to_agent env s1 ≡ ok s2
    pub intent_is_text : intent_text env s2.intent ≡ ok intent
    pub asked : i ≡ build_input (gate_state env s2 intent)

  -- The request passes the three tiers of the outer gate.
  abbrev pub Admissible : OuterSafetyInput → Type 0
  Admissible i =
      (IsKnownRole i.session.user_role × IsCategory i.intent)
      × (any (rule_matches env.rt env.matching i) rules ≡ false)
      × ((r : PromptGuardResult env.scores.Score) × (Answers env.rt env.scores
              (env.prompt_guard i.user_query_raw i.conversation_history) r
            × ((¬ Suspects env.rt env.scores env.scores.deny_threshold r)
                × (¬ Suspects env.rt env.scores env.scores.flag_threshold r))))

  abbrev pub IsAdmitted : S env → Type 0
  IsAdmitted s = (i : OuterSafetyInput) × Asked s i × Admissible i

  deliver-world : (s : S env) (w : W) → world (deliver env s w) ≡ w
  unfolding deliver
  deliver-world s w = refl

  by_decision-world :
      (d : SafetyDecision) (s : S env) (w : W) → (world (by_decision env d s w) ≡ w) ⊎ (d ≡ allow)
  by_decision-world allow s w = inr refl
  by_decision-world deny s w = inl (deliver-world _ w)
  by_decision-world flag_for_review s w = inl refl

  judged-Asked :
      (s : S env) {s3 : S env}
      → judged env s ≡ ok s3
      → (i : OuterSafetyInput) × Asked s i
        × (o : OuterSafetyResult) × (s3.outer_safety_result ≡ some o)
        × (o.final_decision ≡ allow → Admissible i)
  unfolding judged outer_safety_node
  judged-Asked s {s3} h =
      let (s1, e1, h1) = >>=-ok (classify_intent env s) _ h in
      let (s2, e2, h2) = >>=-ok (route_to_agent env s1) _ h1 in
      let (intent, e3, h3) = >>=-ok (intent_text env s2.intent) _ h2 in
      (
        build_input (gate_state env s2 intent),
        record {
          s1 = s1;
          s2 = s2;
          intent = intent;
          classified = e1;
          routed = e2;
          intent_is_text = e3;
          asked = refl;
        },
        (gate env (gate_state env s2 intent)).outer_safety_result,
        cc h3,
        (outer_safety_check-allow_iff env.rt env.matching env.scores env.prompt_guard
            env.timeout_text (gate_state env s2 intent)).0,
      )

  by_verdict-world :
      (o : OuterSafetyResult) (v : Option OuterSafetyResult) (s : S env) (w : W)
      → v ≡ some o
      → (world (by_verdict env v s w) ≡ w) ⊎ (o.final_decision ≡ allow)
  by_verdict-world o none s w e = cc
  by_verdict-world o (some p) s w e = elim (by_decision-world p.final_decision s w) [
    | inl same ↦ inl same
    | inr allowed ↦
        inr
          (subst (λ (r : OuterSafetyResult). r.final_decision ≡ allow) {x = p} {y = o} (cc) allowed)
  ]

  handle-world : (s : S env) (w : W) → (world (handle env s w) ≡ w) ⊎ IsAdmitted s
  unfolding handle
  handle-world s w = elim (Py-cases (judged env s)) [
    | inr (x, e) ↦ inl (rw (e, handle))
    | inl (s3, e) ↦
        let (i, asked, o, found, admits) = judged-Asked s e in
        elim (by_verdict-world o s3.outer_safety_result s3 w found) [
          | inl same ↦ inl (rw (e, handle) same)
          | inr allowed ↦ inr (i, asked, admits allowed)
        ]
  ]

  admitted-judged :
      (s : S env)
      → IsAdmitted s
      → (s3 : S env) × (o : OuterSafetyResult) × (judged env s ≡ ok s3)
        × (s3.outer_safety_result ≡ some o)
        × (o.final_decision ≡ allow)
  unfolding judged outer_safety_node
  admitted-judged s (i, asked, admissible) =
      let state = gate_state env asked.s2 asked.intent in
      let allows =
        outer_safety_check-allow_iff env.rt env.matching env.scores env.prompt_guard
          env.timeout_text state in
      (
        record (asked.s2) {
          outer_safety_result = some (gate env state).outer_safety_result;
          requires_approval = some (gate env state).requires_approval;
        },
        (gate env state).outer_safety_result,
        rw asked.classified (rw asked.routed (rw asked.intent_is_text refl)),
        refl,
        allows.1 (subst Admissible asked.asked admissible),
      )

  admitted-serve :
      (s : S env) (w : W)
      → IsAdmitted s
      → (s3 : S env) × (judged env s ≡ ok s3) × (ainvoke env s w ≡ serve env s3 w)
  unfolding handle
  admitted-serve s w admitted =
      let (s3, o, e, found, allowed) = admitted-judged s admitted in
      (s3, e, ainvoke-handle env s w ∙ rw (e, handle) (rw (found, allowed)))

  -- A request that the outer gate admits is served: the query is resolved and the selected agent runs.
  -- Without an admission nothing outside the state changes: no agent runs, so no tool is invoked and
  -- no audit record is written.
  pub ainvoke-world :
      (s : S env) (w : W)
      → (IsAdmitted s → (s3 : S env) × (judged env s ≡ ok s3) × (ainvoke env s w ≡ serve env s3 w))
        × ((world (ainvoke env s w) ≡ w) ⊎ IsAdmitted s)
  ainvoke-world s w = (admitted-serve s w, rw (ainvoke-handle env s w) (handle-world s w))
