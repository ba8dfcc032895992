-- ===== src/Planning/Agent/Session.antt =====
-- The planning agent and the tools: what it plans is validated, and runs for the caller's session.
use realityai_agents.Prelude.{
  ℕ, ◌≤◌, ◌≡◌, refl, sym, ap, subst, ◌∙◌, arith, String, inl, inr, List, [], ◌∷◌, ◌++◌, map, eqb,
  length, Bool-cases, All, All-imp, append_nil, Option, none, some,
}
use realityai_agents.Python.{Runtime, Exn, Py, ok, raise, >>=-ok, ok_inj}
use realityai_agents.Outer.Schemas.{SessionContext}
use realityai_agents.State.{AgentState}
use realityai_agents.Action.Step.{Effects}
use realityai_agents.Planning.Plan.{
  PlanStep, Plan, ids_of, validate_dag, check_missing, check_cycle, has_duplicate, first_missing,
  kahn, edges_of,
}
use realityai_agents.Planning.Plan.Graph.{mult}
use realityai_agents.Planning.Plan.Layers.Counts.{mult_unique}
use realityai_agents.Planning.Plan.Valid.{validate_dag-ok_iff}
use realityai_agents.Planning.Outputs.{StepEnv}
use realityai_agents.Planning.Node.{StepArgs}
use realityai_agents.Planning.Node.Recorded.{invocation_of}
use realityai_agents.Planning.Run.{
  PlanExecState, run_plan, PlanAnswer, no_json, no_dict, emitted, PlanOrText, planned, no_plan,
  built, validate_steps, build_plan, make_plan,
}
use realityai_agents.Planning.Run.Safe.{Cleared, run_plan-calls}
use realityai_agents.Planning.Agent.{
  session_of, query_of, plan_for, execute, after_run, run_planning_agent,
}

abbrev pub Sound : PlanOrText → Type 0
Sound (planned p) = validate_dag p ≡ ok p
Sound (no_plan reasoning) = Unit

check_cycle-same : (p q : Plan) → check_cycle p ≡ ok q → q ≡ p
unfolding check_cycle
check_cycle-same p q e =
    elim (Bool-cases (eqb (kahn (ids_of p.steps) (edges_of p.steps)) (length (ids_of p.steps)))) [
      | inl all_visited ↦ ground (arith, e, all_visited)
      | inr some_left ↦ ground (arith, e, some_left)
    ]

check_missing-same : (p q : Plan) (gap : Option (ℕ × ℕ)) → check_missing p gap ≡ ok q → q ≡ p
unfolding check_missing
check_missing-same p q (some (id, d)) e = cc
check_missing-same p q none e = check_cycle-same p q e

-- The validators return the plan itself.
validate_dag-same : (p q : Plan) → validate_dag p ≡ ok q → q ≡ p
unfolding validate_dag
validate_dag-same p q e = elim (Bool-cases (has_duplicate (ids_of p.steps))) [
  | inl twice ↦ ground (arith, e, twice)
  | inr once ↦
      check_missing-same p q (first_missing (ids_of p.steps) p.steps) (ground (arith, e, once))
]

module _ (exn_text : Exn → String) (reasoning : String) (steps : Py (List PlanStep)) where
  built-Sound : (r : Py Plan) → build_plan reasoning steps ≡ r → Sound (built exn_text r)
  unfolding build_plan
  built-Sound (raise x) e = tt
  built-Sound (ok q) e =
      let (raw, h, e') = >>=-ok steps _ e in
      let (ss, k, e'') = >>=-ok (validate_steps raw) _ e' in
      let same = validate_dag-same (record { steps = ss; reasoning = reasoning }) q e'' in
      ap validate_dag same ∙ e''

  build_plan-Sound : Sound (built exn_text (build_plan reasoning steps))
  build_plan-Sound = built-Sound (build_plan reasoning steps) refl

make_plan-Sound :
    (exn_text : Exn → String) (a : PlanAnswer) (o : PlanOrText)
    → make_plan exn_text a ≡ ok o
    → Sound o
unfolding make_plan
make_plan-Sound exn_text no_json o e = subst Sound (ok_inj e) tt
make_plan-Sound exn_text no_dict o e = cc
make_plan-Sound exn_text (emitted reasoning (ok [])) o e = subst Sound (ok_inj e) tt
make_plan-Sound exn_text (emitted reasoning (ok (s ∷ ss))) o e =
    subst Sound (ok_inj e) (build_plan-Sound exn_text reasoning (ok (s ∷ ss)))
make_plan-Sound exn_text (emitted reasoning (raise x)) o e =
    subst Sound (ok_inj e) (build_plan-Sound exn_text reasoning (raise x))

-- The calls after `w`: none, or those of steps that are cleared, each once.
abbrev pub Guarded : {R : Type 0} → StepEnv R → SessionContext → Effects → Effects → Type 0
Guarded env session w w' =
    (ran : List PlanStep) × (w'.calls ≡ w.calls ++ map invocation_of ran)
    × All (Cleared env session) ran
    × ((id : ℕ) → mult id (ids_of ran) ≤ 1)

module _ {R : Type 0} (rt : Runtime) (json_of : StepArgs → String) (env : StepEnv R) (limit : ℕ)
    (answer : String → Py (PlanAnswer × String)) where
  pub plan_for-Sound :
      {C : Type 0} (state : AgentState C) (o : PlanOrText) (raw : String)
      → plan_for rt json_of env limit answer state ≡ ok (o, raw)
      → Sound o
  plan_for-Sound state o raw e =
      let (text, h, e1) = >>=-ok (query_of state) _ e in
      let (parsed, k, e2) = >>=-ok (answer text) _ e1 in
      let (outcome, m, e3) = >>=-ok (make_plan env.exn_text parsed.0) _ e2 in
      make_plan-Sound env.exn_text parsed.0 o (m ∙ ap (λ x. ok x.0) (ok_inj e3))

  after_run-effects :
      (p : Plan) (r : Py (Unit {0}) × PlanExecState R)
      → (after_run rt json_of env limit answer p r).1 ≡ r.1.effects
  after_run-effects p (ok u, st) = refl
  after_run-effects p (raise e, st) = refl

  execute-Guarded :
      (session : SessionContext) (m : Py (PlanOrText × String)) (w : Effects)
      → ((o : PlanOrText) (raw : String) → m ≡ ok (o, raw) → Sound o)
      → Guarded env session w (execute rt json_of env limit answer session m w).1
  unfolding execute
  execute-Guarded session (raise e) w sound = ([], sym (append_nil w.calls), tt, λ id. omega arith)
  execute-Guarded session (ok (no_plan reasoning, raw)) w sound =
      ([], sym (append_nil w.calls), tt, λ id. omega arith)
  execute-Guarded session (ok (planned p, raw)) w sound =
      let accepted = sound (planned p) raw refl in
      let unique = ((validate_dag-ok_iff p).0 accepted).0 in
      let (ran, e, members, fewer) = run_plan-calls env session limit p w in
      (
        ran,
        ap (λ x. x.calls) (after_run-effects p (run_plan env (some session) limit p w)) ∙ e,
        All-imp _ (Cleared env session) (λ s h. h.1) ran members,
        λ id. omega (arith, fewer id, mult_unique id (ids_of p.steps) unique),
      )

  -- Whatever the model answers, a turn of the planning agent invokes only tools of action steps which
  -- policy, parameters and live state permit for the session of the caller (a student's, where the
  -- state names no role), and each step's at most once, as only a plan with unique ids is run.
  pub run_planning_agent-calls :
      {C : Type 0} (state : AgentState C) (w : Effects)
      → Guarded env (session_of state) w (run_planning_agent rt json_of env limit answer state w).1
  unfolding run_planning_agent
  run_planning_agent-calls state w =
      execute-Guarded (session_of state) (plan_for rt json_of env limit answer state) w
        (plan_for-Sound state)
