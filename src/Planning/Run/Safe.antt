-- ===== src/Planning/Run/Safe.antt =====
-- What the steps of a plan do outside it: the tools that they invoke.
use mathlib.Core.List.{Memᴰ, map-append}
use realityai_agents.Prelude.{
  ℕ, ◌≤◌, ◌≡◌, refl, sym, ap, ◌∙◌, ◌⊎◌, inl, inr, arith, String, some, List, [], ◌∷◌, ◌++◌, map,
  All, All-append, All-both, All-keep, append_nil, append_assoc,
}
use realityai_agents.Python.{Args}
use realityai_agents.Outer.Schemas.{SessionContext}
use realityai_agents.Action.Step.{Effects, run_action_step}
use realityai_agents.Action.Step.Gated.{Permitted, run_action_step-calls}
use realityai_agents.Planning.Plan.{
  AgentType, query, reasoning, action, constraint_solver, PlanStep, Plan, ids_of,
}
use realityai_agents.Planning.Plan.Graph.{mult}
use realityai_agents.Planning.Plan.Layers.Sound.{left_of}
use realityai_agents.Planning.Outputs.{Outputs, StepEnv}
use realityai_agents.Planning.Steps.{dispatch_step, args_or_none, text_or_empty}
use realityai_agents.Planning.Node.{step_node}
use realityai_agents.Planning.Node.Recorded.{
  request_of, invocation_of, none_args, as_output-effects,
}
use realityai_agents.Planning.Run.{
  PlanExecState, is_triggered, triggered, superstep, run_graph, run_plan, start_state, merged,
}
use realityai_agents.Planning.Run.Supersteps.{
  mult-ids_of, All-Memᴰ, triggered-left_of, after_superstep, run_graph_elim,
}

-- `ran` are steps among `ss`, none more often than there.
abbrev Among : List PlanStep → List PlanStep → Type 1
Among ran ss =
    ((id : ℕ) → mult id (ids_of ran) ≤ mult id (ids_of ss))
    × ((P : PlanStep → Type 0) → All P ss → All P ran)

Among-cons :
    (s : PlanStep) (one rest ss : List PlanStep)
    → (one ≡ []) ⊎ (one ≡ s ∷ [])
    → Among rest ss
    → Among (one ++ rest) (s ∷ ss)
Among-cons s one rest ss (inl nothing) (fewer, kept) =
    rw nothing (λ id. omega (arith, fewer id), λ P h. kept P h.1)
Among-cons s one rest ss (inr it) (fewer, kept) =
    rw it (λ id. omega (arith, fewer id), λ P h. (h.0, kept P h.1))

module _ {R : Type 0} (env : StepEnv R) (session : SessionContext) where
  -- An action step that the gate lets through for this session.
  abbrev pub Cleared : PlanStep → Type 0
  Cleared s = (s.agent_type ≡ action) × Permitted (env.action_env s.step_id) (request_of session s)

  -- `later` are the calls `calls`, and those of the steps `ran` after them.
  abbrev pub Invoked : List PlanStep → List (String × Args) → List (String × Args) → Type 0
  Invoked ran calls later = (later ≡ calls ++ map invocation_of ran) × All Cleared ran

  Invoked-trans :
      (xs ys : List PlanStep) (u v w : List (String × Args))
      → Invoked xs u v
      → Invoked ys v w
      → Invoked (xs ++ ys) u w
  Invoked-trans xs ys u v w (e, h) (f, k) =
      (rw (f, e, map-append invocation_of xs ys, append_assoc) refl, All-append Cleared xs ys h k)

  dispatch_step-Invoked :
      (kind : AgentType) (s : PlanStep) (os : Outputs R) (w : Effects)
      → s.agent_type ≡ kind
      → (ran : List PlanStep) × ((ran ≡ []) ⊎ (ran ≡ s ∷ []))
        × Invoked ran w.calls (dispatch_step env kind s os (some session) w).1.calls
  unfolding dispatch_step
  dispatch_step-Invoked query s os w e = ([], inl refl, (sym (append_nil w.calls), tt))
  dispatch_step-Invoked reasoning s os w e = ([], inl refl, (sym (append_nil w.calls), tt))
  dispatch_step-Invoked constraint_solver s os w e = ([], inl refl, (sym (append_nil w.calls), tt))
  dispatch_step-Invoked action s os w e =
      elim (run_action_step-calls (env.action_env s.step_id) (request_of session s) w s.step_id) [
        | inl (permitted, one) ↦ (s ∷ [], inr refl, (same ∙ one, ((e, permitted), tt)))
        | inr (refused, nothing) ↦ ([], inl refl, (same ∙ nothing ∙ sym (append_nil w.calls), tt))
      ]
    where
      same :
          (dispatch_step env action s os (some session) w).1.calls
          ≡ (run_action_step
              (env.action_env s.step_id)
              s.step_id
              (text_or_empty s.action_tool)
              (some (args_or_none s.action_args))
              (some session)
              w).1.calls
      same =
          ap (λ x. x.calls) (as_output-effects R _)
          ∙ ap (λ r. r.1.calls)
              (none_args session (env.action_env s.step_id) s.step_id (text_or_empty s.action_tool)
                s.action_args w)

  step_node-Invoked :
      (s : PlanStep) (os : Outputs R) (w : Effects)
      → (ran : List PlanStep) × ((ran ≡ []) ⊎ (ran ≡ s ∷ []))
        × Invoked ran w.calls (step_node env s os (some session) w).1.calls
  unfolding step_node
  step_node-Invoked s os w = dispatch_step-Invoked s.agent_type s os w refl

  superstep-Invoked :
      (ss : List PlanStep) (before : Outputs R) (st : PlanExecState R)
      → (ran : List PlanStep) × Among ran ss
        × Invoked ran st.effects.calls (superstep env (some session) ss before st).effects.calls
  unfolding superstep
  superstep-Invoked [] before st =
      ([], (λ id. omega arith, λ P h. tt), (sym (append_nil st.effects.calls), tt))
  superstep-Invoked (s ∷ ss) before st =
      let (one, which, now) = step_node-Invoked s before st.effects in
      let node = step_node env s before (some session) st.effects in
      let (rest, among, later) =
        superstep-Invoked ss before (merged env (some session) s node.0 node.1 st) in
      (
        one ++ rest,
        Among-cons s one rest ss which among,
        Invoked-trans one rest st.effects.calls node.1.calls _ now later,
      )

  -- From where `done` have run.
  abbrev InvokedFrom : List PlanStep → List ℕ → PlanExecState R → PlanExecState R → Type 1
  InvokedFrom ss done st st' =
      (ran : List PlanStep) × ((id : ℕ) → mult id (ids_of ran) ≤ left_of done ss id)
      × ((P : PlanStep → Type 0) → All P ss → All P ran)
      × Invoked ran st.effects.calls st'.effects.calls

  next-InvokedFrom :
      (ss : List PlanStep) (done : List ℕ) (st st' : PlanExecState R)
      → InvokedFrom ss
          (ids_of (triggered done ss) ++ done)
          (after_superstep env (some session) ss done st)
          st'
      → InvokedFrom ss done st st'
  next-InvokedFrom ss done st st' (rest, left, kept, later) =
      let (now, (fewer, here), first) = superstep-Invoked (triggered done ss) st.step_outputs st in
      (
        now ++ rest,
        (λ id.
            omega
              (arith, fewer id, left id, triggered-left_of done ss id, mult-ids_of now rest id)),
        (λ P h. All-append P now rest (here P (All-keep P (is_triggered done) ss h)) (kept P h)),
        Invoked-trans now rest st.effects.calls _ st'.effects.calls first later,
      )

  run_graph-InvokedFrom :
      (limit : ℕ) (ss : List PlanStep) (done : List ℕ) (st : PlanExecState R)
      → InvokedFrom ss done st (run_graph env (some session) limit ss done st).1
  run_graph-InvokedFrom limit ss done st =
      run_graph_elim env (some session) ss (λ done st r. InvokedFrom ss done st r.1)
        (λ done st r ends.
          ([], (λ id. omega arith), (λ P h. tt), (sym (append_nil st.effects.calls), tt)))
        (λ done st r. next-InvokedFrom ss done st r.1) limit done st

-- Whatever the model plans, and however the run ends, the tools that it invokes are those of action
-- steps of the plan which policy, parameters and live state permit for the caller's own session, with
-- the arguments of the step; no step's tool is invoked more often than its id stands in the plan.
pub run_plan-calls :
    {R : Type 0} (env : StepEnv R) (session : SessionContext) (limit : ℕ) (p : Plan) (w : Effects)
    → (ran : List PlanStep) × ((run_plan env (some session) limit p w).1.effects.calls
        ≡ w.calls ++ map invocation_of ran)
      × All (λ s. Memᴰ s p.steps × Cleared env session s) ran
      × ((id : ℕ) → mult id (ids_of ran) ≤ mult id (ids_of p.steps))
unfolding run_plan
run_plan-calls env session limit p w =
    let (ran, fewer, kept, (e, cleared)) =
      run_graph-InvokedFrom env session limit p.steps [] (start_state env (some session) w) in
    (ran, e, All-both _ _ ran (kept (λ s. Memᴰ s p.steps) (All-Memᴰ p.steps)) cleared, fewer)
