-- ===== src/Planning/Agent/Response.antt =====
-- The response of the planning agent against the recorded calls.
use mathlib.Core.List.{Memᴰ}
use mathlib.Core.Bool.{false≢true}
use realityai_agents.Prelude.{
  sym, ◌++◌, ◌∙◌, ℕ, ◌≤◌, ◌≡◌, refl, arith, String, Bool, true, ◌&&◌, eq_iff, List, [], ◌∷◌, map,
  length, All, All-imp, some, if◌then◌else◌, join, decimal, ◌+++◌,
}
use realityai_agents.Python.{Runtime, Py, ok, raise, str_of}
use realityai_agents.Outer.Schemas.{SessionContext}
use realityai_agents.State.{AgentState}
use realityai_agents.Action.Step.{Effects}
use realityai_agents.Planning.Plan.{PlanStep, Plan, validate_dag}
use realityai_agents.Planning.Plan.Layers.{topological_layers}
use realityai_agents.Planning.Outputs.{StepEnv}
use realityai_agents.Planning.Node.{StepArgs, StepCall, step_label, step_args}
use realityai_agents.Planning.Run.{PlanExecState, run_plan, PlanAnswer, planned}
use realityai_agents.Planning.Run.Supersteps.{All-Memᴰ}
use realityai_agents.Planning.Run.Complete.{run_plan_complete}
use realityai_agents.Planning.Agent.{
  is_call_of, PlanningUpdate, session_of, plan_for, step_line, after_run, with_plan, execute,
  run_planning_agent,
}
use realityai_agents.Planning.Agent.Markers.{Found, Found-step, find_call-last}
use realityai_agents.Planning.Agent.Session.{plan_for-Sound}

both_true : (a b : Bool) → (a && b) ≡ true → (a ≡ true) × (b ≡ true)
both_true a b h = ground arith

module _ {R : Type 0} (rt : Runtime) where
  -- How a call is reported: "OK" where it succeeded, and otherwise with its error.
  abbrev pub outcome_text : StepCall R → String
  outcome_text c = if c.success then "OK" else "FAILED (" +++ (str_of rt c.error +++ ")")

module _ {R : Type 0} (rt : Runtime) (json_of : StepArgs → String) where
  -- The call is recorded under the step's label and arguments.
  abbrev pub IsOf : PlanStep → StepCall R → Type 0
  IsOf s c =
      (c.tool_name ≡ step_label s.agent_type s)
      × (json_of c.arguments ≡ json_of (step_args s.agent_type s))

  -- A line that reports the last call of the step's label and arguments.
  abbrev pub IsLine : List (StepCall R) → PlanStep → String → Type 0
  IsLine calls s line =
      (c : StepCall R) × (front : List (StepCall R)) × (back : List (StepCall R)) × (calls
        ≡ front ++ c ∷ back)
      × All (λ d. ¬ IsOf s d) back
      × IsOf s c
      × (line
          ≡ "Step "
            +++ (decimal s.step_id
                +++ (": " +++ (s.description +++ (" — " +++ outcome_text rt c)))))

  -- One line for each step, in their order.
  abbrev pub AreLines : List (StepCall R) → List PlanStep → List String → Type 0
  AreLines calls [] [] = Unit
  AreLines calls [] (line ∷ lines) = ⊥
  AreLines calls (s ∷ ss) [] = ⊥
  AreLines calls (s ∷ ss) (line ∷ lines) = IsLine calls s line × AreLines calls ss lines

  IsOf-is_call_of : (s : PlanStep) (c : StepCall R) → IsOf s c → is_call_of rt json_of s c ≡ true
  IsOf-is_call_of s c (name, args) =
      rw
        (
          (eq_iff c.tool_name (step_label s.agent_type s)).1 name,
          (eq_iff (json_of c.arguments) (json_of (step_args s.agent_type s))).1 args,
        )
        refl

  step_line-IsLine :
      (calls : List (StepCall R)) (s : PlanStep)
      → Found rt json_of s calls
      → IsLine calls s (step_line rt json_of calls s)
  step_line-IsLine calls s (c, e, m, h) =
      let (name, args) = both_true _ _ h in
      let (front, back, split, later) = find_call-last rt json_of s calls c e in
      (
        c,
        front,
        back,
        split,
        All-imp _ (λ d. ¬ IsOf s d) (λ d other of. false≢true (sym other ∙ IsOf-is_call_of s d of))
            back later,
        (
          (eq_iff c.tool_name (step_label s.agent_type s)).0 name,
          (eq_iff (json_of c.arguments) (json_of (step_args s.agent_type s))).0 args,
        ),
        rw e refl,
      )

  step_line-AreLines :
      (calls : List (StepCall R)) (ss : List PlanStep)
      → All (λ s. Found rt json_of s calls) ss
      → AreLines calls ss (map (step_line rt json_of calls) ss)
  step_line-AreLines calls [] h = tt
  step_line-AreLines calls (s ∷ ss) h =
      (step_line-IsLine calls s h.0, step_line-AreLines calls ss h.1)

  -- The response has the plan's reasoning, and a line for each step.
  abbrev pub IsReport : Plan → PlanningUpdate R → Type 0
  IsReport p u =
      (u.plan ≡ p.steps)
      × ((lines : List String) × AreLines u.tool_calls p.steps lines
          × (u.response ≡ join "\n" (("**Plan:** " +++ p.reasoning) ∷ "" ∷ lines)))

  module _ (env : StepEnv R) (limit : ℕ) (answer : String → Py (PlanAnswer × String)) where
    execute-IsReport :
        (session : SessionContext) (p : Plan) (raw : String) (layers : List (List PlanStep))
        (w : Effects)
        → validate_dag p ≡ ok p
        → topological_layers p ≡ ok layers
        → length layers ≤ limit
        → (u : PlanningUpdate R) × ((execute rt json_of env limit answer session
              (ok (planned p, raw))
              w).0
            ≡ ok u)
          × IsReport p u
    unfolding execute
    execute-IsReport session p raw layers w accepted laid within = (
      with_plan rt json_of p (run_plan env (some session) limit p w).1,
      after (run_plan env (some session) limit p w)
          (run_plan_complete env (some session) limit p layers w accepted laid within).0,
      (
        refl,
        (
          map (step_line rt json_of (run_plan env (some session) limit p w).1.tool_calls) p.steps,
          step_line-AreLines (run_plan env (some session) limit p w).1.tool_calls p.steps (
              All-imp (λ s. Memᴰ s p.steps) _
                (λ s m.
                  Found-step rt json_of env (some session) limit p layers w s accepted laid within
                    m)
                p.steps (All-Memᴰ p.steps)),
          refl,
        ),
      ),
    )
      where
        after :
            (r : Py (Unit {0}) × PlanExecState R)
            → r.0 ≡ ok tt
            → (after_run rt json_of env limit answer p r).0 ≡ ok (with_plan rt json_of p r.1)
        after (ok u, st) e = refl
        after (raise x, st) e = cc

    -- Where the model's answer is a plan whose layers are within the limit, a turn of the planning agent
    -- returns, and its response has the plan's reasoning and a line for each step, in the plan's order,
    -- that reports the last call recorded for the step's label and arguments: "OK" where that call succeeded,
    -- and otherwise "FAILED" with its error.
    pub run_planning_agent-IsReport :
        {C : Type 0} (state : AgentState C) (p : Plan) (raw : String)
        (layers : List (List PlanStep)) (w : Effects)
        → plan_for rt json_of env limit answer state ≡ ok (planned p, raw)
        → topological_layers p ≡ ok layers
        → length layers ≤ limit
        → (u : PlanningUpdate R) × ((run_planning_agent rt json_of env limit answer state w).0
            ≡ ok u)
          × IsReport p u
    unfolding run_planning_agent
    run_planning_agent-IsReport state p raw layers w answered laid within = rw answered (
        execute-IsReport (session_of state) p raw layers w
          (plan_for-Sound rt json_of env limit answer state (planned p) raw answered) laid within)
