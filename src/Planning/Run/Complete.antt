-- ===== src/Planning/Run/Complete.antt =====
-- What a run that ends has done: every step of the plan, once.
use mathlib.Core.Bool.{false≢true}
use mathlib.Core.List.{Memᴰ, map-append}
use realityai_agents.Prelude.{
  ℕ, suc, ◌+◌, ◌≤◌, ◌≡◌, refl, sym, ◌∙◌, inl, inr, arith, String, true, ◌||◌, Option, List, [], ◌∷◌,
  ◌++◌, map, if_elim, eqb, is_empty, length, Bool-cases, All, All-append, All-keep, append_nil,
  append_assoc,
}
use realityai_agents.Python.{Py, ok, raise}
use realityai_agents.Outer.Schemas.{SessionContext}
use realityai_agents.Action.Step.{Effects}
use realityai_agents.Planning.Plan.{PlanStep, Plan, has, is_set, ids_of, validate_dag}
use realityai_agents.Planning.Plan.Graph.{mult, NoDup, missing, missing-zero}
use realityai_agents.Planning.Plan.Acyclic.{has-append}
use realityai_agents.Planning.Plan.Valid.{validate_dag-ok_iff}
use realityai_agents.Planning.Plan.Layers.Rounds.{remaining_of}
use realityai_agents.Planning.Plan.Layers.{ready_ids, topological_layers}
use realityai_agents.Planning.Plan.Layers.Counts.{has-mult_iff, mult_unique, has-left}
use realityai_agents.Planning.Plan.Layers.NextLayer.{missing_some}
use realityai_agents.Planning.Plan.Layers.Sound.{left_of, progress}
use realityai_agents.Planning.Outputs.{Output, Outputs, get_output, StepEnv}
use realityai_agents.Planning.Node.{
  StepArgs, StepCall, NodeUpdate, step_label, step_args, is_denial, after_dispatch, step_node,
}
use realityai_agents.Planning.Run.{
  PlanExecState, is_triggered, triggered, put_output, superstep, run_graph, run_plan, start_state,
  merged,
}
use realityai_agents.Planning.Run.Limit.{triggered-empty, run_plan-ok_iff}
use realityai_agents.Planning.Run.Supersteps.{
  ids_of-append, mult-ids_of, All-Memᴰ, triggered-left_of, after_superstep, run_graph_elim,
}

get_output-put_output :
    {R : Type 0} (id i : ℕ) (o : Output R) (os : Outputs R)
    → is_set (get_output id (put_output i o os)) ≡ (eqb i id || is_set (get_output id os))
get_output-put_output id i o [] = ground arith
get_output-put_output id i o ((j, p) ∷ os) = ground (arith, get_output-put_output id i o os)

-- What a recorded call says of its step.
abbrev pub named : {R : Type 0} → StepCall R → String × StepArgs
named c = (c.tool_name, c.arguments)

abbrev pub name_of : PlanStep → String × StepArgs
name_of s = (step_label s.agent_type s, step_args s.agent_type s)

module _ {R : Type 0} (env : StepEnv R) (session : Option SessionContext) where
  named-after_dispatch :
      (s : PlanStep) (r : Py (Output R)) → named (after_dispatch env s r).call ≡ name_of s
  unfolding after_dispatch
  named-after_dispatch s (raise e) = refl
  named-after_dispatch s (ok o) =
      if_elim (λ (u : NodeUpdate R). named u.call ≡ name_of s) (is_denial s.agent_type o) _ _ refl
        refl

  abbrev node_of : PlanStep → Outputs R → PlanExecState R → NodeUpdate R × Effects
  node_of s before st = step_node env s before session st.effects

  abbrev put_in : PlanStep → Outputs R → PlanExecState R → PlanExecState R
  put_in s before st = merged env session s (node_of s before st).0 (node_of s before st).1 st

  named-step_node :
      (s : PlanStep) (before : Outputs R) (st : PlanExecState R)
      → named (node_of s before st).0.call ≡ name_of s
  unfolding step_node
  named-step_node s before st = named-after_dispatch s _

  superstep-named :
      (ss : List PlanStep) (before : Outputs R) (st : PlanExecState R)
      → map named (superstep env session ss before st).tool_calls
        ≡ map named st.tool_calls ++ map name_of ss
  unfolding superstep
  superstep-named [] before st = sym (append_nil (map named st.tool_calls))
  superstep-named (s ∷ ss) before st =
      superstep-named ss before (put_in s before st)
      ∙ rw
          (
            map-append named st.tool_calls ((node_of s before st).0.call ∷ []),
            named-step_node s before st,
            append_assoc (map named st.tool_calls) (name_of s ∷ []) (map name_of ss),
          )
          refl

  superstep-outputs :
      (ss : List PlanStep) (before : Outputs R) (st : PlanExecState R) (id : ℕ)
      → is_set (get_output id (superstep env session ss before st).step_outputs)
        ≡ (has id (ids_of ss) || is_set (get_output id st.step_outputs))
  unfolding superstep
  superstep-outputs [] before st id = refl
  superstep-outputs (s ∷ ss) before st id = ground (
    arith,
    superstep-outputs ss before (put_in s before st) id,
    get_output-put_output id s.step_id (node_of s before st).0.output st.step_outputs,
  )

module _ {R : Type 0} (env : StepEnv R) (session : Option SessionContext) (ss : List PlanStep)
    (unique : NoDup (ids_of ss)) where
  -- Where `done` have run: each once, with its recorded call and its output.
  record Ran (done : List ℕ) (st : PlanExecState R) : Type 0 where
    steps : List PlanStep
    members : All (λ s. Memᴰ s ss) steps
    counts : (id : ℕ) → mult id (ids_of steps) + left_of done ss id ≡ mult id (ids_of ss)
    seen : (id : ℕ) → has id (ids_of steps) ≡ has id done
    calls : map named st.tool_calls ≡ map name_of steps
    outputs : (id : ℕ) → is_set (get_output id st.step_outputs) ≡ has id done

  left_of-superstep :
      (done : List ℕ) (id : ℕ)
      → mult id (ids_of (triggered done ss)) + left_of (ids_of (triggered done ss) ++ done) ss id
        ≡ left_of done ss id
  left_of-superstep done id = ground (
    arith,
    triggered-left_of done ss id,
    has-append id (ids_of (triggered done ss)) done,
    has-mult_iff id (ids_of (triggered done ss)),
    mult_unique id (ids_of ss) unique,
  )

  start-Ran : (w : Effects) → Ran [] (start_state env session w)
  start-Ran w = record {
    steps = [];
    members = tt;
    counts = λ id. omega arith;
    seen = λ id. refl;
    calls = refl;
    outputs = λ id. refl;
  }

  superstep-Ran :
      (done : List ℕ) (st : PlanExecState R)
      → Ran done st
      → Ran (ids_of (triggered done ss) ++ done) (after_superstep env session ss done st)
  superstep-Ran done st h = record {
    steps = h.steps ++ triggered done ss;
    members =
        All-append _ h.steps (triggered done ss) h.members
          (All-keep _ (is_triggered done) ss (All-Memᴰ ss));
    counts = λ id.
        omega (
          arith,
          h.counts id,
          left_of-superstep done id,
          mult-ids_of h.steps (triggered done ss) id,
        );
    seen = λ id. ground (
      arith,
      h.seen id,
      has-append id (ids_of (triggered done ss)) done,
      has-append id (ids_of h.steps) (ids_of (triggered done ss)),
      ids_of-append h.steps (triggered done ss),
    );
    calls =
        superstep-named env session (triggered done ss) st.step_outputs st
        ∙ rw (h.calls, map-append name_of h.steps (triggered done ss)) refl;
    outputs = λ id. ground (
      arith,
      superstep-outputs env session (triggered done ss) st.step_outputs st id,
      h.outputs id,
      has-append id (ids_of (triggered done ss)) done,
    );
  }

  -- What a run that ends well leaves behind.
  abbrev Ended : PlanExecState R → Type 0
  Ended st = (done : List ℕ) × Ran done st × (is_empty (triggered done ss) ≡ true)

  run_graph-Ended :
      (limit : ℕ) (done : List ℕ) (st : PlanExecState R)
      → Ran done st
      → (run_graph env session limit ss done st).0 ≡ ok tt
      → Ended (run_graph env session limit ss done st).1
  run_graph-Ended =
      run_graph_elim env session ss (λ done st r. Ran done st → r.0 ≡ ok tt → Ended r.1)
        (λ done st r ends h e. (done, h, ends e))
        (λ done st r later h e. later (superstep-Ran done st h) e)

-- Nothing to run is left only where all steps have run.
nothing_missing :
    (p : Plan) (done : List ℕ)
    → validate_dag p ≡ ok p
    → is_empty (triggered done p.steps) ≡ true
    → missing done (ids_of p.steps) ≡ 0
nothing_missing p done accepted idle = elim (Bool-cases (eqb (missing done (ids_of p.steps)) 0)) [
  | inl e ↦ ground arith
  | inr e ↦
      let (unique, known, (rank, falls)) = (validate_dag-ok_iff p).0 accepted in
      let (v, h, fresh) = missing_some done (ids_of p.steps) (ground arith) in
      let (w, ready) =
        progress p.steps unique known rank falls done (suc (rank v)) v (omega arith) h fresh in
      absurd (
        false≢true (
          sym (has-left w (ready_ids (remaining_of done p.steps)) ready)
          ∙ sym (triggered-empty p.steps done done (λ v. refl))
          ∙ idle))
]

-- The run of an accepted plan with at most as many layers as the limit ends, and then it has made the
-- calls of the plan's steps in some order, each step once, every one recorded under its label and its
-- arguments, and there are outputs for just the plan's steps: none is left out, even where others
-- fail.
pub run_plan_complete :
    {R : Type 0} (env : StepEnv R) (session : Option SessionContext) (limit : ℕ) (p : Plan)
    (layers : List (List PlanStep)) (w : Effects)
    → validate_dag p ≡ ok p
    → topological_layers p ≡ ok layers
    → length layers ≤ limit
    → ((run_plan env session limit p w).0 ≡ ok tt)
      × ((ran : List PlanStep) × All (λ s. Memᴰ s p.steps) ran
          × ((id : ℕ) → mult id (ids_of ran) ≡ mult id (ids_of p.steps))
          × (map named (run_plan env session limit p w).1.tool_calls ≡ map name_of ran)
          × ((id : ℕ)
              → is_set (get_output id (run_plan env session limit p w).1.step_outputs)
                ≡ has id (ids_of p.steps)))
unfolding run_plan
run_plan_complete env session limit p layers w accepted laid within =
    let unique = ((validate_dag-ok_iff p).0 accepted).0 in
    let ends = (run_plan-ok_iff env session limit p layers w laid).1 within in
    let (done, h, idle) =
      run_graph-Ended env session p.steps unique limit [] (start_state env session w)
        (start-Ran env session p.steps unique w) ends in
    (
      ends,
      (
        h.steps,
        h.members,
        (λ id. ground (
          arith,
          h.counts id,
          missing-zero done (ids_of p.steps) (nothing_missing p done accepted idle) id,
          has-mult_iff id (ids_of p.steps),
        )),
        h.calls,
        λ id. ground (
          arith,
          h.outputs id,
          h.seen id,
          h.counts id,
          missing-zero done (ids_of p.steps) (nothing_missing p done accepted idle) id,
          has-mult_iff id (ids_of p.steps),
          has-mult_iff id (ids_of h.steps),
        ),
      ),
    )
