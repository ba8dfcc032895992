-- ===== src/Planning/Run/Limit.antt =====
-- The supersteps of a plan against its topological layers.
use realityai_agents.Prelude.{
  ℕ, zero, suc, ◌≤◌, ◌≡◌, refl, sym, ap, subst, ◌∙◌, ◌↔◌, inl, inr, arith, true, false, not, Option,
  List, [], ◌∷◌, ◌++◌, if◌then◌else◌, is_empty, keep, all, length,
}
use realityai_agents.Python.{ok}
use realityai_agents.Outer.Schemas.{SessionContext}
use realityai_agents.Action.Step.{Effects}
use realityai_agents.Planning.Plan.{PlanStep, Plan, has, ids_of}
use realityai_agents.Planning.Plan.Acyclic.{has-append}
use realityai_agents.Planning.Plan.Layers.{ready_ids, sorted_ids, layers_from, topological_layers}
use realityai_agents.Planning.Plan.Layers.Rounds.{
  remaining_of, start-remaining_of, clear-remaining_of, ready_step,
}
use realityai_agents.Planning.Plan.Layers.Counts.{has-mult_iff, mult-sorted_ids}
use realityai_agents.Planning.Plan.Layers.Inversion.{
  ready_none, layers_from-ok_zero, layers_from-ok_suc,
}
use realityai_agents.Planning.Outputs.{StepEnv}
use realityai_agents.Planning.Run.{
  PlanExecState, is_triggered, triggered, superstep, run_graph, run_plan, start_state,
}

abbrev pub SameIds : List ℕ → List ℕ → Type 0
SameIds ds es = (v : ℕ) → has v ds ≡ has v es

all-keep :
    (ds es ns : List ℕ)
    → SameIds ds es
    → all (λ d. has d ds) ns ≡ is_empty (keep (λ d. not (has d es)) ns)
all-keep ds es [] same = refl
all-keep ds es (n ∷ ns) same = ground (arith, same n, all-keep ds es ns same)

triggered_step :
    (done : List ℕ) (s : PlanStep) (ss : List PlanStep)
    → ids_of (triggered done (s ∷ ss)) ≡ (
        if is_triggered done s
        then s.step_id ∷ ids_of (triggered done ss)
        else ids_of (triggered done ss))
triggered_step done s ss = ground arith

-- The runtime triggers the steps that are ready.
triggered-ready :
    (ds es : List ℕ) (ss : List PlanStep)
    → SameIds ds es
    → ids_of (triggered ds ss) ≡ ready_ids (remaining_of es ss)
triggered-ready ds es [] same = refl
triggered-ready ds es (s ∷ ss) same = ground (
  arith,
  triggered_step ds s ss,
  ready_step es s ss,
  all-keep ds es s.depends_on same,
  same s.step_id,
  triggered-ready ds es ss same,
)

is_empty-ids_of : (ss : List PlanStep) → is_empty (ids_of ss) ≡ is_empty ss
is_empty-ids_of [] = refl
is_empty-ids_of (s ∷ ss) = refl

has-sorted_ids : (v : ℕ) (ns : List ℕ) → has v (sorted_ids ns) ≡ has v ns
has-sorted_ids v ns =
    ground (arith, has-mult_iff v (sorted_ids ns), has-mult_iff v ns, mult-sorted_ids v ns)

same_after : (ds es rs : List ℕ) → SameIds ds es → SameIds (rs ++ ds) (sorted_ids rs ++ es)
same_after ds es rs same v =
    ground (arith, has-append v rs ds, has-append v (sorted_ids rs) es, has-sorted_ids v rs, same v)

module _ {R : Type 0} (env : StepEnv R) (session : Option SessionContext) (ss : List PlanStep) where
  abbrev Ends : ℕ → List ℕ → PlanExecState R → Type 0
  Ends limit done st = (run_graph env session limit ss done st).0 ≡ ok tt

  Ends-none :
      (limit : ℕ) (done : List ℕ) (st : PlanExecState R)
      → is_empty (triggered done ss) ≡ true
      → Ends limit done st
  unfolding run_graph
  Ends-none zero done st e = rw e refl
  Ends-none (suc limit) done st e = rw e refl

  Ends-some :
      (limit : ℕ) (done : List ℕ) (st : PlanExecState R)
      → is_empty (triggered done ss) ≡ false
      → Ends (suc limit) done st
        ↔ Ends limit
            (ids_of (triggered done ss) ++ done)
            (superstep env session (triggered done ss) st.step_outputs st)
  unfolding run_graph
  Ends-some limit done st e = rw e (λ h. h, λ h. h)

  Ends-zero :
      (done : List ℕ) (st : PlanExecState R)
      → is_empty (triggered done ss) ≡ false
      → ¬ Ends zero done st
  unfolding run_graph
  Ends-zero done st e = rw e (λ h. cc)

pub triggered-empty :
    (ss : List PlanStep) (ds es : List ℕ)
    → SameIds ds es
    → is_empty (triggered ds ss) ≡ is_empty (ready_ids (remaining_of es ss))
triggered-empty ss ds es same =
    sym (is_empty-ids_of (triggered ds ss)) ∙ ap is_empty (triggered-ready ds es ss same)

module _ {R : Type 0} (env : StepEnv R) (session : Option SessionContext) (ss : List PlanStep) where
  -- From where `ds` have run, the layers to come.
  abbrev EndsWithin : List (List PlanStep) → List ℕ → Type 0
  EndsWithin layers ds =
      (limit : ℕ) (st : PlanExecState R) → Ends env session ss limit ds st ↔ (length layers ≤ limit)

  EndsWithin-none :
      (ds es : List ℕ) (layers : List (List PlanStep))
      → SameIds ds es
      → is_empty (remaining_of es ss) ≡ true
      → layers ≡ []
      → EndsWithin layers ds
  EndsWithin-none ds es layers same finished no_layers limit st = (
    λ h. rw no_layers (omega arith),
    λ h.
        Ends-none env session ss limit ds st
          (triggered-empty ss ds es same ∙ ready_none (remaining_of es ss) finished),
  )

  EndsWithin-some :
      (ds : List ℕ) (l : List PlanStep) (rest : List (List PlanStep))
      → is_empty (triggered ds ss) ≡ false
      → EndsWithin rest (ids_of (triggered ds ss) ++ ds)
      → EndsWithin (l ∷ rest) ds
  EndsWithin-some ds l rest left later zero st =
      (λ h. absurd (Ends-zero env session ss ds st left h), λ h. absurd (omega arith))
  EndsWithin-some ds l rest left later (suc limit) st =
      let (there, back) = Ends-some env session ss limit ds st left in
      let (within, ends) =
        later limit (superstep env session (triggered ds ss) st.step_outputs st) in
      (λ h. let m = within (there h) in omega (arith, m), λ h. back (ends (omega (arith, h))))

  abbrev batch : List ℕ → List ℕ
  batch es = sorted_ids (ready_ids (remaining_of es ss))

  after :
      (ds es : List ℕ) → SameIds ds es → SameIds (ids_of (triggered ds ss) ++ ds) (batch es ++ es)
  after ds es same =
      rw (triggered-ready ds es ss same) (same_after ds es (ready_ids (remaining_of es ss)) same)

  -- The supersteps are the layers.
  layers_from-EndsWithin :
      (fuel : ℕ) (ds es : List ℕ) (layers : List (List PlanStep))
      → SameIds ds es
      → layers_from fuel ss (remaining_of es ss) ≡ ok layers
      → EndsWithin layers ds
  layers_from-EndsWithin zero ds es layers same e =
      let (finished, no_layers) = layers_from-ok_zero ss (remaining_of es ss) layers e in
      EndsWithin-none ds es layers same finished no_layers
  layers_from-EndsWithin (suc fuel) ds es layers same e =
      elim (layers_from-ok_suc fuel ss (remaining_of es ss) layers e) [
        | inl (finished, no_layers) ↦ EndsWithin-none ds es layers same finished no_layers
        | inr (some_ready, (l, rest, split, later)) ↦
            subst (λ ls. EndsWithin ls ds) (sym split)
              (EndsWithin-some ds l rest (triggered-empty ss ds es same ∙ some_ready) (
                layers_from-EndsWithin fuel (ids_of (triggered ds ss) ++ ds) (batch es ++ es) rest
                  (after ds es same) (rw (sym (clear-remaining_of (batch es) es ss)) later)))
      ]

-- For a plan that can be laid out in layers, the runtime ends the run within its limit of supersteps
-- just when there are at most so many layers.
pub run_plan-ok_iff :
    {R : Type 0} (env : StepEnv R) (session : Option SessionContext) (limit : ℕ) (p : Plan)
    (layers : List (List PlanStep)) (w : Effects)
    → topological_layers p ≡ ok layers
    → ((run_plan env session limit p w).0 ≡ ok tt) ↔ (length layers ≤ limit)
unfolding run_plan topological_layers
run_plan-ok_iff env session limit p layers w e =
    layers_from-EndsWithin env session p.steps (length p.steps) [] [] layers (λ v. refl)
      (rw (sym (start-remaining_of p.steps)) e) limit (start_state env session w)
