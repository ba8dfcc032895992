-- ===== src/Planning/Run/Supersteps.antt =====
-- The runtime's loop, superstep by superstep, and the counts of the steps that have run.
use mathlib.Core.List.{Memᴰ}
use mathlib.Core.List.Memᴰ.{head, tail}
use realityai_agents.Prelude.{
  All, All-imp, ap, ◌∙◌, ℕ, zero, suc, ◌+◌, ◌≤◌, ◌≡◌, refl, inl, inr, arith, true, Option, List, [],
  ◌∷◌, ◌++◌, is_empty, Bool-cases,
}
use realityai_agents.Python.{Py, ok}
use realityai_agents.Outer.Schemas.{SessionContext}
use realityai_agents.Planning.Plan.{PlanStep, ids_of}
use realityai_agents.Planning.Plan.Graph.{mult}
use realityai_agents.Planning.Plan.Acyclic.{has-append}
use realityai_agents.Planning.Plan.Layers.Counts.{has-mult_iff, mult-append}
use realityai_agents.Planning.Plan.Layers.Sound.{left_of}
use realityai_agents.Planning.Outputs.{StepEnv}
use realityai_agents.Planning.Run.{PlanExecState, triggered, superstep, run_graph}

pub ids_of-append : (xs ys : List PlanStep) → ids_of (xs ++ ys) ≡ ids_of xs ++ ids_of ys
ids_of-append [] ys = refl
ids_of-append (x ∷ xs) ys = ap (λ l. x.step_id ∷ l) (ids_of-append xs ys)

pub mult-ids_of :
    (xs ys : List PlanStep) (id : ℕ)
    → mult id (ids_of (xs ++ ys)) ≡ mult id (ids_of xs) + mult id (ids_of ys)
mult-ids_of xs ys id = ap (mult id) (ids_of-append xs ys) ∙ mult-append id (ids_of xs) (ids_of ys)

pub All-Memᴰ : (ss : List PlanStep) → All (λ s. Memᴰ s ss) ss
All-Memᴰ [] = tt
All-Memᴰ (s ∷ ss) = (head refl, All-imp _ _ (λ t m. tail m) ss (All-Memᴰ ss))

triggered-mult :
    (done : List ℕ) (ss : List PlanStep) (id : ℕ)
    → mult id (ids_of (triggered done ss)) ≤ left_of done ss id
triggered-mult done [] id = ground arith
triggered-mult done (s ∷ ss) id = ground (arith, triggered-mult done ss id)

-- What is left to run after a superstep, and what ran in it, was left to run.
pub triggered-left_of :
    (done : List ℕ) (ss : List PlanStep) (id : ℕ)
    → mult id (ids_of (triggered done ss)) + left_of (ids_of (triggered done ss) ++ done) ss id
      ≤ left_of done ss id
triggered-left_of done ss id = ground (
  arith,
  triggered-mult done ss id,
  has-append id (ids_of (triggered done ss)) done,
  has-mult_iff id (ids_of (triggered done ss)),
)

module _ {R : Type 0} (env : StepEnv R) (session : Option SessionContext) (ss : List PlanStep) where
  abbrev pub after_superstep : List ℕ → PlanExecState R → PlanExecState R
  after_superstep done st = superstep env session (triggered done ss) st.step_outputs st

  abbrev pub Run : Type 0
  Run = Py (Unit {0}) × PlanExecState R

  -- What holds of where a run may stop, and is passed back over a superstep, holds of every run.
  pub run_graph_elim {κ} :
      (P : List ℕ → PlanExecState R → Run → Type κ)
      → ((done : List ℕ) (st : PlanExecState R) (r : Py (Unit {0}))
          → (r ≡ ok tt → is_empty (triggered done ss) ≡ true)
          → P done st (r, st))
      → ((done : List ℕ) (st : PlanExecState R) (r : Run)
          → P (ids_of (triggered done ss) ++ done) (after_superstep done st) r
          → P done st r)
      → (limit : ℕ) (done : List ℕ) (st : PlanExecState R)
      → P done st (run_graph env session limit ss done st)
  unfolding run_graph
  run_graph_elim P stop next zero done st = elim (Bool-cases (is_empty (triggered done ss))) [
    | inl e ↦ rw e (stop done st (ok tt) (λ h. e))
    | inr e ↦ rw e (stop done st _ (λ h. cc))
  ]
  run_graph_elim P stop next (suc limit) done st =
      elim (Bool-cases (is_empty (triggered done ss))) [
        | inl e ↦ rw e (stop done st (ok tt) (λ h. e))
        | inr e ↦ rw e (
            next done st _ (
              run_graph_elim P stop next limit (ids_of (triggered done ss) ++ done)
                (after_superstep done st)))
      ]
