-- ===== src/Planning/Plan/Layers/NextLayer.antt =====
-- The step from one round to the next: the layer of the ready ids, and what is missing after it.
use realityai_agents.Prelude.{
  ℕ, suc, ◌≤◌, ◌<◌, ◌≡◌, refl, inl, inr, arith, true, false, List, [], ◌∷◌, ◌++◌, some, is_empty,
  Bool-cases, Option-cases, length, All,
}
use realityai_agents.Python.{ok}
use realityai_agents.Planning.Plan.{PlanStep, has, ids_of}
use realityai_agents.Planning.Plan.Graph.{missing}
use realityai_agents.Planning.Plan.Acyclic.{has-append}
use realityai_agents.Planning.Plan.Layers.{
  Remaining, ready_ids, sorted_ids, clear, by_id, steps_of, layers_from,
}
use realityai_agents.Planning.Plan.Layers.Rounds.{remaining_of, by_id-has}

by_id_total :
    (ss : List PlanStep) (v : ℕ)
    → has v (ids_of ss) ≡ true
    → (t : PlanStep) × (by_id ss v ≡ some t) × (t.step_id ≡ v)
by_id_total [] v h = cc
by_id_total (s ∷ ss) v h = elim (Bool-cases (has v (ids_of ss))) [
  | inl later ↦ let (t, e, q) = by_id_total ss v later in (t, rw e refl, q)
  | inr here ↦ elim (Option-cases (by_id ss v)) [
    | inl no_later ↦ (s, ground arith, ground arith)
    | inr (t, e) ↦ (t, rw e refl, (by_id-has ss v t e).1)
  ]
]

-- The steps of a list of ids, each the one that the plan has under its id.
abbrev pub IsOf : List PlanStep → PlanStep → Type 0
IsOf ss s = by_id ss s.step_id ≡ some s

pub steps_of_total :
    (ss : List PlanStep) (ids : List ℕ)
    → ((v : ℕ) → has v ids ≡ true → has v (ids_of ss) ≡ true)
    → (layer : List PlanStep) × (steps_of ss ids ≡ ok layer)
      × (ids_of layer ≡ ids)
      × All (IsOf ss) layer
steps_of_total ss [] h = ([], refl, refl, tt)
steps_of_total ss (id ∷ ids) h =
    let (t, e, q) = by_id_total ss id (h id (ground arith)) in
    let (layer, f, g, all_of) = steps_of_total ss ids (λ v k. h v (ground arith)) in
    (t ∷ layer, rw (e, f) refl, rw (q, g) refl, (rw q e, all_of))

pub missing-remaining_of :
    (done : List ℕ) (ss : List PlanStep) → length (remaining_of done ss) ≡ missing done (ids_of ss)
missing-remaining_of done [] = refl
missing-remaining_of done (s ∷ ss) = ground (arith, missing-remaining_of done ss)

pub missing-append :
    (ready done ns : List ℕ) (w : ℕ)
    → (missing (ready ++ done) ns ≤ missing done ns)
      × (has w ns ≡ true
          → has w done ≡ false
          → has w ready ≡ true
          → missing (ready ++ done) ns < missing done ns)
missing-append ready done [] w = (omega arith, λ h k l. cc)
missing-append ready done (n ∷ ns) w =
    ground (arith, missing-append ready done ns w, has-append n ready done, has-append w ready done)

pub layers_round :
    (ss : List PlanStep) (fuel : ℕ) (remaining : Remaining) (layer : List PlanStep)
    (rest : List (List PlanStep))
    → is_empty remaining ≡ false
    → is_empty (ready_ids remaining) ≡ false
    → steps_of ss (sorted_ids (ready_ids remaining)) ≡ ok layer
    → layers_from fuel ss (clear (sorted_ids (ready_ids remaining)) remaining) ≡ ok rest
    → layers_from (suc fuel) ss remaining ≡ ok (layer ∷ rest)
unfolding layers_from
layers_round ss fuel [] layer rest some_left some_ready e f = cc
layers_round ss fuel (r ∷ remaining) layer rest some_left some_ready e f =
    rw (some_ready, e, f) refl

pub missing_some :
    (done ns : List ℕ) → 1 ≤ missing done ns → (v : ℕ) × (has v ns ≡ true) × (has v done ≡ false)
missing_some done [] h = absurd (omega arith)
missing_some done (n ∷ ns) h = elim (Bool-cases (has n done)) [
  | inl gone ↦ let (v, k, fresh) = missing_some done ns (ground arith) in (v, ground arith, fresh)
  | inr fresh ↦ (n, ground arith, fresh)
]
