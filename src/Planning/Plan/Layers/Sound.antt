-- ===== src/Planning/Plan/Layers/Sound.antt =====
-- The layers of an accepted plan.
use realityai_agents.Prelude.{
  ℕ, zero, suc, ◌+◌, ◌≤◌, ◌<◌, ◌≡◌, refl, sym, ap, subst, inl, inr, arith, true, false, List, [],
  ◌∷◌, ◌++◌, if◌then◌else◌, eqb, is_empty, Bool-cases, length, All,
}
use realityai_agents.Python.{ok}
use realityai_agents.Planning.Plan.{PlanStep, Plan, has, ids_of, edges_of, validate_dag}
use realityai_agents.Planning.Plan.Graph.{mult, NoDup, open_in, missing, missing-zero, open_edge}
use realityai_agents.Planning.Plan.Acyclic.{has-append, missing-all}
use realityai_agents.Planning.Plan.Edges.{Dependencies, Dependencies-edge}
use realityai_agents.Planning.Plan.Valid.{IsRank, validate_dag-ok_iff, inside}
use realityai_agents.Planning.Plan.Layers.{ready_ids, sorted_ids, layers_from, topological_layers}
use realityai_agents.Planning.Plan.Layers.Counts.{
  mult-sorted_ids, has-mult_iff, mult_unique, mult-append, is_empty_eq, empty_eq, length_empty,
  length_left, has-left,
}
use realityai_agents.Planning.Plan.Layers.Rounds.{
  remaining_of, start-remaining_of, clear-remaining_of, ready-has, ready-NoDup, ready_of_open,
  ready-depends,
}
use realityai_agents.Planning.Plan.Layers.NextLayer.{
  IsOf, steps_of_total, missing-remaining_of, missing-append, layers_round, missing_some,
}

-- Each step's dependencies stand in layers before its own; `done` are the ids so far.
abbrev pub Layered : List ℕ → List (List PlanStep) → Type 0
Layered done [] = Unit
Layered done (layer ∷ layers) =
    All (λ s. All (λ d. has d done ≡ true) s.depends_on) layer
    × Layered (ids_of layer ++ done) layers

abbrev pub ids_in : List (List PlanStep) → List ℕ
ids_in [] = []
ids_in (layer ∷ layers) = ids_of layer ++ ids_in layers

-- How often an id is left to come.
abbrev pub left_of : List ℕ → List PlanStep → ℕ → ℕ
left_of done ss w = if has w done then 0 else mult w (ids_of ss)

module _ (ss : List PlanStep) (unique : NoDup (ids_of ss))
    (known : Dependencies (λ d id. has d (ids_of ss) ≡ true) ss) (rank : ℕ → ℕ)
    (falls : IsRank ss rank) where
  -- While a step is left, the one of lowest rank is ready.
  pub progress :
      (done : List ℕ) (bound v : ℕ)
      → rank v < bound
      → has v (ids_of ss) ≡ true
      → has v done ≡ false
      → (w : ℕ) × (has w (ready_ids (remaining_of done ss)) ≡ true)
  progress done zero v low h fresh = absurd (omega arith)
  progress done (suc bound) v low h fresh =
      elim (Bool-cases (eqb (open_in done v (edges_of ss)) 0)) [
        | inl none_open ↦ (v, ready_of_open done ss v h fresh (ground arith))
        | inr some_open ↦
            let (d, edge, open_one) = open_edge done v (edges_of ss) (ground arith) in
            progress done bound d
              (omega (arith, Dependencies-edge (λ d id. rank d < rank id) ss falls d v edge))
              (inside ss unique known d v edge).0 open_one
      ]

  module _ (done : List ℕ) where
    abbrev ready : List ℕ
    ready = ready_ids (remaining_of done ss)

    abbrev batch : List ℕ
    batch = sorted_ids ready

    batch-ready : (v : ℕ) → has v batch ≡ true → has v ready ≡ true
    batch-ready v h =
        ground (arith, has-mult_iff v batch, has-mult_iff v ready, mult-sorted_ids v ready)

    layer-depends :
        (layer : List PlanStep)
        → ((v : ℕ) → has v (ids_of layer) ≡ true → has v ready ≡ true)
        → All (IsOf ss) layer
        → All (λ s. All (λ d. has d done ≡ true) s.depends_on) layer
    layer-depends [] h all_of = tt
    layer-depends (s ∷ layer) h all_of = (
      ready-depends done ss s.step_id s unique (h s.step_id (ground arith)) all_of.0,
      layer-depends layer (λ v k. h v (ground arith)) all_of.1,
    )

    ready-batch : (v : ℕ) → has v ready ≡ true → has v batch ≡ true
    ready-batch v h =
        ground (arith, has-mult_iff v batch, has-mult_iff v ready, mult-sorted_ids v ready)

    shrinks :
        (w : ℕ)
        → has w ready ≡ true
        → missing (batch ++ done) (ids_of ss) < missing done (ids_of ss)
    shrinks w h =
        (missing-append batch done (ids_of ss) w).1 (ready-has done ss w h).0
          (ready-has done ss w h).1 (ready-batch w h)

    left_after : (w : ℕ) → mult w batch + left_of (batch ++ done) ss w ≡ left_of done ss w
    left_after w = ground (
      arith,
      has-append w batch done,
      has-mult_iff w batch,
      mult-sorted_ids w ready,
      has-mult_iff w ready,
      ready-has done ss w,
      mult_unique w ready (ready-NoDup done ss unique),
      mult_unique w (ids_of ss) unique,
      has-mult_iff w (ids_of ss),
    )

  layers_from-none : (fuel : ℕ) → layers_from fuel ss [] ≡ ok []
  unfolding layers_from
  layers_from-none zero = refl
  layers_from-none (suc fuel) = refl

  -- The layers from where `done` are gone.
  abbrev pub Result : List ℕ → List (List PlanStep) → Type 0
  Result done layers =
      Layered done layers
      × All (λ layer. All (IsOf ss) layer) layers
      × ((w : ℕ) → mult w (ids_in layers) ≡ left_of done ss w)

  finished-Result : (done : List ℕ) → is_empty (remaining_of done ss) ≡ true → Result done []
  finished-Result done finished = (
    tt,
    tt,
    λ w. ground (
      arith,
      has-mult_iff w (ids_of ss),
      missing-zero done (ids_of ss) (nothing_missing finished) w,
    ),
  )
    where
      nothing_missing : is_empty (remaining_of done ss) ≡ true → missing done (ids_of ss) ≡ 0
      nothing_missing e =
          ground (arith, missing-remaining_of done ss, length_empty (remaining_of done ss))

  next-Result :
      (done : List ℕ) (layer : List PlanStep) (rest : List (List PlanStep))
      → ids_of layer ≡ batch done
      → All (IsOf ss) layer
      → Result (batch done ++ done) rest
      → Result done (layer ∷ rest)
  next-Result done layer rest e all_of (ordered, rest_of, counts) = (
    (
      layer-depends done layer (λ v k. batch-ready done v (subst (λ l. has v l ≡ true) e k)) all_of,
      subst (λ l. Layered (l ++ done) rest) (sym e) ordered,
    ),
    (all_of, rest_of),
    λ w. omega (
      arith,
      mult-append w (ids_of layer) (ids_in rest),
      ap (mult w) e,
      counts w,
      left_after done w,
    ),
  )

  layers_from-Result :
      (fuel : ℕ) (done : List ℕ)
      → missing done (ids_of ss) ≤ fuel
      → (layers : List (List PlanStep)) × (layers_from fuel ss (remaining_of done ss) ≡ ok layers)
        × Result done layers
  layers_from-Result zero done lasts =
      let e : remaining_of done ss ≡ [] =
        empty_eq (remaining_of done ss) (omega (arith, missing-remaining_of done ss, lasts)) in
      ([], rw e (layers_from-none zero), finished-Result done (rw e refl))
  layers_from-Result (suc fuel) done lasts = elim (Bool-cases (is_empty (remaining_of done ss))) [
    | inl finished ↦ (
      [],
      rw (is_empty_eq (remaining_of done ss) finished) (layers_from-none (suc fuel)),
      finished-Result done finished,
    )
    | inr left ↦
        let (v, h, fresh) =
          missing_some done (ids_of ss) (
            ground
              (arith, missing-remaining_of done ss, length_left (remaining_of done ss) left)) in
        let (w, first) = progress done (suc (rank v)) v (omega arith) h fresh in
        let (layer, e, q, all_of) =
          steps_of_total ss (batch done) (λ x k. (ready-has done ss x (batch-ready done x k)).0) in
        let (rest, f, result) =
          layers_from-Result fuel (batch done ++ done)
            (omega (arith, shrinks done w first, lasts)) in
        (
          layer ∷ rest,
          layers_round ss fuel (remaining_of done ss) layer rest left
              (has-left w (ready done) first) e (rw (clear-remaining_of (batch done) done ss) f),
          next-Result done layer rest q all_of result,
        )
  ]

length-ids_of : (ss : List PlanStep) → length (ids_of ss) ≡ length ss
length-ids_of [] = refl
length-ids_of (s ∷ ss) = omega (arith, length-ids_of ss)

-- An accepted plan is laid out in layers: the "unreachable" error is not raised and the rounds end.
-- The dependencies of a step stand in layers before its own, so that the steps of one layer do not
-- depend on each other; the layers hold the plan's steps, each exactly once.
pub topological_layers-Layered :
    (p : Plan)
    → validate_dag p ≡ ok p
    → (layers : List (List PlanStep)) × (topological_layers p ≡ ok layers)
      × Layered [] layers
      × All (λ layer. All (IsOf p.steps) layer) layers
      × ((id : ℕ) → mult id (ids_in layers) ≡ mult id (ids_of p.steps))
unfolding topological_layers
topological_layers-Layered p accepted =
    let (unique, known, (rank, falls)) = (validate_dag-ok_iff p).0 accepted in
    let (layers, e, (ordered, all_of, counts)) =
      layers_from-Result p.steps unique known rank falls (length p.steps) []
        (omega (arith, missing-all (ids_of p.steps), length-ids_of p.steps)) in
    (layers, rw (start-remaining_of p.steps) e, ordered, all_of, counts)
