-- ===== src/Planning/Plan/Kahn.antt =====
-- Kahn's algorithm: it visits every step exactly where the dependencies have no cycle.
use realityai_agents.Prelude.{
  ℕ, zero, suc, ◌+◌, ◌≤◌, ◌<◌, ◌≡◌, refl, sym, ap, subst, ◌∙◌, ◌⊎◌, inl, inr, arith, true, false,
  List, [], ◌∷◌, length,
}
use realityai_agents.Planning.Plan.{has, visit, release}
use realityai_agents.Planning.Plan.Graph.{
  mult, NoDup, targets, open_in, missing, open_in-cons, Enough, release-indeg, release-ready,
  release-NoDup,
}

missing-cons :
    (n : ℕ) (done ids : List ℕ)
    → NoDup ids
    → has n ids ≡ true
    → has n done ≡ false
    → suc (missing (n ∷ done) ids) ≡ missing done ids
missing-cons n done [] distinct h fresh = cc
missing-cons n done (m ∷ ms) distinct h fresh =
    ground (arith, missing-cons n done ms distinct.1, missing_other n done ms)
  where
    missing_other :
        (n : ℕ) (done ms : List ℕ) → has n ms ≡ false → missing (n ∷ done) ms ≡ missing done ms
    missing_other n done [] h = refl
    missing_other n done (m ∷ ms) h = ground (arith, missing_other n done ms)

-- The steps in an order in which each comes after its dependencies, the last one first.
abbrev pub IsOrder : List (ℕ × ℕ) → List ℕ → Type 0
IsOrder es [] = Unit
IsOrder es (n ∷ ns) = (open_in ns n es ≡ 0) × IsOrder es ns

module _ (ids : List ℕ) (es : List (ℕ × ℕ)) (adj : ℕ → List ℕ) where
  -- What the loop keeps, where `done` are the steps that it has taken from `ready`.
  pub record Inv (done ready : List ℕ) (indeg : ℕ → ℕ) (visited : ℕ) : Type 0 where
    pub counts : (v : ℕ) → indeg v ≡ open_in done v es
    pub waiting :
        (v : ℕ) → has v ready ≡ true → (indeg v ≡ 0) × (has v ids ≡ true) × (has v done ≡ false)
    pub settled :
        (v : ℕ) → has v ids ≡ true → indeg v ≡ 0 → (has v ready ≡ true) ⊎ (has v done ≡ true)
    pub closed : (v : ℕ) → has v done ≡ true → indeg v ≡ 0
    pub distinct : NoDup ready
    pub counted : visited + missing done ids ≡ length ids
    pub ordered : IsOrder es done

  module _ (unique : NoDup ids) (follows : (d : ℕ) → adj d ≡ targets d es)
      (inside : (d v : ℕ) → 1 ≤ mult v (targets d es) → has v ids ≡ true) where
    module _ (done : List ℕ) (sid : ℕ) (ready : List ℕ) (indeg : ℕ → ℕ) (visited : ℕ)
        (i : Inv done (sid ∷ ready) indeg visited) where
      sid_waits : (indeg sid ≡ 0) × (has sid ids ≡ true) × (has sid done ≡ false)
      sid_waits = i.waiting sid (ground arith)

      sid_split : (v : ℕ) → indeg v ≡ open_in (sid ∷ done) v es + mult v (adj sid)
      sid_split v =
          i.counts v
          ∙ open_in-cons sid done v es sid_waits.2
          ∙ ap (λ l. open_in (sid ∷ done) v es + mult v l) (sym (follows sid))

      inside_adj : (v : ℕ) → 1 ≤ mult v (adj sid) → has v ids ≡ true
      inside_adj v h = inside sid v (subst (λ l. 1 ≤ mult v l) (follows sid) h)

      enough : Enough (adj sid) indeg
      enough v = omega (arith, sid_split v)

      waiting_after :
          (v : ℕ)
          → has v (release (adj sid) indeg ready).1 ≡ true
          → ((release (adj sid) indeg ready).0 v ≡ 0)
            × (has v ids ≡ true)
            × (has v (sid ∷ done) ≡ false)
      waiting_after v h = elim ((release-ready (adj sid) indeg ready enough v).0 h) [
        | inl old ↦
            ground (arith, i.waiting v, i.distinct.0, release-indeg (adj sid) indeg ready enough v)
        | inr (reached, last) ↦ ground (arith, inside_adj v, i.closed v, sid_waits, enough v)
      ]

      settled_after :
          (v : ℕ)
          → has v ids ≡ true
          → (release (adj sid) indeg ready).0 v ≡ 0
          → (has v (release (adj sid) indeg ready).1 ≡ true) ⊎ (has v (sid ∷ done) ≡ true)
      settled_after v h zero_now = ground (
        arith,
        i.settled v,
        (release-ready (adj sid) indeg ready enough v).1,
        release-indeg (adj sid) indeg ready enough v,
      )

      pub round-Inv :
          Inv
            (sid ∷ done)
            (release (adj sid) indeg ready).1
            (release (adj sid) indeg ready).0
            (suc visited)
      round-Inv = record {
        counts = λ v. omega (arith, release-indeg (adj sid) indeg ready enough v, sid_split v);
        waiting = waiting_after;
        settled = settled_after;
        closed = λ v h.
            ground (arith, i.closed v, sid_waits, release-indeg (adj sid) indeg ready enough v);
        distinct =
            release-NoDup (adj sid) indeg ready enough
              (λ n k. ground (arith, i.waiting n, enough n)) i.distinct.1;
        counted =
            omega (arith, i.counted, missing-cons sid done ids unique sid_waits.1 sid_waits.2);
        ordered = (omega (arith, i.counts sid, sid_waits.0), i.ordered);
      }

    -- The fuel lasts: each round takes a step from those that are missing.
    pub visit-Inv :
        (fuel : ℕ) (done ready : List ℕ) (indeg : ℕ → ℕ) (visited : ℕ)
        → Inv done ready indeg visited
        → missing done ids < fuel
        → (done' : List ℕ) × (indeg' : ℕ → ℕ) × Inv done' [] indeg'
            (visit fuel adj ready indeg visited)
    unfolding visit
    visit-Inv zero done ready indeg visited i enough_fuel = absurd (omega arith)
    visit-Inv (suc fuel) done [] indeg visited i enough_fuel = (done, indeg, i)
    visit-Inv (suc fuel) done (sid ∷ ready) indeg visited i enough_fuel =
        let j = round-Inv done sid ready indeg visited i in
        visit-Inv fuel (sid ∷ done) (release (adj sid) indeg ready).1
          (release (adj sid) indeg ready).0 (suc visited) j (omega (arith, i.counted, j.counted))
