-- ===== src/Planning/Plan/Acyclic.antt =====
-- When a plan is accepted.
use realityai_agents.Prelude.{
  ℕ, zero, suc, ◌≤◌, ◌<◌, ◌≡◌, refl, sym, subst, ◌∙◌, inl, inr, arith, Bool, true, false, List, [],
  ◌∷◌, ◌++◌, eqb, length, Bool-cases, ◌&&◌, ◌||◌, keep, branch_then, branch_else,
}
use realityai_agents.Planning.Plan.{has, reversed, roots, kahn, add_edges, no_edges}
use realityai_agents.Planning.Plan.Graph.{
  mult, NoDup, targets, missing, add_edges-indeg, add_edges-adj, missing-zero, missing-none,
  open_edge,
}
use realityai_agents.Planning.Plan.Kahn.{IsOrder, Inv, visit-Inv}

pub has-append : (v : ℕ) (ms ns : List ℕ) → has v (ms ++ ns) ≡ (has v ms || has v ns)
has-append v [] ns = refl
has-append v (m ∷ ms) ns = ground (arith, has-append v ms ns)

has-reversed : (v : ℕ) (ns : List ℕ) → has v (reversed ns) ≡ has v ns
has-reversed v [] = refl
has-reversed v (n ∷ ns) = ground (arith, has-append v (reversed ns) (n ∷ []), has-reversed v ns)

has-keep : (p : ℕ → Bool) (v : ℕ) (ns : List ℕ) → has v (keep p ns) ≡ (has v ns && p v)
has-keep p v [] = refl
has-keep p v (n ∷ ns) = elim (Bool-cases (p n)) [
  | inl kept ↦
      subst (λ l. has v l ≡ ((eqb n v || has v ns) && p v))
        (sym (branch_then (n ∷ keep p ns) (keep p ns) kept)) (ground (arith, has-keep p v ns))
  | inr dropped ↦
      subst (λ l. has v l ≡ ((eqb n v || has v ns) && p v))
        (sym (branch_else (n ∷ keep p ns) (keep p ns) dropped)) (ground (arith, has-keep p v ns))
]

NoDup-snoc : (v : ℕ) (ns : List ℕ) → NoDup ns → has v ns ≡ false → NoDup (ns ++ v ∷ [])
NoDup-snoc v [] h fresh = (refl, tt)
NoDup-snoc v (n ∷ ns) h fresh =
    (ground (arith, has-append n ns (v ∷ []), h.0), NoDup-snoc v ns h.1 (ground arith))

NoDup-reversed : (ns : List ℕ) → NoDup ns → NoDup (reversed ns)
NoDup-reversed [] h = tt
NoDup-reversed (n ∷ ns) h =
    NoDup-snoc n (reversed ns) (NoDup-reversed ns h.1) (has-reversed n ns ∙ h.0)

NoDup-keep : (p : ℕ → Bool) (ns : List ℕ) → NoDup ns → NoDup (keep p ns)
NoDup-keep p [] h = tt
NoDup-keep p (n ∷ ns) h = elim (Bool-cases (p n)) [
  | inl kept ↦
      subst NoDup (sym (branch_then (n ∷ keep p ns) (keep p ns) kept))
        (ground (arith, has-keep p n ns), NoDup-keep p ns h.1)
  | inr dropped ↦
      subst NoDup (sym (branch_else (n ∷ keep p ns) (keep p ns) dropped)) (NoDup-keep p ns h.1)
]

pub missing-all : (ns : List ℕ) → missing [] ns ≡ length ns
missing-all [] = refl
missing-all (n ∷ ns) = omega (arith, missing-all ns)

module _ (ids : List ℕ) (es : List (ℕ × ℕ)) (unique : NoDup ids)
    (inside : (d v : ℕ) → 1 ≤ mult v (targets d es) → (has d ids ≡ true) × (has v ids ≡ true)) where
  abbrev indeg : ℕ → ℕ
  indeg = (add_edges es no_edges).indeg

  start-Inv : Inv ids es (add_edges es no_edges).adj [] (roots ids indeg) indeg 0
  start-Inv = record {
    counts = λ v. omega (arith, add_edges-indeg es no_edges v);
    waiting = λ v h. ground (
      arith,
      has-reversed v (keep (λ n. eqb (indeg n) 0) ids),
      has-keep (λ n. eqb (indeg n) 0) v ids,
    );
    settled = λ v h k. inl (
        ground (
          arith,
          has-reversed v (keep (λ n. eqb (indeg n) 0) ids),
          has-keep (λ n. eqb (indeg n) 0) v ids,
        ));
    closed = λ v h. cc;
    distinct =
        NoDup-reversed (keep (λ n. eqb (indeg n) 0) ids)
          (NoDup-keep (λ n. eqb (indeg n) 0) ids unique);
    counted = omega (arith, missing-all ids);
    ordered = tt;
  }

  kahn-Inv :
      (done : List ℕ) × (indeg' : ℕ → ℕ) × Inv ids es
        (add_edges es no_edges).adj
        done
        []
        indeg'
        (kahn ids es)
  unfolding kahn
  kahn-Inv =
      visit-Inv ids es (add_edges es no_edges).adj unique (λ d. add_edges-adj es no_edges d)
        (λ d v h. (inside d v h).1) (suc (length ids)) [] (roots ids indeg) indeg 0 start-Inv
        (omega (arith, missing-all ids))

  -- All steps are visited: an order of the steps in which each comes after its dependencies.
  pub kahn-IsOrder :
      kahn ids es ≡ length ids
      → (done : List ℕ) × IsOrder es done × ((v : ℕ) → has v ids ≡ true → has v done ≡ true)
  kahn-IsOrder e =
      let (done, indeg', i) = kahn-Inv in
      (done, i.ordered, missing-zero done ids (omega (arith, i.counted, e)))

  -- Where the dependencies go down in rank, none is left over.
  module _ (rank : ℕ → ℕ) (falls : (d v : ℕ) → 1 ≤ mult v (targets d es) → rank d < rank v)
      (done : List ℕ) (indeg' : ℕ → ℕ) (visited : ℕ)
      (i : Inv ids es (add_edges es no_edges).adj done [] indeg' visited) where
    all_done : (bound v : ℕ) → rank v < bound → has v ids ≡ true → has v done ≡ true
    all_done zero v low h = absurd (omega arith)
    all_done (suc bound) v low h = elim (Bool-cases (has v done)) [
      | inl there ↦ there
      | inr absent ↦
          let (d, edge, fresh) = open_edge done v es (ground (arith, i.settled v h, i.counts v)) in
          ground (arith, all_done bound d (omega (arith, falls d v edge)) (inside d v edge).0)
    ]

  pub kahn-all :
      (rank : ℕ → ℕ)
      → ((d v : ℕ) → 1 ≤ mult v (targets d es) → rank d < rank v)
      → kahn ids es ≡ length ids
  kahn-all rank falls =
      let (done, indeg', i) = kahn-Inv in
      omega (
        arith,
        i.counted,
        missing-none done ids
            (λ v. all_done rank falls done indeg' (kahn ids es) i (suc (rank v)) v (omega arith)),
      )
