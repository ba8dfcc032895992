-- ===== src/Planning/Plan/Edges.antt =====
-- The edges of a plan, and the dependencies of its steps.
use realityai_agents.Prelude.{
  ℕ, ◌+◌, ◌≤◌, ◌≡◌, refl, sym, subst, ◌↔◌, inl, inr, arith, true, false, List, [], ◌∷◌, ◌++◌, eqb,
  Bool-cases, none, ◌&&◌, All, All-append, All-imp,
}
use realityai_agents.Planning.Plan.{
  PlanStep, has, ids_of, has_duplicate, missing_in, first_missing, edges_to, edges_of,
}
use realityai_agents.Planning.Plan.Graph.{mult, NoDup, targets}

pub has_duplicate-NoDup_iff : (ns : List ℕ) → (has_duplicate ns ≡ false) ↔ NoDup ns
has_duplicate-NoDup_iff [] = (λ e. tt, λ e. refl)
has_duplicate-NoDup_iff (n ∷ ns) = ground (arith, has_duplicate-NoDup_iff ns)

missing_in-none_iff :
    (ids ds : List ℕ) → (missing_in ids ds ≡ none) ↔ All (λ d. has d ids ≡ true) ds
missing_in-none_iff ids [] = (λ e. tt, λ e. refl)
missing_in-none_iff ids (d ∷ ds) = ground (arith, missing_in-none_iff ids ds)

-- A property of each dependency of each step.
abbrev pub Dependencies : (ℕ → ℕ → Type 0) → List PlanStep → Type 0
Dependencies P ss = All (λ s. All (λ d. P d s.step_id) s.depends_on) ss

pub Dependencies-imp :
    {P Q : ℕ → ℕ → Type 0}
    → ((d id : ℕ) → P d id → Q d id)
    → (ss : List PlanStep) → Dependencies P ss
    → Dependencies Q ss
Dependencies-imp f [] h = tt
Dependencies-imp {P} {Q} f (s ∷ ss) h = (
  All-imp (λ d. P d s.step_id) (λ d. Q d s.step_id) (λ d. f d s.step_id) s.depends_on h.0,
  Dependencies-imp f ss h.1,
)

pub first_missing-none_iff :
    (ids : List ℕ) (ss : List PlanStep)
    → (first_missing ids ss ≡ none) ↔ Dependencies (λ d id. has d ids ≡ true) ss
first_missing-none_iff ids [] = (λ e. tt, λ e. refl)
first_missing-none_iff ids (s ∷ ss) =
    ground (arith, missing_in-none_iff ids s.depends_on, first_missing-none_iff ids ss)

module _ (P : ℕ → ℕ → Type 0) where
  edges_to-All :
      (id : ℕ) (ds : List ℕ)
      → All (λ d. P d id) ds
      → All {0, 0} {A = ℕ × ℕ} (λ e. P e.0 e.1) (edges_to id ds)
  edges_to-All id [] h = tt
  edges_to-All id (d ∷ ds) h = (h.0, edges_to-All id ds h.1)

  edges_of-All :
      (ss : List PlanStep)
      → Dependencies P ss
      → All {0, 0} {A = ℕ × ℕ} (λ e. P e.0 e.1) (edges_of ss)
  edges_of-All [] h = tt
  edges_of-All (s ∷ ss) h =
      All-append (λ e. P e.0 e.1) (edges_to s.step_id s.depends_on) (edges_of ss)
        (edges_to-All s.step_id s.depends_on h.0) (edges_of-All ss h.1)

  edge-All :
      (d v : ℕ) (es : List (ℕ × ℕ))
      → All {0, 0} {A = ℕ × ℕ} (λ e. P e.0 e.1) es
      → 1 ≤ mult v (targets d es)
      → P d v
  edge-All d v [] h k = absurd (omega arith)
  edge-All d v ((e, w) ∷ es) h k = elim (Bool-cases (eqb d e && eqb w v)) [
    | inl here ↦
        let p : d ≡ e = ground arith in
        let q : w ≡ v = ground arith in subst (λ x. P x v) (sym p) (subst (λ y. P e y) q h.0)
    | inr other ↦ edge-All d v es h.1 (ground arith)
  ]

  pub Dependencies-edge :
      (ss : List PlanStep)
      → Dependencies P ss
      → (d v : ℕ) → 1 ≤ mult v (targets d (edges_of ss))
      → P d v
  Dependencies-edge ss h d v = edge-All d v (edges_of ss) (edges_of-All ss h)

-- Each dependency is an edge.
mult-targets-append :
    (d v : ℕ) (es fs : List (ℕ × ℕ))
    → mult v (targets d (es ++ fs)) ≡ mult v (targets d es) + mult v (targets d fs)
mult-targets-append d v [] fs = omega arith
mult-targets-append d v ((e, w) ∷ es) fs = ground (arith, mult-targets-append d v es fs)

edges_to-edge : (id : ℕ) (ds : List ℕ) → All (λ d. 1 ≤ mult id (targets d (edges_to id ds))) ds
edges_to-edge id [] = tt
edges_to-edge id (d ∷ ds) = (
  ground arith,
  All-imp (λ x. 1 ≤ mult id (targets x (edges_to id ds)))
      (λ x. 1 ≤ mult id (targets x (edges_to id (d ∷ ds)))) (λ x k. ground arith) ds
      (edges_to-edge id ds),
)

pub edges_of-edge :
    (ss : List PlanStep) → Dependencies (λ d id. 1 ≤ mult id (targets d (edges_of ss))) ss
edges_of-edge [] = tt
edges_of-edge (s ∷ ss) = (
  All-imp (λ d. 1 ≤ mult s.step_id (targets d (edges_to s.step_id s.depends_on)))
      (λ d. 1 ≤ mult s.step_id (targets d (edges_of (s ∷ ss))))
      (λ d k.
        omega (
          arith,
          mult-targets-append d s.step_id (edges_to s.step_id s.depends_on) (edges_of ss),
          k,
        ))
      s.depends_on (edges_to-edge s.step_id s.depends_on),
  Dependencies-imp
      (λ d id k.
        omega (arith, mult-targets-append d id (edges_to s.step_id s.depends_on) (edges_of ss), k))
      ss (edges_of-edge ss),
)

pub own_ids : (ss : List PlanStep) → All (λ s. has s.step_id (ids_of ss) ≡ true) ss
own_ids [] = tt
own_ids (s ∷ ss) = (
  ground arith,
  All-imp (λ t. has t.step_id (ids_of ss) ≡ true) (λ t. has t.step_id (ids_of (s ∷ ss)) ≡ true)
      (λ t k. ground arith) ss (own_ids ss),
)
