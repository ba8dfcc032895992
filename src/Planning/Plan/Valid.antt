-- ===== src/Planning/Plan/Valid.antt =====
-- The plans that `validate_dag` accepts.
use realityai_agents.Prelude.{
  ℕ, suc, ◌≤◌, ◌<◌, ◌≡◌, subst, ◌↔◌, inl, inr, arith, true, List, [], ◌∷◌, length, Bool-cases,
  Option-cases, All, All-imp, if◌then◌else◌,
}
use realityai_agents.Python.{ok}
use realityai_agents.Planning.Plan.{
  PlanStep, Plan, has, ids_of, has_duplicate, first_missing, edges_of, kahn, validate_dag,
  check_cycle, check_missing,
}
use realityai_agents.Planning.Plan.Graph.{mult, NoDup, targets, open_in}
use realityai_agents.Planning.Plan.Kahn.{IsOrder}
use realityai_agents.Planning.Plan.Acyclic.{kahn-IsOrder, kahn-all}
use realityai_agents.Planning.Plan.Edges.{
  Dependencies, Dependencies-imp, Dependencies-edge, edges_of-edge, own_ids,
  has_duplicate-NoDup_iff, first_missing-none_iff,
}

-- The place of a step in an order, from its end.
rank_in : List ℕ → ℕ → ℕ
rank_in [] v = 0
rank_in (n ∷ ns) v = let rest = rank_in ns v in if has v ns then rest else suc (length ns)

rank_in-le : (ns : List ℕ) (v : ℕ) → has v ns ≡ true → rank_in ns v ≤ length ns
unfolding rank_in
rank_in-le [] v h = cc
rank_in-le (n ∷ ns) v h = ground (arith, rank_in-le ns v)

open_in-zero :
    (done : List ℕ) (d v : ℕ) (es : List (ℕ × ℕ))
    → open_in done v es ≡ 0
    → 1 ≤ mult v (targets d es)
    → has d done ≡ true
open_in-zero done d v [] h k = absurd (omega arith)
open_in-zero done d v ((e, w) ∷ es) h k = ground (arith, open_in-zero done d v es)

-- In an order, the dependencies of a step stand behind it.
rank_in-lt :
    (es : List (ℕ × ℕ)) (ns : List ℕ) (d v : ℕ)
    → IsOrder es ns
    → has v ns ≡ true
    → 1 ≤ mult v (targets d es)
    → (has d ns ≡ true) × (rank_in ns d < rank_in ns v)
unfolding rank_in
rank_in-lt es [] d v order h k = cc
rank_in-lt es (n ∷ ns) d v order h k = elim (Bool-cases (has v ns)) [
  | inl deeper ↦ ground (arith, rank_in-lt es ns d v order.1 deeper k)
  | inr here ↦
      let e : n ≡ v = ground arith in
      let before = open_in-zero ns d v es (subst (λ x. open_in ns x es ≡ 0) e order.0) k in
      ground (arith, before, rank_in-le ns d before)
]

-- A numbering of the steps in which each has a greater number than its dependencies.
abbrev pub IsRank : List PlanStep → (ℕ → ℕ) → Type 0
IsRank ss rank = Dependencies (λ d id. rank d < rank id) ss

-- Every id is that of one step, every dependency is a step, and no step depends on itself, also not
-- through others.
abbrev pub IsDag : List PlanStep → Type 0
IsDag ss =
    NoDup (ids_of ss)
    × Dependencies (λ d id. has d (ids_of ss) ≡ true) ss
    × ((rank : ℕ → ℕ) × IsRank ss rank)

module _ (ss : List PlanStep) (unique : NoDup (ids_of ss))
    (known : Dependencies (λ d id. has d (ids_of ss) ≡ true) ss) where
  pub inside :
      (d v : ℕ)
      → 1 ≤ mult v (targets d (edges_of ss))
      → (has d (ids_of ss) ≡ true) × (has v (ids_of ss) ≡ true)
  inside =
      Dependencies-edge (λ d v. (has d (ids_of ss) ≡ true) × (has v (ids_of ss) ≡ true)) ss
        (both ss (own_ids ss) known)
    where
      both :
          (ts : List PlanStep)
          → All (λ t. has t.step_id (ids_of ss) ≡ true) ts
          → Dependencies (λ d id. has d (ids_of ss) ≡ true) ts
          → Dependencies (λ d v. (has d (ids_of ss) ≡ true) × (has v (ids_of ss) ≡ true)) ts
      both [] own known = tt
      both (t ∷ ts) own known = (
        All-imp (λ d. has d (ids_of ss) ≡ true)
            (λ d. (has d (ids_of ss) ≡ true) × (has t.step_id (ids_of ss) ≡ true))
            (λ d k. (k, own.0)) t.depends_on known.0,
        both ts own.1 known.1,
      )

  pub kahn_covers :
      kahn (ids_of ss) (edges_of ss) ≡ length (ids_of ss)
      → (done : List ℕ) × IsOrder (edges_of ss) done
        × ((v : ℕ) → has v (ids_of ss) ≡ true → has v done ≡ true)
  kahn_covers = kahn-IsOrder (ids_of ss) (edges_of ss) unique inside

  kahn-IsRank_iff :
      (kahn (ids_of ss) (edges_of ss) ≡ length (ids_of ss)) ↔ ((rank : ℕ → ℕ) × IsRank ss rank)
  kahn-IsRank_iff = (
    λ e.
        let (done, order, all_in) = kahn_covers e in
        (
          rank_in done,
          Dependencies-imp
              (λ d v edge.
                (rank_in-lt (edges_of ss) done d v order (all_in v (inside d v edge).1) edge).1)
              ss (edges_of-edge ss),
        ),
    λ (rank, falls).
        kahn-all (ids_of ss) (edges_of ss) unique inside rank
          (Dependencies-edge (λ d v. rank d < rank v) ss falls),
  )

check_cycle-ok_iff :
    (p : Plan)
    → NoDup (ids_of p.steps)
    → Dependencies (λ d id. has d (ids_of p.steps) ≡ true) p.steps
    → (check_cycle p ≡ ok p) ↔ ((rank : ℕ → ℕ) × IsRank p.steps rank)
unfolding check_cycle
check_cycle-ok_iff p unique known = (
  λ e. (kahn-IsRank_iff p.steps unique known).0 (ground arith),
  λ h. ground (arith, (kahn-IsRank_iff p.steps unique known).1 h),
)

check_missing-ok_iff :
    (p : Plan)
    → NoDup (ids_of p.steps)
    → (check_missing p (first_missing (ids_of p.steps) p.steps) ≡ ok p) ↔ (
        Dependencies (λ d id. has d (ids_of p.steps) ≡ true) p.steps
        × ((rank : ℕ → ℕ) × IsRank p.steps rank))
unfolding check_missing
check_missing-ok_iff p unique = elim (Option-cases (first_missing (ids_of p.steps) p.steps)) [
  | inl found ↦
      let known = (first_missing-none_iff (ids_of p.steps) p.steps).0 found in
      rw found (
        λ e. (known, (check_cycle-ok_iff p unique known).0 e),
        λ h. (check_cycle-ok_iff p unique known).1 h.1,
      )
  | inr (gap, found) ↦
      rw found (
        λ e. cc,
        λ h. ground (arith, found, (first_missing-none_iff (ids_of p.steps) p.steps).1 h.0),
      )
]

-- A plan is accepted exactly when its steps form a graph without cycles: no id comes twice, every
-- dependency names a step, and the steps can be numbered so that each has a greater number than
-- the steps it depends on.
pub validate_dag-ok_iff : (p : Plan) → (validate_dag p ≡ ok p) ↔ IsDag p.steps
unfolding validate_dag
validate_dag-ok_iff p = elim (Bool-cases (has_duplicate (ids_of p.steps))) [
  | inl twice ↦
      rw twice (λ e. cc, λ h. ground (arith, (has_duplicate-NoDup_iff (ids_of p.steps)).1 h.0))
  | inr once ↦
      let unique = (has_duplicate-NoDup_iff (ids_of p.steps)).0 once in
      rw once (
        λ e. let (known, ranked) = (check_missing-ok_iff p unique).0 e in (unique, known, ranked),
        λ h. (check_missing-ok_iff p unique).1 (h.1, h.2),
      )
]
