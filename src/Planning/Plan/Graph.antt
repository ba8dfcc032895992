-- ===== src/Planning/Plan/Graph.antt =====
-- The dependency graph as a list of edges, and what the loops of `validate_dag` make of it.
use realityai_agents.Prelude.{
  not, ◌&&◌, ℕ, ◌+◌, ◌≤◌, ◌≡◌, refl, sym, ◌⊎◌, ◌↔◌, inl, inr, arith, true, false, List, [], ◌∷◌,
  ◌++◌, if◌then◌else◌, eqb, append_assoc, append_nil, Bool-cases, branch_then, branch_else, subst,
}
use realityai_agents.Planning.Plan.{has, Degrees, add_edges, release, bump, append_at, decrement}

-- How often a number stands in a list.
abbrev pub mult : ℕ → List ℕ → ℕ
mult n [] = 0
mult n (m ∷ ms) = (if eqb m n then 1 else 0) + mult n ms

abbrev pub NoDup : List ℕ → Type 0
NoDup [] = Unit
NoDup (n ∷ ns) = (has n ns ≡ false) × NoDup ns

-- The targets of the edges from `d`, and the number of edges to `v` that start outside `done`.
abbrev pub targets : ℕ → List (ℕ × ℕ) → List ℕ
targets d [] = []
targets d ((e, v) ∷ es) = let rest = targets d es in if eqb d e then v ∷ rest else rest

abbrev pub open_in : List ℕ → ℕ → List (ℕ × ℕ) → ℕ
open_in done v [] = 0
open_in done v ((e, w) ∷ es) =
    (if eqb w v then (if has e done then 0 else 1) else 0) + open_in done v es

-- How many of the ids are not done.
abbrev pub missing : List ℕ → List ℕ → ℕ
missing done [] = 0
missing done (n ∷ ns) = (if has n done then 0 else 1) + missing done ns

pub add_edges-indeg :
    (es : List (ℕ × ℕ)) (g : Degrees) (v : ℕ)
    → (add_edges es g).indeg v ≡ g.indeg v + open_in [] v es
unfolding add_edges
add_edges-indeg [] g v = omega arith
add_edges-indeg ((d, w) ∷ es) g v =
    ground
      (arith, add_edges-indeg es (record { indeg = bump w g.indeg; adj = append_at d w g.adj }) v)

pub add_edges-adj :
    (es : List (ℕ × ℕ)) (g : Degrees) (d : ℕ) → (add_edges es g).adj d ≡ g.adj d ++ targets d es
unfolding add_edges
add_edges-adj [] g d = sym (append_nil (g.adj d))
add_edges-adj ((e, w) ∷ es) g d = ground (
  arith,
  add_edges-adj es (record { indeg = bump w g.indeg; adj = append_at e w g.adj }) d,
  append_assoc (g.adj d) (w ∷ []) (targets d es),
)

-- The edges to `v` that start outside `done` either start at `d` or outside the larger list.
pub open_in-cons :
    (d : ℕ) (done : List ℕ) (v : ℕ) (es : List (ℕ × ℕ))
    → has d done ≡ false
    → open_in done v es ≡ open_in (d ∷ done) v es + mult v (targets d es)
open_in-cons d done v [] h = refl
open_in-cons d done v ((e, w) ∷ es) h = ground (arith, open_in-cons d done v es)

-- No target is met more often than it counts down.
abbrev pub Enough : List ℕ → (ℕ → ℕ) → Type 0
Enough ns indeg = (n : ℕ) → mult n ns ≤ indeg n

Enough-decrement :
    (m : ℕ) (ns : List ℕ) (indeg : ℕ → ℕ) → Enough (m ∷ ns) indeg → Enough ns (decrement m indeg)
Enough-decrement m ns indeg enough n = ground (arith, enough n)

pub release-indeg :
    (ns : List ℕ) (indeg : ℕ → ℕ) (ready : List ℕ)
    → Enough ns indeg
    → (n : ℕ) → (release ns indeg ready).0 n + mult n ns ≡ indeg n
unfolding release
release-indeg [] indeg ready enough n = omega arith
release-indeg (m ∷ ns) indeg ready enough n = ground (
  arith,
  enough n,
  release-indeg ns (decrement m indeg) (if eqb (decrement m indeg m) 0 then m ∷ ready else ready)
      (Enough-decrement m ns indeg enough) n,
)

-- Ready afterwards is what was ready, and the targets whose last open dependency is gone.
pub release-ready :
    (ns : List ℕ) (indeg : ℕ → ℕ) (ready : List ℕ)
    → Enough ns indeg
    → (n : ℕ)
    → (has n (release ns indeg ready).1 ≡ true)
      ↔ ((has n ready ≡ true) ⊎ ((1 ≤ mult n ns) × ((release ns indeg ready).0 n ≡ 0)))
unfolding release
release-ready [] indeg ready enough n = ground arith
release-ready (m ∷ ns) indeg ready enough n = ground (
  arith,
  enough n,
  release-ready ns (decrement m indeg) (if eqb (decrement m indeg m) 0 then m ∷ ready else ready)
      (Enough-decrement m ns indeg enough) n,
  release-indeg ns (decrement m indeg) (if eqb (decrement m indeg m) 0 then m ∷ ready else ready)
      (Enough-decrement m ns indeg enough) n,
)

pub release-NoDup :
    (ns : List ℕ) (indeg : ℕ → ℕ) (ready : List ℕ)
    → Enough ns indeg
    → ((n : ℕ) → has n ready ≡ true → mult n ns ≡ 0)
    → NoDup ready
    → NoDup (release ns indeg ready).1
unfolding release
release-NoDup [] indeg ready enough apart h = h
release-NoDup (m ∷ ns) indeg ready enough apart h =
    elim (Bool-cases (eqb (decrement m indeg m) 0)) [
      | inl last ↦
          subst (λ r. NoDup (release ns (decrement m indeg) r).1)
            (sym (branch_then (m ∷ ready) ready last))
            (release-NoDup ns (decrement m indeg) (m ∷ ready) (Enough-decrement m ns indeg enough)
              (λ n k. ground (arith, apart n, enough n)) (ground (arith, apart m, enough m), h))
      | inr more ↦
          subst (λ r. NoDup (release ns (decrement m indeg) r).1)
            (sym (branch_else (m ∷ ready) ready more))
            (release-NoDup ns (decrement m indeg) ready (Enough-decrement m ns indeg enough)
              (λ n k. ground (arith, apart n)) h)
    ]

pub missing-zero :
    (done ns : List ℕ) → missing done ns ≡ 0 → (v : ℕ) → has v ns ≡ true → has v done ≡ true
missing-zero done [] none_left v h = cc
missing-zero done (n ∷ ns) none_left v h = ground (arith, missing-zero done ns (ground arith) v)

pub missing-none :
    (done ns : List ℕ) → ((v : ℕ) → has v ns ≡ true → has v done ≡ true) → missing done ns ≡ 0
missing-none done [] h = refl
missing-none done (n ∷ ns) h =
    ground (arith, h n, missing-none done ns (λ v k. ground (arith, h v)))

-- An open edge starts at a step that is not done.
pub open_edge :
    (done : List ℕ) (v : ℕ) (edges : List (ℕ × ℕ))
    → 1 ≤ open_in done v edges
    → (d : ℕ) × (1 ≤ mult v (targets d edges)) × (has d done ≡ false)
open_edge done v [] h = absurd (omega arith)
open_edge done v ((e, w) ∷ edges) h = elim (Bool-cases (eqb w v && not (has e done))) [
  | inl here ↦ (e, ground arith, ground arith)
  | inr later ↦
      let (d, k, fresh) = open_edge done v edges (ground arith) in (d, ground arith, fresh)
]
