-- ===== src/Planning/Plan/Layers/Rounds.antt =====
-- A round of `topological_layers`, where `done` are the ids of the layers so far.
use realityai_agents.Prelude.{
  ℕ, ◌+◌, ◌≡◌, refl, sym, ap, subst, inl, inr, arith, Bool, true, false, not, List, [], ◌∷◌, ◌++◌,
  some, if◌then◌else◌, eqb, keep, is_empty, Bool-cases, Option-cases, All, ◌&&◌, if_elim,
}
use realityai_agents.Planning.Plan.{PlanStep, has, ids_of, edges_to, edges_of}
use realityai_agents.Planning.Plan.Graph.{NoDup, open_in}
use realityai_agents.Planning.Plan.Acyclic.{has-append}
use realityai_agents.Planning.Plan.Layers.{Remaining, start_remaining, ready_ids, clear, by_id}

-- What remains when `done` are gone.
abbrev pub remaining_of : List ℕ → List PlanStep → Remaining
remaining_of done [] = []
remaining_of done (s ∷ ss) =
    let rest = remaining_of done ss in
    if has s.step_id done
    then rest
    else (s.step_id, keep (λ d. not (has d done)) s.depends_on) ∷ rest

keep_all : (ns : List ℕ) → keep (λ d. not (has d [])) ns ≡ ns
keep_all [] = refl
keep_all (n ∷ ns) = ap (λ l. n ∷ l) (keep_all ns)

pub start-remaining_of : (ss : List PlanStep) → start_remaining ss ≡ remaining_of [] ss
start-remaining_of [] = refl
start-remaining_of (s ∷ ss) = simp (start-remaining_of ss, keep_all)

keep-keep :
    (ready done ds : List ℕ)
    → keep (λ d. not (has d ready)) (keep (λ d. not (has d done)) ds)
      ≡ keep (λ d. not (has d (ready ++ done))) ds
keep-keep ready done [] = refl
keep-keep ready done (d ∷ ds) = ground (arith, keep-keep ready done ds, has-append d ready done)

pub clear-remaining_of :
    (ready done : List ℕ) (ss : List PlanStep)
    → clear ready (remaining_of done ss) ≡ remaining_of (ready ++ done) ss
clear-remaining_of ready done [] = refl
clear-remaining_of ready done (s ∷ ss) = ground (
  arith,
  clear-remaining_of ready done ss,
  has-append s.step_id ready done,
  keep-keep ready done s.depends_on,
)

abbrev pub is_ready : List ℕ → PlanStep → Bool
is_ready done s = not (has s.step_id done) && is_empty (keep (λ d. not (has d done)) s.depends_on)

pub ready_step :
    (done : List ℕ) (s : PlanStep) (ss : List PlanStep)
    → ready_ids (remaining_of done (s ∷ ss)) ≡ (
        if is_ready done s
        then s.step_id ∷ ready_ids (remaining_of done ss)
        else ready_ids (remaining_of done ss))
ready_step done s ss = ground arith

-- The ready ids are ids of steps, and not done.
pub ready-has :
    (done : List ℕ) (ss : List PlanStep) (v : ℕ)
    → has v (ready_ids (remaining_of done ss)) ≡ true
    → (has v (ids_of ss) ≡ true) × (has v done ≡ false)
ready-has done [] v h = cc
ready-has done (s ∷ ss) v h = ground (arith, ready-has done ss v)

pub ready-NoDup :
    (done : List ℕ) (ss : List PlanStep)
    → NoDup (ids_of ss)
    → NoDup (ready_ids (remaining_of done ss))
ready-NoDup done [] h = tt
ready-NoDup done (s ∷ ss) h = subst NoDup (sym (ready_step done s ss)) (
    if_elim NoDup (is_ready done s) (s.step_id ∷ ready_ids (remaining_of done ss))
      (ready_ids (remaining_of done ss))
      (ground (arith, h.0, ready-has done ss s.step_id), ready-NoDup done ss h.1)
      (ready-NoDup done ss h.1))

keep-empty :
    (done ds : List ℕ)
    → is_empty (keep (λ d. not (has d done)) ds) ≡ true
    → All (λ d. has d done ≡ true) ds
keep-empty done [] h = tt
keep-empty done (d ∷ ds) h = ground (arith, keep-empty done ds)

keep-empty_of_open :
    (done : List ℕ) (v : ℕ) (ds : List ℕ)
    → open_in done v (edges_to v ds) ≡ 0
    → is_empty (keep (λ d. not (has d done)) ds) ≡ true
keep-empty_of_open done v [] h = refl
keep-empty_of_open done v (d ∷ ds) h = ground (arith, keep-empty_of_open done v ds)

open_in-append :
    (done : List ℕ) (v : ℕ) (es fs : List (ℕ × ℕ))
    → open_in done v (es ++ fs) ≡ open_in done v es + open_in done v fs
open_in-append done v [] fs = omega arith
open_in-append done v ((e, w) ∷ es) fs = ground (arith, open_in-append done v es fs)

-- A step with no open dependency is ready.
pub ready_of_open :
    (done : List ℕ) (ss : List PlanStep) (v : ℕ)
    → has v (ids_of ss) ≡ true
    → has v done ≡ false
    → open_in done v (edges_of ss) ≡ 0
    → has v (ready_ids (remaining_of done ss)) ≡ true
ready_of_open done [] v h fresh none_open = cc
ready_of_open done (s ∷ ss) v h fresh none_open = ground (
  arith,
  ready_step done s ss,
  open_in-append done v (edges_to s.step_id s.depends_on) (edges_of ss),
  keep-empty_of_open done v s.depends_on,
  ready_of_open done ss v,
)

pub by_id-has :
    (ss : List PlanStep) (v : ℕ) (t : PlanStep)
    → by_id ss v ≡ some t
    → (has v (ids_of ss) ≡ true) × (t.step_id ≡ v)
by_id-has [] v t e = cc
by_id-has (s ∷ ss) v t e = ground (arith, by_id-has ss v t)

-- The dependencies of a ready step are done.
pub ready-depends :
    (done : List ℕ) (ss : List PlanStep) (v : ℕ) (t : PlanStep)
    → NoDup (ids_of ss)
    → has v (ready_ids (remaining_of done ss)) ≡ true
    → by_id ss v ≡ some t
    → All (λ d. has d done ≡ true) t.depends_on
ready-depends done [] v t unique h e = cc
ready-depends done (s ∷ ss) v t unique h e = elim (Bool-cases (eqb s.step_id v)) [
  | inl same ↦ elim (Option-cases (by_id ss v)) [
    | inl no_later ↦
        let here : s ≡ t = ground arith in
        subst (λ x. All (λ d. has d done ≡ true) x.depends_on) here
          (keep-empty done s.depends_on
            (ground (arith, ready_step done s ss, ready-has done ss v, unique.0)))
    | inr (later, k) ↦ ground (arith, by_id-has ss v later k, unique.0)
  ]
  | inr other ↦
      ready-depends done ss v t unique.1 (ground (arith, ready_step done s ss))
        (ground (arith, by_id-has ss v t))
]
