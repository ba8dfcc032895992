-- ===== src/Reasoning/Solver/Valid.antt =====
-- What the solver returns is a schedule that meets the constraints.
use realityai_agents.Prelude.{
  ℕ, zero, suc, String, ◌≡◌, refl, sym, ap, subst, ◌≤◌, ◌<◌, ◌+◌, ◌-◌, ◌⊎◌, inl, inr, arith, Bool,
  true, false, List, [], ◌∷◌, map, Bool-cases, if_elim, keep, length, All, All-append, All-imp,
  All-map,
}
use realityai_agents.Reasoning.Schemas.{CourseSection}
use realityai_agents.Reasoning.Solver.{
  ScheduleConstraints, Ranks, ScheduleOption, combinations, range, from_courses, Found,
  add_feasible, try_combo, try_combos, try_sizes, insert_ranked, rescore, rank, solve, sum_credits,
  key_of, is_seen, meets_hard_constraints, has_time_conflict, meets_credit_bounds,
}
use realityai_agents.Reasoning.Solver.Sections.{
  IsOpen, meets_hard_constraints-IsOpen_iff, IsFeasible, tests-IsFeasible_iff,
}

module _ {A : Type 0} where
  -- The elements of the one list stand in the other, in the same order.
  abbrev pub Sublist : List A → List A → Type 0
  Sublist [] ys = Unit
  Sublist (x ∷ xs) [] = ⊥
  Sublist (x ∷ xs) (y ∷ ys) = ((x ≡ y) × Sublist xs ys) ⊎ Sublist (x ∷ xs) ys

  pub Sublist-cons : (xs ys : List A) (y : A) → Sublist xs ys → Sublist xs (y ∷ ys)
  Sublist-cons [] ys y h = tt
  Sublist-cons (x ∷ xs) ys y h = inr h

  -- A part of the list, of the size asked for.
  abbrev pub IsPart : List A → ℕ → List A → Type 0
  IsPart xs size combo = Sublist combo xs × (length combo ≡ size)

  pub combinations-IsPart : (xs : List A) (size : ℕ) → All (IsPart xs size) (combinations xs size)
  combinations-IsPart xs zero = ((tt, refl), tt)
  combinations-IsPart [] (suc size) = tt
  combinations-IsPart (x ∷ xs) (suc size) =
      All-append (IsPart (x ∷ xs) (suc size)) (map (λ c. x ∷ c) (combinations xs size))
        (combinations xs (suc size))
        (All-map (IsPart (x ∷ xs) (suc size)) (λ c. x ∷ c) (combinations xs size)
          (All-imp (IsPart xs size) (λ c. IsPart (x ∷ xs) (suc size) (x ∷ c))
            (λ c h. (inl (refl, h.0), ap suc h.1)) (combinations xs size)
            (combinations-IsPart xs size)))
        (All-imp (IsPart xs (suc size)) (IsPart (x ∷ xs) (suc size))
          (λ c h. (Sublist-cons c xs x h.0, h.1)) (combinations xs (suc size))
          (combinations-IsPart xs (suc size)))

  -- A part of a filtered list is a part of the list whose elements pass the filter.
  module _ (p : A → Bool) where
    abbrev pub IsFiltered : List A → List A → Type 0
    IsFiltered combo xs = Sublist combo xs × All (λ x. p x ≡ true) combo

    pub keep-taken : (x : A) (xs : List A) → p x ≡ true → keep p (x ∷ xs) ≡ x ∷ keep p xs
    keep-taken x xs e = rw e refl

    pub keep-dropped : (x : A) (xs : List A) → p x ≡ false → keep p (x ∷ xs) ≡ keep p xs
    keep-dropped x xs e = rw e refl

    IsFiltered-cons :
        (c : A) (cs : List A) (x : A) (xs : List A)
        → p x ≡ true
        → (Sublist cs (keep p xs) → IsFiltered cs xs)
        → (Sublist (c ∷ cs) (keep p xs) → IsFiltered (c ∷ cs) xs)
        → Sublist (c ∷ cs) (x ∷ keep p xs)
        → IsFiltered (c ∷ cs) (x ∷ xs)
    IsFiltered-cons c cs x xs e rest later (inl (q, s)) =
        (inl (q, (rest s).0), (subst (λ y. p y ≡ true) (sym q) e, (rest s).1))
    IsFiltered-cons c cs x xs e rest later (inr s) = (inr (later s).0, (later s).1)

    pub Sublist-keep : (combo xs : List A) → Sublist combo (keep p xs) → IsFiltered combo xs
    Sublist-keep [] xs h = (tt, tt)
    Sublist-keep (c ∷ cs) [] h = absurd h
    Sublist-keep (c ∷ cs) (x ∷ xs) h = elim (Bool-cases (p x)) [
      | inl e ↦
          IsFiltered-cons c cs x xs e (Sublist-keep cs xs) (Sublist-keep (c ∷ cs) xs)
            (subst (λ l. Sublist (c ∷ cs) l) (keep-taken x xs e) h)
      | inr e ↦
          let (s, a) =
            Sublist-keep (c ∷ cs) xs (subst (λ l. Sublist (c ∷ cs) l) (keep-dropped x xs e) h) in
          (inr s, a)
    ]

-- The sizes from one bound up to another.
abbrev pub IsBetween : ℕ → ℕ → ℕ → Type 0
IsBetween first last n = (first ≤ n) × (n < last)

range-IsBetween : (first count : ℕ) → All (IsBetween first (first + count)) (range first count)
range-IsBetween first zero = tt
range-IsBetween first (suc count) = (
  (omega arith, omega arith),
  All-imp (IsBetween (suc first) (suc first + count)) (IsBetween first (first + suc count))
      (λ n h. (omega (arith, h.0), omega (arith, h.1))) (range (suc first) count)
      (range-IsBetween (suc first) count),
)

module _ (ranks : Ranks) (constraints : ScheduleConstraints) where
  -- What a round of the inner loop keeps, on combinations of a kind, both loops keep.
  module _ (Source : List CourseSection → Type 0) (Inv : Found ranks constraints → Type 0)
      (step : (combo : List CourseSection) (found : Found ranks constraints)
        → Source combo
        → Inv found
        → Inv (try_combo ranks constraints combo found)) where
    pub try_combos-keeps :
        (combos : List (List CourseSection)) (found : Found ranks constraints)
        → All Source combos
        → Inv found
        → Inv (try_combos ranks constraints combos found)
    unfolding try_combos
    try_combos-keeps [] found sources h = h
    try_combos-keeps (combo ∷ combos) found sources h =
        try_combos-keeps combos (try_combo ranks constraints combo found) sources.1
          (step combo found sources.0 h)

    pub try_sizes-keeps :
        (valid : List CourseSection) (sizes : List ℕ) (found : Found ranks constraints)
        → All (λ size. All Source (combinations valid size)) sizes
        → Inv found
        → Inv (try_sizes ranks constraints valid sizes found)
    unfolding try_sizes
    try_sizes-keeps valid [] found sources h = h
    try_sizes-keeps valid (size ∷ sizes) found sources h =
        try_sizes-keeps valid sizes (try_combos ranks constraints (combinations valid size) found)
          sources.1 (try_combos-keeps (combinations valid size) found sources.0 h)

  -- What holds of the results so far, and of each feasible combination of a kind, holds of all
  -- results after a round.
  module _ (Source : List CourseSection → Type 0) (Good : ScheduleOption ranks.Rank → Type 0)
      (good : (combo : List CourseSection)
        → Source combo
        → IsFeasible constraints combo
        → Good (from_courses ranks constraints combo)) where
    add_feasible-All :
        (combo : List CourseSection) (results : List (ScheduleOption ranks.Rank))
        → Source combo
        → All Good results
        → All Good (add_feasible ranks constraints combo results)
    unfolding add_feasible
    add_feasible-All combo results source h = elim (Bool-cases (has_time_conflict combo)) [
      | inl conflict ↦ rw conflict h
      | inr free ↦
          elim (Bool-cases
            (meets_credit_bounds ranks constraints (from_courses ranks constraints combo))) [
              | inl met ↦
                  rw (free, met)
                    (All-append Good results (from_courses ranks constraints combo ∷ []) h (
                      good combo source
                          ((tests-IsFeasible_iff ranks constraints combo).0 (free, met)),
                      tt,
                    ))
              | inr unmet ↦ rw (free, unmet) h
            ]
    ]

    try_combo-All :
        (combo : List CourseSection) (found : Found ranks constraints)
        → Source combo
        → All Good found.1
        → All Good (try_combo ranks constraints combo found).1
    unfolding try_combo
    try_combo-All combo (seen, results) source h =
        if_elim (λ (f : Found ranks constraints). All Good f.1) (is_seen (key_of combo) seen)
          (seen, results) (key_of combo ∷ seen, add_feasible ranks constraints combo results) h
          (add_feasible-All combo results source h)

  module _ (Good : ScheduleOption ranks.Rank → Type 0)
      (rescored : (o : ScheduleOption ranks.Rank)
        → Good o
        → Good (rescore ranks constraints o)) where
    insert_ranked-All :
        (o : ScheduleOption ranks.Rank) (os : List (ScheduleOption ranks.Rank))
        → Good o
        → All Good os
        → All Good (insert_ranked ranks constraints o os)
    unfolding insert_ranked
    insert_ranked-All o [] h hs = (h, tt)
    insert_ranked-All o (p ∷ ps) h hs =
        if_elim (All Good) (ranks.below o.rank_score p.rank_score)
          (p ∷ insert_ranked ranks constraints o ps) (o ∷ p ∷ ps)
          (hs.0, insert_ranked-All o ps h hs.1) (h, hs)

    rank-All :
        (os : List (ScheduleOption ranks.Rank)) → All Good os → All Good (rank ranks constraints os)
    unfolding rank
    rank-All [] hs = tt
    rank-All (o ∷ os) hs =
        insert_ranked-All (rescore ranks constraints o) (rank ranks constraints os)
          (rescored o hs.0) (rank-All os hs.1)

-- A schedule for the student: its sections are offered, in the order in which they were given, each is
-- open to the student, they can be taken together, and their number and credits are as asked for.
abbrev pub IsValid :
    (ranks : Ranks)
    → ScheduleConstraints
    → List CourseSection
    → List String
    → ScheduleOption ranks.Rank
    → Type 0
IsValid ranks constraints candidates completed o =
    Sublist o.courses candidates
    × All (IsOpen completed constraints) o.courses
    × (constraints.min_courses ≤ length o.courses)
    × (length o.courses ≤ constraints.max_courses)
    × IsFeasible constraints o.courses
    × (o.total_credits ≡ sum_credits o.courses)

module _ (ranks : Ranks) (constraints : ScheduleConstraints) (candidates : List CourseSection)
    (completed : List String) where
  abbrev pub is_open : CourseSection → Bool
  is_open c = meets_hard_constraints c completed constraints

  abbrev pub open_ones : List CourseSection
  open_ones = keep is_open candidates

  abbrev pub sizes : List ℕ
  sizes = range constraints.min_courses (suc constraints.max_courses - constraints.min_courses)

  -- A choice of offered sections that are open to the student.
  abbrev pub IsChoice : List CourseSection → Type 0
  IsChoice combo = Sublist combo candidates × All (IsOpen completed constraints) combo

  pub open_ones-IsChoice : (combo : List CourseSection) → Sublist combo open_ones → IsChoice combo
  open_ones-IsChoice combo part =
      let (sub, passed) = Sublist-keep is_open combo candidates part in
      (
        sub,
        All-imp (λ c. is_open c ≡ true) (IsOpen completed constraints)
            (λ c. (meets_hard_constraints-IsOpen_iff completed constraints c).0) combo passed,
      )

  -- What the search tries: parts of the open candidates, of a size in the bounds.
  abbrev pub IsTried : List CourseSection → Type 0
  IsTried combo =
      Sublist combo open_ones
      × (constraints.min_courses ≤ length combo)
      × (length combo ≤ constraints.max_courses)

  IsTried-IsValid :
      (combo : List CourseSection)
      → IsTried combo
      → IsFeasible constraints combo
      → IsValid ranks constraints candidates completed (from_courses ranks constraints combo)
  IsTried-IsValid combo (part, low, high) feasible =
      let (sub, open_all) = open_ones-IsChoice combo part in
      (sub, open_all, low, high, feasible, refl)

  pub combinations-IsTried : All (λ size. All IsTried (combinations open_ones size)) sizes
  combinations-IsTried =
      All-imp
        (IsBetween constraints.min_courses
          (constraints.min_courses + (suc constraints.max_courses - constraints.min_courses)))
        (λ size. All IsTried (combinations open_ones size))
        (λ size h.
          All-imp (IsPart open_ones size) IsTried
            (λ c k. (k.0, omega (arith, h.0, k.1), omega (arith, h.0, h.1, k.1)))
            (combinations open_ones size) (combinations-IsPart open_ones size))
        sizes
        (range-IsBetween constraints.min_courses
          (suc constraints.max_courses - constraints.min_courses))

  -- Every schedule that the solver returns is made of offered sections, in their order. Each
  -- section is open to the student: no meeting on an excluded day or out of the time range, and
  -- all prerequisites passed. No two of its meetings overlap, the number of its sections and the
  -- sum of their credits are in the bounds, and the sum is the one reported.
  pub solve-IsValid :
      All
        (IsValid ranks constraints candidates completed)
        (solve ranks constraints candidates completed)
  unfolding solve
  solve-IsValid =
      rank-All ranks constraints (IsValid ranks constraints candidates completed) (λ o h. h)
        (try_sizes ranks constraints open_ones sizes ([], [])).1
        (try_sizes-keeps ranks constraints IsTried
          (λ found. All (IsValid ranks constraints candidates completed) found.1)
          (try_combo-All ranks constraints IsTried (IsValid ranks constraints candidates completed)
            IsTried-IsValid)
          open_ones sizes ([], []) combinations-IsTried tt)
