-- ===== src/Reasoning/Solver/Complete.antt =====
-- What the solver finds. A combination stands for all others of the same courses, since the search
-- tries one of them only.
use realityai_agents.Prelude.{
  ℕ, zero, suc, String, ◌≡◌, refl, sym, ap, subst, ◌∙◌, ◌≤◌, ◌<◌, ◌+◌, ◌-◌, ◌⊎◌, inl, inr, arith,
  eq_iff, test_refl, Bool, true, List, [], ◌∷◌, map, Bool-cases, keep, length, if_elim, ◌||◌, All,
  All-imp, Any, Any-append_left, Any-append_right, Any-map, Any-imp, ltb, ltb→lt, not_ltb→le,
}
use realityai_agents.Reasoning.Schemas.{CourseSection}
use realityai_agents.Reasoning.Solver.{
  ScheduleConstraints, Ranks, ScheduleOption, combinations, range, from_courses, Found,
  add_feasible, try_combo, try_combos, try_sizes, insert_ranked, rescore, rank, solve, key_of,
  is_seen, same_key, has_time_conflict, meets_credit_bounds,
}
use realityai_agents.Reasoning.Solver.Sections.{
  IsOpen, meets_hard_constraints-IsOpen_iff, IsFeasible, tests-IsFeasible_iff,
}
use realityai_agents.Reasoning.Solver.Valid.{
  Sublist, keep-taken, keep-dropped, is_open, IsTried, open_ones, sizes, IsChoice,
  open_ones-IsChoice, combinations-IsTried, try_combos-keeps, try_sizes-keeps,
}

module _ {A : Type 0} where
  keep-Sublist :
      (p : A → Bool) (combo xs : List A)
      → Sublist combo xs
      → All (λ x. p x ≡ true) combo
      → Sublist combo (keep p xs)
  keep-Sublist p [] xs h passed = tt
  keep-Sublist p (c ∷ cs) [] h passed = absurd h
  keep-Sublist p (c ∷ cs) (x ∷ xs) (inl (q, s)) passed =
      subst (λ l. Sublist (c ∷ cs) l) (sym (keep-taken p x xs (subst (λ y. p y ≡ true) q passed.0)))
        (inl (q, keep-Sublist p cs xs s passed.1))
  keep-Sublist p (c ∷ cs) (x ∷ xs) (inr s) passed = elim (Bool-cases (p x)) [
    | inl e ↦
        subst (λ l. Sublist (c ∷ cs) l) (sym (keep-taken p x xs e))
          (inr (keep-Sublist p (c ∷ cs) xs s passed))
    | inr e ↦
        subst (λ l. Sublist (c ∷ cs) l) (sym (keep-dropped p x xs e))
          (keep-Sublist p (c ∷ cs) xs s passed)
  ]

  -- Every part of the list is one of the combinations of its size.
  combinations-all :
      (combo xs : List A) → Sublist combo xs → Any (λ d. d ≡ combo) (combinations xs (length combo))
  combinations-all [] xs h = inl refl
  combinations-all (c ∷ cs) [] h = absurd h
  combinations-all (c ∷ cs) (x ∷ xs) (inl (q, s)) =
      Any-append_left (λ d. d ≡ c ∷ cs) (map (λ d. x ∷ d) (combinations xs (length cs)))
        (combinations xs (suc (length cs)))
        (Any-map (λ d. d ≡ c ∷ cs) (λ d. x ∷ d) (combinations xs (length cs))
          (Any-imp (λ d. d ≡ cs) (λ d. x ∷ d ≡ c ∷ cs)
            (λ d e. ap (λ l. x ∷ l) e ∙ ap (λ y. y ∷ cs) (sym q)) (combinations xs (length cs))
            (combinations-all cs xs s)))
  combinations-all (c ∷ cs) (x ∷ xs) (inr s) =
      Any-append_right (λ d. d ≡ c ∷ cs) (map (λ d. x ∷ d) (combinations xs (length cs)))
        (combinations xs (suc (length cs))) (combinations-all (c ∷ cs) xs s)

range-all :
    (first count n : ℕ) → first ≤ n → n < first + count → Any (λ m. m ≡ n) (range first count)
range-all first zero n low high = absurd (omega (arith, low, high))
range-all first (suc count) n low high = elim (Bool-cases (ltb first n)) [
  | inl e ↦
      inr (range-all (suc first) count n (omega (arith, ltb→lt first n e)) (omega (arith, high)))
  | inr e ↦ inl (omega (arith, low, not_ltb→le first n e))
]

same_key-eq : (ss ts : List String) → same_key ss ts ≡ true → ss ≡ ts
same_key-eq [] [] h = refl
same_key-eq [] (t ∷ ts) h = cc
same_key-eq (s ∷ ss) [] h = cc
same_key-eq (s ∷ ss) (t ∷ ts) h =
    ap (λ u. u ∷ ss) ((eq_iff s t).0 (ground arith))
    ∙ ap (λ l. t ∷ l) (same_key-eq ss ts (ground arith))

same_key_refl : (ss : List String) → same_key ss ss ≡ true
same_key_refl [] = refl
same_key_refl (s ∷ ss) = rw (test_refl s) (same_key_refl ss)

every : {A : Type 0} → (xs : List A) → All {0, 0} (λ x. Unit) xs
every [] = tt
every (x ∷ xs) = (tt, every xs)

every_size :
    (valid : List CourseSection) (sizes : List ℕ)
    → All (λ size. All {0, 0} (λ c. Unit) (combinations valid size)) sizes
every_size valid [] = tt
every_size valid (size ∷ sizes) = (every (combinations valid size), every_size valid sizes)

module _ (ranks : Ranks) (constraints : ScheduleConstraints) (key : List String) where
  abbrev pub HasKey : ScheduleOption ranks.Rank → Type 0
  HasKey o = key_of o.courses ≡ key

  -- A combination of the courses in question is feasible.
  abbrev IsSafe : List CourseSection → Type 0
  IsSafe combo = key_of combo ≡ key → IsFeasible constraints combo

  -- If the courses were seen, there is a result for them.
  abbrev IsSettled : Found ranks constraints → Type 0
  IsSettled (seen, results) = is_seen key seen ≡ true → Any HasKey results

  add_feasible-kept :
      (combo : List CourseSection) (results : List (ScheduleOption ranks.Rank))
      → Any HasKey results
      → Any HasKey (add_feasible ranks constraints combo results)
  unfolding add_feasible
  add_feasible-kept combo results h = elim (Bool-cases (has_time_conflict combo)) [
    | inl conflict ↦ rw conflict h
    | inr free ↦
        elim (Bool-cases
          (meets_credit_bounds ranks constraints (from_courses ranks constraints combo))) [
            | inl met ↦
                rw (free, met)
                  (Any-append_left HasKey results (from_courses ranks constraints combo ∷ []) h)
            | inr unmet ↦ rw (free, unmet) h
          ]
  ]

  add_feasible-added :
      (combo : List CourseSection) (results : List (ScheduleOption ranks.Rank))
      → IsFeasible constraints combo
      → key_of combo ≡ key
      → Any HasKey (add_feasible ranks constraints combo results)
  unfolding add_feasible
  add_feasible-added combo results feasible e =
      let (free, met) = (tests-IsFeasible_iff ranks constraints combo).1 feasible in
      rw (free, met)
        (Any-append_right HasKey results (from_courses ranks constraints combo ∷ []) (inl e))

  try_combo-IsSettled :
      (combo : List CourseSection) (found : Found ranks constraints)
      → IsSafe combo
      → IsSettled found
      → IsSettled (try_combo ranks constraints combo found)
  unfolding try_combo
  try_combo-IsSettled combo (seen, results) safe h =
      elim (Bool-cases (is_seen (key_of combo) seen)) [
        | inl old ↦ rw old h
        | inr new ↦ rw new (λ seen_now. elim (Bool-cases (same_key (key_of combo) key)) [
          | inl same ↦
              let e = same_key-eq (key_of combo) key same in
              add_feasible-added combo results (safe e) e
          | inr different ↦ add_feasible-kept combo results (h (ground arith))
        ])
      ]

  -- What was seen stays seen, and a combination of the courses makes them seen.
  try_combo-seen :
      (combo : List CourseSection) (found : Found ranks constraints)
      → is_seen key found.0 ≡ true
      → is_seen key (try_combo ranks constraints combo found).0 ≡ true
  unfolding try_combo
  try_combo-seen combo (seen, results) h = elim (Bool-cases (is_seen (key_of combo) seen)) [
    | inl old ↦ rw old h
    | inr new ↦ rw new (ground arith)
  ]

  try_combo-marks :
      (combo : List CourseSection) (found : Found ranks constraints)
      → key_of combo ≡ key
      → is_seen key (try_combo ranks constraints combo found).0 ≡ true
  unfolding try_combo
  try_combo-marks combo (seen, results) e = elim (Bool-cases (is_seen (key_of combo) seen)) [
    | inl old ↦ rw old (subst (λ k. is_seen k seen ≡ true) e old)
    | inr new ↦ rw new (
        subst (λ k. (same_key (key_of combo) k || is_seen k seen) ≡ true) e
          (rw (same_key_refl (key_of combo)) refl))
  ]

  try_combos-marks :
      (combos : List (List CourseSection)) (found : Found ranks constraints)
      → Any (λ combo. key_of combo ≡ key) combos
      → is_seen key (try_combos ranks constraints combos found).0 ≡ true
  unfolding try_combos
  try_combos-marks [] found h = absurd h
  try_combos-marks (combo ∷ combos) found (inl e) =
      try_combos-keeps ranks constraints (λ c. Unit) (λ f. is_seen key f.0 ≡ true)
        (λ c f u h. try_combo-seen c f h) combos (try_combo ranks constraints combo found)
        (every combos) (try_combo-marks combo found e)
  try_combos-marks (combo ∷ combos) found (inr h) =
      try_combos-marks combos (try_combo ranks constraints combo found) h

  try_sizes-marks :
      (valid : List CourseSection) (sizes : List ℕ) (found : Found ranks constraints)
      → Any (λ size. Any (λ combo. key_of combo ≡ key) (combinations valid size)) sizes
      → is_seen key (try_sizes ranks constraints valid sizes found).0 ≡ true
  unfolding try_sizes
  try_sizes-marks valid [] found h = absurd h
  try_sizes-marks valid (size ∷ sizes) found (inl h) =
      try_sizes-keeps ranks constraints (λ c. Unit) (λ f. is_seen key f.0 ≡ true)
        (λ c f u k. try_combo-seen c f k) valid sizes
        (try_combos ranks constraints (combinations valid size) found) (every_size valid sizes)
        (try_combos-marks (combinations valid size) found h)
  try_sizes-marks valid (size ∷ sizes) found (inr h) =
      try_sizes-marks valid sizes (try_combos ranks constraints (combinations valid size) found) h

  insert_ranked-HasKey :
      (o : ScheduleOption ranks.Rank) (os : List (ScheduleOption ranks.Rank))
      → HasKey o ⊎ Any HasKey os
      → Any HasKey (insert_ranked ranks constraints o os)
  unfolding insert_ranked
  insert_ranked-HasKey o [] h = h
  insert_ranked-HasKey o (p ∷ ps) (inl k) =
      if_elim (Any HasKey) (ranks.below o.rank_score p.rank_score)
        (p ∷ insert_ranked ranks constraints o ps) (o ∷ p ∷ ps)
        (inr (insert_ranked-HasKey o ps (inl k))) (inl k)
  insert_ranked-HasKey o (p ∷ ps) (inr (inl k)) =
      if_elim (Any HasKey) (ranks.below o.rank_score p.rank_score)
        (p ∷ insert_ranked ranks constraints o ps) (o ∷ p ∷ ps) (inl k) (inr (inl k))
  insert_ranked-HasKey o (p ∷ ps) (inr (inr k)) =
      if_elim (Any HasKey) (ranks.below o.rank_score p.rank_score)
        (p ∷ insert_ranked ranks constraints o ps) (o ∷ p ∷ ps)
        (inr (insert_ranked-HasKey o ps (inr k))) (inr (inr k))

  rank-HasKey :
      (os : List (ScheduleOption ranks.Rank))
      → Any HasKey os
      → Any HasKey (rank ranks constraints os)
  unfolding rank
  rank-HasKey [] h = absurd h
  rank-HasKey (o ∷ os) (inl h) =
      insert_ranked-HasKey (rescore ranks constraints o) (rank ranks constraints os) (inl h)
  rank-HasKey (o ∷ os) (inr h) =
      insert_ranked-HasKey (rescore ranks constraints o) (rank ranks constraints os)
        (inr (rank-HasKey os h))

module _ (ranks : Ranks) (constraints : ScheduleConstraints) (candidates : List CourseSection)
    (completed : List String) where
  abbrev valid : List CourseSection
  valid = open_ones ranks constraints candidates completed

  abbrev bounds : List ℕ
  bounds = sizes ranks constraints candidates completed

  IsChoice-valid :
      (combo : List CourseSection)
      → IsChoice ranks constraints candidates completed combo
      → Sublist combo valid
  IsChoice-valid combo (sub, opens) =
      keep-Sublist (is_open ranks constraints candidates completed) combo candidates sub (
        All-imp (IsOpen completed constraints)
          (λ c. is_open ranks constraints candidates completed c ≡ true)
          (λ c. (meets_hard_constraints-IsOpen_iff completed constraints c).1) combo opens)

  -- The search meets the courses of a choice at the size of the choice.
  bounds-key :
      (combo : List CourseSection)
      → IsChoice ranks constraints candidates completed combo
      → constraints.min_courses ≤ length combo
      → length combo ≤ constraints.max_courses
      → Any (λ size. Any (λ d. key_of d ≡ key_of combo) (combinations valid size)) bounds
  bounds-key combo choice low high =
      Any-imp (λ m. m ≡ length combo)
        (λ size. Any (λ d. key_of d ≡ key_of combo) (combinations valid size))
        (λ m e.
          subst (λ size. Any (λ d. key_of d ≡ key_of combo) (combinations valid size)) (sym e)
            (Any-imp (λ d. d ≡ combo) (λ d. key_of d ≡ key_of combo) (λ d q. ap key_of q)
              (combinations valid (length combo))
              (combinations-all combo valid (IsChoice-valid combo choice))))
        bounds
        (range-all constraints.min_courses (suc constraints.max_courses - constraints.min_courses)
          (length combo) low (omega (arith, low, high)))

  -- For a choice of offered sections that are open to the student, of a size in the bounds, the
  -- solver returns a schedule of the same courses, provided that this choice and every other one
  -- of sections for the same courses can be taken together with credits in their bounds.
  pub solve_complete :
      (combo : List CourseSection)
      → IsChoice ranks constraints candidates completed combo
      → constraints.min_courses ≤ length combo
      → length combo ≤ constraints.max_courses
      → ((other : List CourseSection)
          → IsChoice ranks constraints candidates completed other
          → key_of other ≡ key_of combo
          → IsFeasible constraints other)
      → Any
          (λ (o : ScheduleOption ranks.Rank). key_of o.courses ≡ key_of combo)
          (solve ranks constraints candidates completed)
  unfolding solve
  solve_complete combo choice low high safe =
      let found = try_sizes ranks constraints valid bounds ([], []) in
      rank-HasKey ranks constraints (key_of combo) found.1 (
        try_sizes-keeps ranks constraints (IsSafe ranks constraints (key_of combo))
          (IsSettled ranks constraints (key_of combo))
          (try_combo-IsSettled ranks constraints (key_of combo)) valid bounds ([], [])
          (All-imp
            (λ size. All (IsTried ranks constraints candidates completed) (combinations valid size))
            (λ size. All (IsSafe ranks constraints (key_of combo)) (combinations valid size))
            (λ size tried.
              All-imp (IsTried ranks constraints candidates completed)
                (IsSafe ranks constraints (key_of combo))
                (λ c t. safe c (open_ones-IsChoice ranks constraints candidates completed c t.0))
                (combinations valid size) tried)
            bounds (combinations-IsTried ranks constraints candidates completed))
          (λ h. cc)
          (try_sizes-marks ranks constraints (key_of combo) valid bounds ([], [])
            (bounds-key combo choice low high)))
