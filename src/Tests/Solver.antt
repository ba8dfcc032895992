-- ===== src/Tests/Solver.antt =====
-- The solver at three sections of two courses. The ranks are counted in hundredths.
use realityai_agents.Prelude.{
  ℕ, String, ◌≡◌, refl, sym, subst, inl, inr, arith, none, List, [], ◌∷◌, ◌+◌, ◌*◌, ltb, All, Any,
  contains, true, false, eq_iff,
}
use realityai_agents.Reasoning.Schemas.{CourseSection}
use realityai_agents.Reasoning.Solver.{
  ScheduleConstraints, ScheduleOption, Ranks, key_of, try_combos, try_combo, add_feasible,
  insert_ranked, solve,
}
use realityai_agents.Reasoning.Solver.Sections.{IsFeasible}
use realityai_agents.Reasoning.Solver.Valid.{IsValid, IsChoice, solve-IsValid}
use realityai_agents.Reasoning.Solver.Complete.{solve_complete}

abbrev hundredths : Ranks
hundredths = record { Rank = ℕ; zero_rank = 0; rank_of = λ n c. 100 * n + c; below = ltb }

-- A section on Mondays, with its hours.
abbrev on_monday : String → String → ℕ → ℕ → CourseSection
on_monday code name from until = record {
  course_code = code;
  section = name;
  term = "Fall 2026";
  credits = 3;
  instructor = "";
  meetings = record { days = "M" ∷ []; start = from; end = until } ∷ [];
  prereqs = [];
}

abbrev early : CourseSection
early = on_monday "CS101" "1" 9 10

abbrev late : CourseSection
late = on_monday "CS101" "2" 14 15

abbrev databases : CourseSection
databases = on_monday "CS420" "1" 9 11

-- Two courses, and no other bounds but Friday.
abbrev two_courses : ScheduleConstraints
two_courses = record {
  days_excluded = "F" ∷ [];
  time_range = none;
  min_courses = 2;
  max_courses = 2;
  min_credits = none;
  max_credits = none;
  preferences = [];
}

abbrev offered : List CourseSection
offered = late ∷ databases ∷ []

solve-IsValid_example :
    All (IsValid hundredths two_courses offered []) (solve hundredths two_courses offered [])
solve-IsValid_example = solve-IsValid hundredths two_courses offered []

abbrev section_names : List CourseSection → List (String × String)
section_names [] = []
section_names (c ∷ cs) = (c.course_code, c.section) ∷ section_names cs

abbrev schedules : List (ScheduleOption ℕ) → List (List (String × String))
schedules [] = []
schedules (o ∷ os) = section_names o.courses ∷ schedules os

-- One schedule is returned, so that the statement above is of a schedule.
solve-finds :
    schedules (solve hundredths two_courses offered [])
    ≡ (("CS101", "2") ∷ ("CS420", "1") ∷ []) ∷ []
unfolding solve try_combos try_combo add_feasible insert_ranked
solve-finds = refl

-- The search meets the early section first, which overlaps with the databases; it then passes over
-- the late section of the same course, which does not. What it returns is one course twice.
solve-misses :
    schedules (solve hundredths two_courses (early ∷ late ∷ databases ∷ []) [])
    ≡ (("CS101", "1") ∷ ("CS101", "2") ∷ []) ∷ []
unfolding solve try_combos try_combo add_feasible insert_ranked
solve-misses = refl

-- The choice of both is the only one for the two courses.
offered-IsFeasible :
    (other : List CourseSection)
    → IsChoice hundredths two_courses offered [] other
    → key_of other ≡ "CS101" ∷ "CS420" ∷ []
    → IsFeasible two_courses other
offered-IsFeasible [] choice e = cc
offered-IsFeasible (c ∷ []) choice e = cc
offered-IsFeasible (c ∷ d ∷ []) (inl (q, inl (r, s)), opens) e =
    subst (λ x. IsFeasible two_courses (x ∷ d ∷ [])) (sym q)
      (subst (λ y. IsFeasible two_courses (late ∷ y ∷ [])) (sym r)
        ((((λ m k l. inl (omega arith)), tt), (tt, tt)), tt, tt))
offered-IsFeasible (c ∷ d ∷ []) (inl (q, inr s), opens) e = absurd s
offered-IsFeasible (c ∷ d ∷ []) (inr (inl (q, s)), opens) e = absurd s
offered-IsFeasible (c ∷ d ∷ []) (inr (inr s), opens) e = absurd s
offered-IsFeasible (c ∷ d ∷ f ∷ r) (inl (q, inl (q', s)), opens) e = absurd s
offered-IsFeasible (c ∷ d ∷ f ∷ r) (inl (q, inr s), opens) e = absurd s
offered-IsFeasible (c ∷ d ∷ f ∷ r) (inr (inl (q, s)), opens) e = absurd s
offered-IsFeasible (c ∷ d ∷ f ∷ r) (inr (inr s), opens) e = absurd s

offered-IsChoice : IsChoice hundredths two_courses offered [] offered
offered-IsChoice =
    (inl (refl, inl (refl, tt)), (((friday, tt), tt, tt), (((friday, tt), tt, tt), tt)))
  where
    friday : (d : String) → contains d ("M" ∷ []) ≡ true → contains d ("F" ∷ []) ≡ false
    friday d k = subst (λ t. contains t ("F" ∷ []) ≡ false) ((eq_iff "M" d).0 (ground arith)) refl

solve_complete_example :
    Any
      (λ (o : ScheduleOption ℕ). key_of o.courses ≡ "CS101" ∷ "CS420" ∷ [])
      (solve hundredths two_courses offered [])
solve_complete_example =
    solve_complete hundredths two_courses offered [] offered offered-IsChoice (omega arith)
      (omega arith) offered-IsFeasible
