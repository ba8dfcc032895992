-- ===== src/Reasoning/Solver.antt =====
-- agent-core/reasoning/solver.py and agent-core/schemas/solver.py. The floats of the rank are a
-- parameter. The bounds are natural numbers: `combinations` raises on a size below zero.
pub mod Sections
pub mod Valid
pub mod Complete
use realityai_agents.Prelude.{
  ℕ, zero, suc, String, Bool, true, false, ◌+◌, ◌-◌, ◌||◌, ◌&&◌, not, Option, none, some, List, [],
  ◌∷◌, ◌++◌, map, ◌==◌, if◌then◌else◌, leb, ltb, length, contains, keep, any, sorted,
}
use realityai_agents.Python.{Value}
use realityai_agents.Reasoning.Schemas.{MeetingTime, CourseSection, overlaps, has_meeting_on_days}

pub record ScheduleConstraints : Type 0 where
  pub days_excluded : List String
  pub time_range : Option (ℕ × ℕ)
  pub min_courses : ℕ
  pub max_courses : ℕ
  pub min_credits : Option ℕ
  pub max_credits : Option ℕ
  pub preferences : List (String × Value)

-- What the ranking uses of floats: `0.0`, `float(n) + 0.01 * c`, and `<`.
pub record Ranks : Type 1 where
  pub Rank : Type 0
  pub zero_rank : Rank
  pub rank_of : ℕ → ℕ → Rank
  pub below : Rank → Rank → Bool

pub record ScheduleOption (R : Type 0) : Type 0 where
  pub courses : List CourseSection
  pub total_credits : ℕ
  pub rank_score : R

abbrev pub sum_credits : List CourseSection → ℕ
sum_credits [] = 0
sum_credits (c ∷ cs) = c.credits + sum_credits cs

-- `itertools.combinations(xs, size)`, in its order.
abbrev pub combinations {ℓ} : {A : Type ℓ} → List A → ℕ → List (List A)
combinations xs zero = [] ∷ []
combinations [] (suc size) = []
combinations (x ∷ xs) (suc size) =
    map (λ c. x ∷ c) (combinations xs size) ++ combinations xs (suc size)

-- `range(first, first + count)`
abbrev pub range : ℕ → ℕ → List ℕ
range first zero = []
range first (suc count) = first ∷ range (suc first) count

abbrev pub course_codes : List CourseSection → List String
course_codes [] = []
course_codes (c ∷ cs) = c.course_code ∷ course_codes cs

abbrev pub key_of : List CourseSection → List String
key_of combo = sorted (course_codes combo)

abbrev pub same_key : List String → List String → Bool
same_key [] [] = true
same_key [] (t ∷ ts) = false
same_key (s ∷ ss) [] = false
same_key (s ∷ ss) (t ∷ ts) = s == t && same_key ss ts

abbrev pub is_seen : List String → List (List String) → Bool
is_seen key seen = any (λ k. same_key k key) seen

-- `m.start < lo or m.end > hi` for some meeting.
abbrev pub outside : Option (ℕ × ℕ) → List MeetingTime → Bool
outside none meetings = false
outside (some (lo, hi)) meetings = any (λ m. ltb m.start lo || ltb hi m.end) meetings

abbrev pub lacks_prereq : List String → CourseSection → Bool
lacks_prereq completed c = any (λ p. not (contains p completed)) c.prereqs

abbrev pub meets_hard_constraints : CourseSection → List String → ScheduleConstraints → Bool
meets_hard_constraints c completed constraints =
    if has_meeting_on_days c constraints.days_excluded
    then false
    else (if lacks_prereq completed c
        then false
        else not (outside constraints.time_range c.meetings))

abbrev pub meetings_of : List CourseSection → List MeetingTime
meetings_of [] = []
meetings_of (c ∷ cs) = c.meetings ++ meetings_of cs

-- The loops over `i` and `j > i`.
abbrev pub some_overlap : List MeetingTime → Bool
some_overlap [] = false
some_overlap (m ∷ ms) = any (λ n. overlaps m n) ms || some_overlap ms

abbrev pub has_time_conflict : List CourseSection → Bool
has_time_conflict combo = some_overlap (meetings_of combo)

abbrev pub below_min : Option ℕ → ℕ → Bool
below_min none total = false
below_min (some bound) total = ltb total bound

abbrev pub above_max : Option ℕ → ℕ → Bool
above_max none total = false
above_max (some bound) total = ltb bound total

module _ (ranks : Ranks) (constraints : ScheduleConstraints) where
  abbrev pub from_courses : List CourseSection → ScheduleOption ranks.Rank
  from_courses cs = record {
    courses = cs;
    total_credits = sum_credits cs;
    rank_score = ranks.zero_rank;
  }

  abbrev pub meets_credit_bounds : ScheduleOption ranks.Rank → Bool
  meets_credit_bounds o =
      if below_min constraints.min_credits o.total_credits
      then false
      else not (above_max constraints.max_credits o.total_credits)

  -- `seen_combos` and `results`.
  abbrev pub Found : Type 0
  Found = List (List String) × List (ScheduleOption ranks.Rank)

  -- The body of the inner loop, after the test of `seen_combos`.
  unfoldable pub add_feasible :
      List CourseSection → List (ScheduleOption ranks.Rank) → List (ScheduleOption ranks.Rank)
  add_feasible combo results =
      if has_time_conflict combo
      then results
      else (if not (meets_credit_bounds (from_courses combo))
          then results
          else results ++ from_courses combo ∷ [])

  unfoldable pub try_combo : List CourseSection → Found → Found
  try_combo combo (seen, results) =
      if is_seen (key_of combo) seen
      then (seen, results)
      else (key_of combo ∷ seen, add_feasible combo results)

  unfoldable pub try_combos : List (List CourseSection) → Found → Found
  try_combos [] found = found
  try_combos (combo ∷ combos) found = try_combos combos (try_combo combo found)

  unfoldable pub try_sizes : List CourseSection → List ℕ → Found → Found
  try_sizes valid [] found = found
  try_sizes valid (size ∷ sizes) found =
      try_sizes valid sizes (try_combos (combinations valid size) found)

  abbrev pub rescore : ScheduleOption ranks.Rank → ScheduleOption ranks.Rank
  rescore o = record o { rank_score = ranks.rank_of (length o.courses) o.total_credits }

  -- `sorted(…, reverse=True)`: the greater rank first, and in the old order among equals.
  unfoldable pub insert_ranked :
      ScheduleOption ranks.Rank
      → List (ScheduleOption ranks.Rank)
      → List (ScheduleOption ranks.Rank)
  insert_ranked o [] = o ∷ []
  insert_ranked o (p ∷ ps) =
      let rest = insert_ranked o ps in
      if ranks.below o.rank_score p.rank_score then p ∷ rest else o ∷ p ∷ ps

  unfoldable pub rank : List (ScheduleOption ranks.Rank) → List (ScheduleOption ranks.Rank)
  rank [] = []
  rank (o ∷ os) = insert_ranked (rescore o) (rank os)

  unfoldable pub solve : List CourseSection → List String → List (ScheduleOption ranks.Rank)
  unfolding try_sizes rank
  solve candidates completed =
      rank
        (try_sizes (keep (λ c. meets_hard_constraints c completed constraints) candidates)
          (range constraints.min_courses (suc constraints.max_courses - constraints.min_courses))
          ([], [])).1
