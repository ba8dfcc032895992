-- ===== src/Reasoning/Solver/Sections.antt =====
-- The tests on sections and combinations, against what they are to say.
use realityai_agents.Prelude.{
  ℕ, String, ◌≡◌, refl, subst, ◌≤◌, ◌↔◌, ◌⊎◌, inl, inr, arith, true, false, not_test, ◌==◌, eq_iff,
  Option, none, some, List, [], ◌∷◌, Bool-cases, contains, All, any-All_iff, test_refl,
}
use realityai_agents.Reasoning.Schemas.{MeetingTime, CourseSection, shares, overlaps}
use realityai_agents.Reasoning.Solver.{
  ScheduleConstraints, outside, meets_hard_constraints, meetings_of, some_overlap,
  has_time_conflict, below_min, above_max, meets_credit_bounds, from_courses, sum_credits, Ranks,
}

-- No day of the one list is in the other.
abbrev pub NoCommonDay : List String → List String → Type 0
NoCommonDay xs ys = (d : String) → contains d xs ≡ true → contains d ys ≡ false

shares-NoCommonDay : (xs ys : List String) → shares xs ys ≡ false → NoCommonDay xs ys
shares-NoCommonDay [] ys h d k = cc
shares-NoCommonDay (x ∷ xs) ys h d k = elim (Bool-cases (x == d)) [
  | inl e ↦ subst (λ t. contains t ys ≡ false) ((eq_iff x d).0 e) (ground arith)
  | inr e ↦ shares-NoCommonDay xs ys (ground arith) d (ground arith)
]

NoCommonDay-shares : (xs ys : List String) → NoCommonDay xs ys → shares xs ys ≡ false
NoCommonDay-shares [] ys h = refl
NoCommonDay-shares (x ∷ xs) ys h =
    ground (
      arith,
      h x (ground (arith, test_refl x)),
      NoCommonDay-shares xs ys (λ d k. h d (ground arith)),
    )

shared_day :
    (xs ys : List String)
    → shares xs ys ≡ true
    → (d : String) × (contains d xs ≡ true) × (contains d ys ≡ true)
shared_day [] ys h = cc
shared_day (x ∷ xs) ys h = elim (Bool-cases (contains x ys)) [
  | inl e ↦ (x, rw (test_refl x) refl, e)
  | inr e ↦ let (d, k, l) = shared_day xs ys (ground arith) in (d, ground arith, l)
]

-- Two meetings with a day in common do not run at the same time.
abbrev pub Apart : MeetingTime → MeetingTime → Type 0
Apart m n =
    (d : String)
    → contains d m.days ≡ true
    → contains d n.days ≡ true
    → (n.end ≤ m.start) ⊎ (m.end ≤ n.start)

overlaps-Apart : (m n : MeetingTime) → overlaps m n ≡ false → Apart m n
overlaps-Apart m n h d k l = elim (Bool-cases (shares m.days n.days)) [
  | inl day ↦ ground arith
  | inr none_shared ↦ ground (arith, shares-NoCommonDay m.days n.days none_shared d k)
]

Apart-overlaps : (m n : MeetingTime) → Apart m n → overlaps m n ≡ false
Apart-overlaps m n apart = elim (Bool-cases (shares m.days n.days)) [
  | inl day ↦ let (d, k, l) = shared_day m.days n.days day in ground (arith, apart d k l)
  | inr none_shared ↦ ground arith
]

overlaps-Apart_iff : (m n : MeetingTime) → (overlaps m n ≡ false) ↔ Apart m n
overlaps-Apart_iff m n = (overlaps-Apart m n, Apart-overlaps m n)

-- No two of the meetings overlap.
abbrev pub NoConflict : List MeetingTime → Type 0
NoConflict [] = Unit
NoConflict (m ∷ ms) = All (Apart m) ms × NoConflict ms

some_overlap-NoConflict_iff : (ms : List MeetingTime) → (some_overlap ms ≡ false) ↔ NoConflict ms
some_overlap-NoConflict_iff [] = (λ h. tt, λ h. refl)
some_overlap-NoConflict_iff (m ∷ ms) =
    ground (arith, any-All_iff (overlaps-Apart_iff m) ms, some_overlap-NoConflict_iff ms)

-- Every meeting lies in the range, where there is one.
abbrev pub Within : Option (ℕ × ℕ) → List MeetingTime → Type 0
Within none meetings = Unit
Within (some (lo, hi)) meetings = All (λ m. (lo ≤ m.start) × (m.end ≤ hi)) meetings

outside-Within_iff :
    (range : Option (ℕ × ℕ)) (ms : List MeetingTime) → (outside range ms ≡ false) ↔ Within range ms
outside-Within_iff none ms = (λ h. tt, λ h. refl)
outside-Within_iff (some (lo, hi)) ms = any-All_iff (λ m. ground arith) ms

-- The section meets on no excluded day and inside the range, and its prerequisites are passed.
abbrev pub IsOpen : List String → ScheduleConstraints → CourseSection → Type 0
IsOpen completed constraints c =
    All (λ m. NoCommonDay m.days constraints.days_excluded) c.meetings
    × All (λ p. contains p completed ≡ true) c.prereqs
    × Within constraints.time_range c.meetings

pub meets_hard_constraints-IsOpen_iff :
    (completed : List String) (constraints : ScheduleConstraints) (c : CourseSection)
    → (meets_hard_constraints c completed constraints ≡ true) ↔ IsOpen completed constraints c
meets_hard_constraints-IsOpen_iff completed constraints c = ground (
  arith,
  any-All_iff
      (λ m. (
        shares-NoCommonDay m.days constraints.days_excluded,
        NoCommonDay-shares m.days constraints.days_excluded,
      ))
      c.meetings,
  any-All_iff (λ p. not_test (contains p completed)) c.prereqs,
  outside-Within_iff constraints.time_range c.meetings,
)

abbrev pub AtLeast : Option ℕ → ℕ → Type 0
AtLeast none total = Unit
AtLeast (some bound) total = bound ≤ total

abbrev pub AtMost : Option ℕ → ℕ → Type 0
AtMost none total = Unit
AtMost (some bound) total = total ≤ bound

below_min-AtLeast_iff :
    (bound : Option ℕ) (total : ℕ) → (below_min bound total ≡ false) ↔ AtLeast bound total
below_min-AtLeast_iff none total = (λ h. tt, λ h. refl)
below_min-AtLeast_iff (some bound) total = ground arith

above_max-AtMost_iff :
    (bound : Option ℕ) (total : ℕ) → (above_max bound total ≡ false) ↔ AtMost bound total
above_max-AtMost_iff none total = (λ h. tt, λ h. refl)
above_max-AtMost_iff (some bound) total = ground arith

-- The sections can be taken together: no two meetings overlap, and the credits are in their bounds.
abbrev pub IsFeasible : ScheduleConstraints → List CourseSection → Type 0
IsFeasible constraints combo =
    NoConflict (meetings_of combo)
    × AtLeast constraints.min_credits (sum_credits combo)
    × AtMost constraints.max_credits (sum_credits combo)

-- Both tests of the inner loop.
pub tests-IsFeasible_iff :
    (ranks : Ranks) (constraints : ScheduleConstraints) (combo : List CourseSection)
    → ((has_time_conflict combo ≡ false)
        × (meets_credit_bounds ranks constraints (from_courses ranks constraints combo) ≡ true))
      ↔ IsFeasible constraints combo
tests-IsFeasible_iff ranks constraints combo = ground (
  arith,
  some_overlap-NoConflict_iff (meetings_of combo),
  below_min-AtLeast_iff constraints.min_credits (sum_credits combo),
  above_max-AtMost_iff constraints.max_credits (sum_credits combo),
)
