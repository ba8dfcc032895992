-- ===== src/Inner/LiveState/Preconditions.antt =====
-- When layer 4 allows: the facts about the world that each tool needs.
use realityai_agents.Prelude.{
  String, ◌≡◌, ◌≢◌, refl, ◌↔◌, ◌⊎◌, inl, inr, ◌<◌, ◌==◌, eq_iff, Bool, true, false, ◌&&◌, not, some,
  arith, lookup, contains, Bool-cases, if◌then◌else◌,
}
use realityai_agents.Python.{
  Runtime, Value, str, Py, ok, raise, ◌>>=◌, item, value_eq, in_set, >>=-ok, item-eq-ok,
  item_of_lookup, key_error, value_error, timeout_error,
}
use realityai_agents.Inner.Schemas.{InnerSafetyInput, Verdict, allow, deny}
use realityai_agents.Inner.LiveState.{
  CourseState, Read, enrollment_verdict, check_enrollment_modify, check_grade_update,
  check_assignment_create, settle, check_live_state, dispatch,
}

abbrev pub IsEnrolled : Value → CourseState → Type 0
IsEnrolled student state =
    (s : String) × (student ≡ str s) × (contains s state.enrolled_students ≡ true)

module _ (read : Read) (i : InnerSafetyInput) where
  -- A student acts on the own record; an addition finds a free seat, and any other action a student
  -- who is enrolled.
  abbrev pub EnrollmentOk : Type 0
  EnrollmentOk =
      (course_id student_id action : Value) × (state : CourseState) × (lookup "course_id"
          i.tool_args
        ≡ some course_id)
      × (lookup "student_id" i.tool_args ≡ some student_id)
      × (lookup "action" i.tool_args ≡ some action)
      × (read course_id ≡ ok state)
      × (i.session.user_role ≡ "student" → student_id ≡ str i.session.user_id)
      × (((action ≡ str "add") × (state.current_enrollment < state.capacity))
          ⊎ ((action ≢ str "add") × IsEnrolled student_id state))

  abbrev pub GradeOk : Type 0
  GradeOk =
      (course_id student_id : Value) × (state : CourseState) × (lookup "course_id" i.tool_args
        ≡ some course_id)
      × (lookup "student_id" i.tool_args ≡ some student_id)
      × (read course_id ≡ ok state)
      × (state.grade_window_open ≡ true)
      × IsEnrolled student_id state

  abbrev pub AssignmentOk : Type 0
  AssignmentOk =
      (course_id : Value) × (state : CourseState) × (lookup "course_id" i.tool_args
        ≡ some course_id)
      × (read course_id ≡ ok state)
      × (state.instructor_user_id ≡ i.session.user_id)

  abbrev pub WorldPermits : Type 0
  WorldPermits =
      ((i.tool_name ≡ "enrollment_modify") × EnrollmentOk)
      ⊎ ((i.tool_name ≡ "grade_update") × GradeOk)
      ⊎ ((i.tool_name ≡ "assignment_create") × AssignmentOk)

value_eq_iff : (v : Value) (s : String) → (value_eq v s ≡ true) ↔ (v ≡ str s)
value_eq_iff (str t) s = ground (arith, eq_iff t s)
value_eq_iff _ s = (λ h. cc, λ h. cc)

in_set-IsEnrolled :
    (student : Value) (state : CourseState)
    → (in_set student state.enrolled_students ≡ ok true) ↔ IsEnrolled student state
in_set-IsEnrolled (str s) state = (λ h. (s, refl, ground arith), λ (t, e, h). ground arith)
in_set-IsEnrolled _ state = (λ h. cc, λ (t, e, h). cc)

abbrev Allows : Py Verdict → Type 0
Allows m = (v : Verdict) × (m ≡ ok v) × (v.decision ≡ allow)

-- A chain that allows: its first step succeeds, and so does the rest, which allows.
module _ {A : Type 0} where
  on_bind :
      {P : Type 0} (m : Py A) (f : A → Py Verdict)
      → Allows (m >>= f)
      → ((a : A) → m ≡ ok a → Allows (f a) → P)
      → P
  on_bind (ok a) f h k = k a refl h
  on_bind (raise e) f (v, h, d) k = cc

  Allows-bind : (m : Py A) (f : A → Py Verdict) {a : A} → m ≡ ok a → Allows (f a) → Allows (m >>= f)
  Allows-bind m f e h = rw e h

Allows-if :
    (b : Bool) (no_verdict : Verdict) (m : Py Verdict)
    → no_verdict.decision ≡ deny
    → Allows (if b then ok no_verdict else m) ↔ ((b ≡ false) × Allows m)
Allows-if true n m d = (λ (v, e, a). ground arith, λ (e, h). cc)
Allows-if false n m d = (λ h. (refl, h), λ (e, h). h)

module _ (rt : Runtime) (read : Read) (i : InnerSafetyInput) where
  enrollment_verdict-Allows :
      (course_id student_id action : Value) (state : CourseState)
      → Allows (enrollment_verdict rt read course_id student_id action state)
      → ((action ≡ str "add") × (state.current_enrollment < state.capacity))
        ⊎ ((action ≢ str "add") × IsEnrolled student_id state)
  unfolding enrollment_verdict
  enrollment_verdict-Allows c s a state (v, e, d) = elim (Bool-cases (value_eq a "add")) [
    | inl add ↦ inl ((value_eq_iff a "add").0 add, ground arith)
    | inr other ↦
        let (b, eb, e') = >>=-ok (in_set s state.enrolled_students) _ (rw other at e) in
        inr (
          λ h. ground (arith, (value_eq_iff a "add").1 h),
          (in_set-IsEnrolled s state).0 (ground arith),
        )
  ]

  Allows-enrollment_verdict :
      (course_id student_id action : Value) (state : CourseState)
      → ((action ≡ str "add") × (state.current_enrollment < state.capacity))
        ⊎ ((action ≢ str "add") × IsEnrolled student_id state)
      → Allows (enrollment_verdict rt read course_id student_id action state)
  unfolding enrollment_verdict
  Allows-enrollment_verdict c s a state (inl (add, room)) =
      rw ((value_eq_iff a "add").1 add) (_, refl, ground arith)
  Allows-enrollment_verdict c s a state (inr (other, enrolled)) =
      elim (Bool-cases (value_eq a "add")) [
        | inl add ↦ absurd (other ((value_eq_iff a "add").0 add))
        | inr drop ↦ rw (drop, (in_set-IsEnrolled s state).1 enrolled) (_, refl, refl)
      ]

  -- The guard in front of the read: it stops a student who names another student.
  abbrev names_other : Value → Bool
  names_other s = i.session.user_role == "student" && not (value_eq s i.session.user_id)

  names_other_iff :
      (s : Value)
      → (names_other s ≡ false) ↔ (i.session.user_role ≡ "student" → s ≡ str i.session.user_id)
  names_other_iff s = (
    λ h e.
        (value_eq_iff s i.session.user_id).0
          (ground (arith, (eq_iff i.session.user_role "student").1 e)),
    λ h. elim (Bool-cases (i.session.user_role == "student")) [
      | inl is ↦ rw (is, (value_eq_iff s _).1 (h ((eq_iff i.session.user_role "student").0 is)))
      | inr not_one ↦ rw not_one
    ],
  )

  enrollment_sound : Allows (check_enrollment_modify rt read i) → EnrollmentOk read i
  unfolding check_enrollment_modify
  enrollment_sound h = on_bind (item i.tool_args "course_id") _ h λ c ec h1.
      on_bind (item i.tool_args "student_id") _ h1 λ s es h2.
        on_bind (item i.tool_args "action") _ h2 λ a ea h3.
          let (own, h4) = (Allows-if (names_other s) _ _ refl).0 h3 in
          on_bind (read c) _ h4 λ state er h5. (
            c,
            s,
            a,
            state,
            item-eq-ok i.tool_args "course_id" ec,
            item-eq-ok i.tool_args "student_id" es,
            item-eq-ok i.tool_args "action" ea,
            er,
            (names_other_iff s).0 own,
            enrollment_verdict-Allows c s a state h5,
          )

  enrollment_complete : EnrollmentOk read i → Allows (check_enrollment_modify rt read i)
  unfolding check_enrollment_modify
  enrollment_complete (c, s, a, state, ec, es, ea, er, own, fine) =
      Allows-bind (item i.tool_args "course_id") _ (item_of_lookup i.tool_args "course_id" ec) (
        Allows-bind (item i.tool_args "student_id") _ (item_of_lookup i.tool_args "student_id" es) (
          Allows-bind (item i.tool_args "action") _ (item_of_lookup i.tool_args "action" ea) (
            (Allows-if (names_other s) _ _ refl).1 (
              (names_other_iff s).1 own,
              Allows-bind (read c) _ er (Allows-enrollment_verdict c s a state fine),
            ))))

  grade_sound : Allows (check_grade_update rt read i) → GradeOk read i
  unfolding check_grade_update
  grade_sound h = on_bind (item i.tool_args "course_id") _ h λ c ec h1.
      on_bind (item i.tool_args "student_id") _ h1 λ s es h2. on_bind (read c) _ h2 λ state er h3.
        let (open_window, h4) = (Allows-if (not state.grade_window_open) _ _ refl).0 h3 in
        on_bind (in_set s state.enrolled_students) _ h4 λ b eb (v, e, d). (
          c,
          s,
          state,
          item-eq-ok i.tool_args "course_id" ec,
          item-eq-ok i.tool_args "student_id" es,
          er,
          ground arith,
          (in_set-IsEnrolled s state).0 (ground arith),
        )

  grade_complete : GradeOk read i → Allows (check_grade_update rt read i)
  unfolding check_grade_update
  grade_complete (c, s, state, ec, es, er, open_window, enrolled) =
      Allows-bind (item i.tool_args "course_id") _ (item_of_lookup i.tool_args "course_id" ec) (
        Allows-bind (item i.tool_args "student_id") _ (item_of_lookup i.tool_args "student_id" es) (
          Allows-bind (read c) _ er (
            (Allows-if (not state.grade_window_open) _ _ refl).1 (
              rw open_window,
              Allows-bind (in_set s state.enrolled_students) _
                  ((in_set-IsEnrolled s state).1 enrolled) (_, refl, refl),
            ))))

  assignment_sound : Allows (check_assignment_create rt read i) → AssignmentOk read i
  unfolding check_assignment_create
  assignment_sound h = on_bind (item i.tool_args "course_id") _ h λ c ec h1.
      on_bind (read c) _ h1 λ state er (v, e, d). (
        c,
        state,
        item-eq-ok i.tool_args "course_id" ec,
        er,
        ground (arith, eq_iff state.instructor_user_id i.session.user_id),
      )

  assignment_complete : AssignmentOk read i → Allows (check_assignment_create rt read i)
  unfolding check_assignment_create
  assignment_complete (c, state, ec, er, owner) =
      Allows-bind (item i.tool_args "course_id") _ (item_of_lookup i.tool_args "course_id" ec) (
        Allows-bind (read c) _ er
          (rw ((eq_iff state.instructor_user_id i.session.user_id).1 owner) (_, refl, refl)))

  settle-allow_iff :
      (timeout_text : String) (m : Py Verdict)
      → ((settle rt read timeout_text i m).decision ≡ allow) ↔ Allows m
  unfolding settle
  settle-allow_iff t (ok v) = (λ h. (v, refl, h), λ (w, e, d). ground arith)
  settle-allow_iff t (raise (timeout_error m)) = (λ h. cc, λ (w, e, d). cc)
  settle-allow_iff t (raise (key_error m)) = (λ h. cc, λ (w, e, d). cc)
  settle-allow_iff t (raise (value_error m)) = (λ h. cc, λ (w, e, d). cc)
  settle-allow_iff t (raise e) = (λ h. cc, λ (w, e, d). cc)

  dispatch-WorldPermits : Allows (dispatch rt read i) → WorldPermits read i
  unfolding dispatch
  dispatch-WorldPermits h = elim (Bool-cases (i.tool_name == "enrollment_modify")) [
    | inl x ↦ inl ((eq_iff i.tool_name _).0 x, enrollment_sound (rw x at h))
    | inr x ↦ elim (Bool-cases (i.tool_name == "grade_update")) [
      | inl y ↦ inr (inl ((eq_iff i.tool_name _).0 y, grade_sound (rw (x, y) at h)))
      | inr y ↦ elim (Bool-cases (i.tool_name == "assignment_create")) [
        | inl z ↦ inr (inr ((eq_iff i.tool_name _).0 z, assignment_sound (rw (x, y, z) at h)))
        | inr z ↦ let (v, e, d) = rw (x, y, z) at h in cc
      ]
    ]
  ]

  WorldPermits-dispatch : WorldPermits read i → Allows (dispatch rt read i)
  unfolding dispatch
  WorldPermits-dispatch (inl (e, h)) = rw e (enrollment_complete h)
  WorldPermits-dispatch (inr (inl (e, h))) = rw e (grade_complete h)
  WorldPermits-dispatch (inr (inr (e, h))) = rw e (assignment_complete h)

  -- Layer 4 allows exactly when the tool is one of the three and the facts that it needs hold of the
  -- course as read: a free seat for an addition; an enrolled student for any other enrollment change
  -- and for a grade, the latter in an open window; the caller as the instructor for an assignment.
  -- A student's enrollment change names the student. Whatever the read raises, layer 4 denies.
  pub check_live_state-allow_iff :
      (timeout_text : String)
      → ((check_live_state rt read timeout_text i).decision ≡ allow) ↔ WorldPermits read i
  unfolding check_live_state
  check_live_state-allow_iff t =
      let (f, g) = settle-allow_iff t (dispatch rt read i) in
      (λ h. dispatch-WorldPermits (f h), λ h. g (WorldPermits-dispatch h))
