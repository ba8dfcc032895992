-- ===== src/Inner/LiveState.antt =====
-- agent-core/safety/inner/live_state.py: layer 4. `read` is `_read_course_state`, the module's swap
-- point; a timeout of `asyncio.wait_for`, whose one wait is that read, is a `timeout_error` of it.
-- `timeout_text` is the text of the number of seconds in the message.
pub mod Preconditions
use realityai_agents.Prelude.{
  ℕ, String, Bool, true, false, ◌&&◌, not, Option, none, some, List, [], ◌∷◌, ◌==◌, if◌then◌else◌,
  leb, length, lookup, decimal, ◌+++◌,
}
use realityai_agents.Python.{
  Runtime, Value, str, num, strings, nested, Args, Py, ok, raise, Exn, key_error, value_error,
  type_error, timeout_error, other_error, ◌>>=◌, item, value_eq, in_set, str_of, exn_text,
}
use realityai_agents.Inner.Schemas.{
  InnerSafetyInput, LayerResult, Verdict, live_state, layer_result, denied, allowed,
}

pub record CourseState : Type 0 where
  pub exists : Bool
  pub instructor_user_id : String
  pub current_enrollment : ℕ
  pub capacity : ℕ
  pub grade_window_open : Bool
  pub enrolled_students : List String

abbrev course : String → ℕ → ℕ → Bool → List String → CourseState
course instructor enrolled capacity open_window students = record {
  exists = true;
  instructor_user_id = instructor;
  current_enrollment = enrolled;
  capacity = capacity;
  grade_window_open = open_window;
  enrolled_students = students;
}

abbrev pub mock_course_state : List (String × CourseState)
mock_course_state =
    ("CS101", course "instructor_smith" 25 30 true ("S001" ∷ "S002" ∷ "S010" ∷ []))
    ∷ ("CS201", course "instructor_johnson" 28 30 true ("S001" ∷ "S005" ∷ []))
    ∷ ("CS401", course "instructor_lee" 30 30 true ("S001" ∷ []))
    ∷ ("MATH200", course "instructor_lee" 15 20 false ("S001" ∷ []))
    ∷ []

abbrev pub Read : Type 0
Read = Value → Py CourseState

module _ (rt : Runtime) where
  abbrev not_found : Value → Py CourseState
  not_found v = raise (key_error ("course not found: " +++ str_of rt v))

  abbrev found_or : Value → Option CourseState → Py CourseState
  found_or v none = not_found v
  found_or v (some state) = ok state

  -- The mock behind `_read_course_state`.
  unfoldable pub mock_read : Read
  mock_read (str c) = found_or (str c) (lookup c mock_course_state)
  mock_read (strings l) = raise (type_error "unhashable type: 'list'")
  mock_read (nested t) = raise (type_error "unhashable type")
  mock_read v = not_found v

module _ (rt : Runtime) (read : Read) where
  pub enrollment_verdict : Value → Value → Value → CourseState → Py Verdict
  enrollment_verdict course_id student_id action state =
      if value_eq action "add"
      then ok (
          if leb state.capacity state.current_enrollment
          then denied "course_full"
              ("Course "
                +++ (str_of rt course_id
                    +++ (" is at capacity ("
                        +++ (decimal state.current_enrollment
                            +++ ("/"
                                +++ (decimal state.capacity
                                    +++ ("); cannot enroll "
                                        +++ (str_of rt student_id +++ "."))))))))
              (("current_enrollment", num state.current_enrollment)
                ∷ ("capacity", num state.capacity)
                ∷ [])
          else allowed "enrollment_capacity_ok"
              (("current_enrollment", num state.current_enrollment) ∷ []))
      else (do
        enrolled ← in_set student_id state.enrolled_students
        ok (
            if not enrolled
            then denied "not_enrolled"
                ("Student "
                  +++ (str_of rt student_id
                      +++ (" is not enrolled in " +++ (str_of rt course_id +++ "; cannot drop."))))
                (("enrolled_count", num (length state.enrolled_students)) ∷ [])
            else allowed "enrollment_record_exists"
                (("enrolled_count", num (length state.enrolled_students)) ∷ [])))

  pub check_enrollment_modify : InnerSafetyInput → Py Verdict
  unfolding enrollment_verdict
  check_enrollment_modify i = do
    course_id ← item i.tool_args "course_id"
    student_id ← item i.tool_args "student_id"
    action ← item i.tool_args "action"
    if i.session.user_role == "student" && not (value_eq student_id i.session.user_id)
        then ok (
            denied "student_can_only_self_modify_enrollment"
              ("User "
                +++ (i.session.user_id
                    +++ (" (role=student) cannot modify enrollment for "
                        +++ (str_of rt student_id
                            +++ "; students may only modify their own enrollment record."))))
              (("caller_user_id", str i.session.user_id) ∷ ("target_student_id", student_id) ∷ []))
        else (do state ← read course_id; enrollment_verdict course_id student_id action state)

  pub grade_verdict : Value → Value → CourseState → Py Verdict
  grade_verdict course_id student_id state =
      if not state.grade_window_open
      then ok (
          denied "grade_window_closed"
            ("Grade window for "
              +++ (str_of rt course_id +++ " is closed; updates require registrar override."))
            [])
      else (do
        enrolled ← in_set student_id state.enrolled_students
        ok (
            if not enrolled
            then denied "student_not_enrolled"
                ("Student "
                  +++ (str_of rt student_id
                      +++ (" is not enrolled in " +++ (str_of rt course_id +++ "; cannot grade."))))
                []
            else allowed "grade_update_preconditions_met" []))

  pub check_grade_update : InnerSafetyInput → Py Verdict
  unfolding grade_verdict
  check_grade_update i = do
    course_id ← item i.tool_args "course_id"
    student_id ← item i.tool_args "student_id"
    state ← read course_id
    grade_verdict course_id student_id state

  pub check_assignment_create : InnerSafetyInput → Py Verdict
  check_assignment_create i = do
    course_id ← item i.tool_args "course_id"
    state ← read course_id
    ok (
        if not (state.instructor_user_id == i.session.user_id)
        then denied "not_course_instructor"
            ("User "
              +++ (i.session.user_id
                  +++ (" is not the instructor of "
                      +++ (str_of rt course_id +++ "; cannot create assignment."))))
            (("course_instructor", str state.instructor_user_id) ∷ [])
        else allowed "course_ownership_confirmed" [])

  pub dispatch : InnerSafetyInput → Py Verdict
  unfolding check_enrollment_modify check_grade_update check_assignment_create
  dispatch i =
      if i.tool_name == "enrollment_modify"
      then check_enrollment_modify i
      else if i.tool_name == "grade_update"
      then check_grade_update i
      else if i.tool_name == "assignment_create"
      then check_assignment_create i
      else raise (value_error ("no live-state handler for tool " +++ rt.repr i.tool_name))

  module _ (timeout_text : String) where
    -- The `except` clauses of `check_live_state`, first match first.
    pub on_exception : InnerSafetyInput → Exn → LayerResult
    on_exception i (timeout_error m) = layer_result live_state (
        denied "live_state_timeout"
          ("World-state read timed out after "
            +++ (timeout_text
                +++ ("s; cannot verify preconditions for " +++ (i.tool_name +++ "."))))
          (("tool", str i.tool_name) ∷ ("failure_mode", str "timeout") ∷ []))
    on_exception i (key_error k) = layer_result live_state (
        denied "course_not_found" (exn_text rt (key_error k))
          (("tool", str i.tool_name) ∷ ("failure_mode", str "not_found") ∷ []))
    on_exception i (value_error m) = layer_result live_state (
        denied "unknown_tool_for_live_state" (exn_text rt (value_error m))
          (("tool", str i.tool_name) ∷ ("failure_mode", str "config_drift") ∷ []))
    on_exception i e = layer_result live_state (
        denied "live_state_unavailable"
          ("World-state read failed for "
            +++ (i.tool_name +++ ("; failing closed. Underlying error: " +++ exn_text rt e)))
          (("tool", str i.tool_name)
            ∷ ("failure_mode", str "exception")
            ∷ ("error", str (exn_text rt e))
            ∷ []))

    -- The `try` block: a verdict, with the tool's name in front of its metadata, or an exception.
    pub settle : InnerSafetyInput → Py Verdict → LayerResult
    unfolding on_exception
    settle i (ok v) =
        layer_result live_state (record v { metadata = ("tool", str i.tool_name) ∷ v.metadata })
    settle i (raise e) = on_exception i e

    unfoldable pub check_live_state : InnerSafetyInput → LayerResult
    unfolding settle dispatch
    check_live_state i = settle i (dispatch i)
