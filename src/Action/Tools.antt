-- ===== src/Action/Tools.antt =====
-- agent-core/agents/action_agent.py, lines 73 to 173: the three tools. The gRPC client is an argument,
-- and so are the six characters that `assignment_create` takes from a UUID. LangChain's `tool.invoke`,
-- which checks the arguments against the signature, is not modelled: see Action/Step.antt.
use realityai_agents.Prelude.{String, Bool, true, [], ◌∷◌, ◌==◌, if◌then◌else◌, ◌+++◌}
use realityai_agents.Python.{Value, flag, num, str, nested, Args, Py, ok, raise, rpc_error, ◌>>=◌}

-- What the tools call of `CoreServiceClient`: each answers, or raises.
pub record Client : Type 0 where
  pub update_grade : (student_id course_id semester grade : String) → Py Value
  pub enroll_student : (student_id course_id semester : String) → Py Value
  pub drop_enrollment : (student_id course_id semester : String) → Py Bool
  pub create_assignment : Args → Py Value

-- `except grpc.RpcError: return fallback`
pub except_rpc_error : Py Args → Args → Py Args
except_rpc_error (raise (rpc_error m)) fallback = ok fallback
except_rpc_error m fallback = m

abbrev mock_fallback : String → Args → Args
mock_fallback operation kwargs =
    ("success", flag true) ∷ ("operation", str operation) ∷ ("mock", flag true) ∷ kwargs

module _ (client : Client) where
  unfoldable pub grade_update : (student_id course_id assignment_id grade : String) → Py Args
  unfolding except_rpc_error
  grade_update student_id course_id assignment_id grade =
      let message =
        "Grade updated to "
        +++ (grade +++ (" for student " +++ (student_id +++ (" in " +++ course_id)))) in
      except_rpc_error
        (do
          result ← client.update_grade student_id course_id "Fall 2025" grade
          ok (
              ("success", flag true)
              ∷ ("operation", str "grade_update")
              ∷ ("student_id", str student_id)
              ∷ ("course_id", str course_id)
              ∷ ("grade", str grade)
              ∷ ("enrollment", result)
              ∷ ("message", str message)
              ∷ []))
        (mock_fallback "grade_update" (
          ("student_id", str student_id)
          ∷ ("course_id", str course_id)
          ∷ ("assignment_id", str assignment_id)
          ∷ ("grade", str grade)
          ∷ ("message", str message)
          ∷ []))

  -- The call of the client, and the value of `result`. The flag that `drop_enrollment` returns is
  -- not looked at.
  abbrev enrollment_call : (student_id course_id action : String) → Py Value
  enrollment_call student_id course_id action =
      if action == "add" then client.enroll_student student_id course_id "Fall 2025" else (do
        _ ← client.drop_enrollment student_id course_id "Fall 2025"
        ok (nested "{'status': 'DROPPED'}"))

  unfoldable pub enrollment_modify : (student_id course_id action : String) → Py Args
  unfolding except_rpc_error
  enrollment_modify student_id course_id action =
      let verb : String = if action == "add" then "enrolled in" else "dropped from" in
      let message = "Student " +++ (student_id +++ (" " +++ (verb +++ (" " +++ course_id)))) in
      except_rpc_error
        (do
          result ← enrollment_call student_id course_id action
          ok (
              ("success", flag true)
              ∷ ("operation", str "enrollment_modify")
              ∷ ("student_id", str student_id)
              ∷ ("course_id", str course_id)
              ∷ ("action", str action)
              ∷ ("result", result)
              ∷ ("message", str message)
              ∷ []))
        (mock_fallback "enrollment_modify" (
          ("student_id", str student_id)
          ∷ ("course_id", str course_id)
          ∷ ("action", str action)
          ∷ ("message", str message)
          ∷ []))

  unfoldable pub assignment_create : (hex course_id title due_date description : String) → Py Args
  unfolding except_rpc_error
  assignment_create hex course_id title due_date description =
      let assignment_id = course_id +++ ("-" +++ hex) in
      let message =
        "Assignment '"
        +++ (title +++ ("' created for " +++ (course_id +++ (", due " +++ due_date)))) in
      except_rpc_error
        (do
          result ← client.create_assignment (
              ("assignment_id", str assignment_id)
              ∷ ("course_id", str course_id)
              ∷ ("title", str title)
              ∷ ("description", str description)
              ∷ ("due_date", str due_date)
              ∷ ("max_points", num 100)
              ∷ [])
          ok (
              ("success", flag true)
              ∷ ("operation", str "assignment_create")
              ∷ ("assignment", result)
              ∷ ("message", str message)
              ∷ []))
        (mock_fallback "assignment_create" (
          ("course_id", str course_id)
          ∷ ("title", str title)
          ∷ ("due_date", str due_date)
          ∷ ("description", str description)
          ∷ ("message", str message)
          ∷ []))
