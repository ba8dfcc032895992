-- ===== src/OutputFilter/InnerCodes.antt =====
-- The codes of the inner gate. Layer 3 has one more, for a tool without a format policy, which the list
-- lacks; layer 2 denies such a tool first.
use realityai_agents.Prelude.{
  if_elim, ◌≢◌, subst, eq_iff, String, ◌≡◌, refl, ◌==◌, not, ◌&&◌, Option, none, some, List, [],
  ◌∷◌, arith, contains, lookup, leb, is_empty, inl, inr,
}
use realityai_agents.Python.{
  Runtime, Value, Args, Py, ok, raise, ok_inj, ◌>>=◌, Exn, timeout_error, key_error, value_error,
  item, in_set, value_eq,
}
use realityai_agents.OutputFilter.Known.{IsKnown, known}
use realityai_agents.Inner.Schemas.{
  InnerSafetyInput, LayerResult, Verdict, InnerSafetyDecision, allow, deny,
}
use realityai_agents.Inner.ToolAuthorization.{
  check_tool_authorization, check_config, RoleConfig, roles,
}
use realityai_agents.Inner.ParameterValidation.{
  required_args, missing_of, presence, check_parameter_presence, format, format_verdict,
  check_parameter_format, format_validators,
}
use realityai_agents.Inner.LiveState.{
  Read, CourseState, enrollment_verdict, check_enrollment_modify, grade_verdict, check_grade_update,
  check_assignment_create, dispatch, on_exception, settle, check_live_state,
}
use realityai_agents.Inner.Grants.{IsActionTool, check_tool_authorization-allow_iff}
use realityai_agents.Inner.Audit.{Stamp, AuditStore}
use realityai_agents.Inner.Node.{
  Outcome, by_decision, short_circuit, inner_safety_check, unless_denied,
}

abbrev LayerKnown : LayerResult → Type 0
LayerKnown r = IsKnown r.reason_code

abbrev VerdictKnown : Verdict → Type 0
VerdictKnown v = IsKnown v.reason_code

-- A check that may raise: the code of the verdict that it returns.
data OkKnown : Py Verdict → Type 0 where
  returned : {v : Verdict} → VerdictKnown v → OkKnown (ok v)
  raised : {e : Exn} → OkKnown (raise e)

bind-OkKnown {ℓ} :
    {X : Type ℓ} (m : Py X) (f : X → Py Verdict) → ((x : X) → OkKnown (f x)) → OkKnown (m >>= f)
bind-OkKnown (ok x) f h = h x
bind-OkKnown (raise e) f h = raised

authorization-IsKnown : (i : InnerSafetyInput) → LayerKnown (check_tool_authorization i)
unfolding check_tool_authorization
authorization-IsKnown i = go (lookup i.session.user_role roles)
  where
    go : (o : Option RoleConfig) → LayerKnown (check_config i o)
    go none = known "unknown_role" refl
    go (some config) =
        if_elim VerdictKnown (contains i.tool_name config.granted) _ _
          (known "role_grants_tool" refl)
          (if_elim VerdictKnown (contains i.tool_name config.denied) _ _
            (known "role_lacks_tool_grant" refl) (known "unknown_tool_for_role" refl))

module _ (rt : Runtime) (i : InnerSafetyInput) where
  presence-IsKnown : LayerKnown (check_parameter_presence rt i)
  unfolding check_parameter_presence
  presence-IsKnown = go (lookup i.tool_name required_args)
    where
      go : (o : Option (List String)) → LayerKnown (presence rt i o)
      go none = known "unknown_tool_for_presence_check" refl
      go (some required) =
          if_elim VerdictKnown (is_empty (missing_of required i.tool_args)) _ _
            (known "all_required_args_present" refl) (known "missing_required_args" refl)

module _ (rt : Runtime) (read : Read) (i : InnerSafetyInput) where
  enrollment_verdict-OkKnown :
      (c s a : Value) (state : CourseState) → OkKnown (enrollment_verdict rt read c s a state)
  unfolding check_live_state
  enrollment_verdict-OkKnown c s a state =
      if_elim OkKnown (value_eq a "add") _ _
        (returned (
          if_elim VerdictKnown (leb state.capacity state.current_enrollment) _ _
            (known "course_full" refl) (known "enrollment_capacity_ok" refl)))
        (bind-OkKnown (in_set s state.enrolled_students) _ λ enrolled. returned (
          if_elim VerdictKnown (not enrolled) _ _ (known "not_enrolled" refl)
            (known "enrollment_record_exists" refl)))

  enrollment-OkKnown : OkKnown (check_enrollment_modify rt read i)
  unfolding check_live_state
  enrollment-OkKnown = bind-OkKnown (item i.tool_args "course_id") _ λ c.
      bind-OkKnown (item i.tool_args "student_id") _ λ s.
        bind-OkKnown (item i.tool_args "action") _ λ a.
          if_elim OkKnown (i.session.user_role == "student" && not (value_eq s i.session.user_id)) _
            _ (returned (known "student_can_only_self_modify_enrollment" refl))
            (bind-OkKnown (read c) _ (enrollment_verdict-OkKnown c s a))

  grade_verdict-OkKnown :
      (c s : Value) (state : CourseState) → OkKnown (grade_verdict rt read c s state)
  unfolding check_live_state
  grade_verdict-OkKnown c s state =
      if_elim OkKnown (not state.grade_window_open) _ _
        (returned (known "grade_window_closed" refl))
        (bind-OkKnown (in_set s state.enrolled_students) _ λ enrolled. returned (
          if_elim VerdictKnown (not enrolled) _ _ (known "student_not_enrolled" refl)
            (known "grade_update_preconditions_met" refl)))

  grade-OkKnown : OkKnown (check_grade_update rt read i)
  unfolding check_live_state
  grade-OkKnown = bind-OkKnown (item i.tool_args "course_id") _ λ c.
      bind-OkKnown (item i.tool_args "student_id") _
        λ s. bind-OkKnown (read c) _ (grade_verdict-OkKnown c s)

  assignment-OkKnown : OkKnown (check_assignment_create rt read i)
  unfolding check_live_state
  assignment-OkKnown = bind-OkKnown (item i.tool_args "course_id") _ λ c.
      bind-OkKnown (read c) _ λ state. returned (
        if_elim VerdictKnown (not (state.instructor_user_id == i.session.user_id)) _ _
          (known "not_course_instructor" refl) (known "course_ownership_confirmed" refl))

  dispatch-OkKnown : OkKnown (dispatch rt read i)
  unfolding check_live_state
  dispatch-OkKnown = if_elim OkKnown (i.tool_name == "enrollment_modify") _ _ enrollment-OkKnown (
      if_elim OkKnown (i.tool_name == "grade_update") _ _ grade-OkKnown
        (if_elim OkKnown (i.tool_name == "assignment_create") _ _ assignment-OkKnown raised))

  module _ (t : String) where
    on_exception-IsKnown : (e : Exn) → LayerKnown (on_exception rt read t i e)
    unfolding check_live_state
    on_exception-IsKnown (timeout_error m) = known "live_state_timeout" refl
    on_exception-IsKnown (key_error k) = known "course_not_found" refl
    on_exception-IsKnown (value_error m) = known "unknown_tool_for_live_state" refl
    on_exception-IsKnown e = known "live_state_unavailable" refl

    settle-IsKnown : {m : Py Verdict} → OkKnown m → LayerKnown (settle rt read t i m)
    unfolding check_live_state
    settle-IsKnown (returned k) = k
    settle-IsKnown (raised {e = e}) = on_exception-IsKnown e

    live_state-IsKnown : LayerKnown (check_live_state rt read t i)
    unfolding check_live_state
    live_state-IsKnown = settle-IsKnown dispatch-OkKnown

module _ (stamp : Stamp) (i : InnerSafetyInput) (store : AuditStore) where
  data EndsKnown : Py Outcome → Type 0 where
    ended : {o : Outcome} → IsKnown o.0.final_reason_code → EndsKnown (ok o)
    failed : {e : Exn} → EndsKnown (raise e)

  step-EndsKnown :
      (results : List LayerResult) (r : LayerResult) (rest : Py Outcome)
      → LayerKnown r
      → (r.decision ≡ allow → EndsKnown rest)
      → EndsKnown (unless_denied stamp i store results r rest)
  unfolding inner_safety_check
  step-EndsKnown results r rest h k = go r.decision refl
    where
      go :
          (d : InnerSafetyDecision)
          → r.decision ≡ d
          → EndsKnown (by_decision d rest (short_circuit stamp i store results r))
      go allow e = k e
      go deny e = ended h

  module _ (rt : Runtime) where
    format-EndsKnown :
        (o : Option (Args → Py (List String))) (k : LayerResult → Py Outcome)
        → o ≢ none
        → ((r : LayerResult) → LayerKnown r → EndsKnown (k r))
        → EndsKnown (format rt i o >>= k)
    unfolding check_parameter_format
    format-EndsKnown none k some_tool h = absurd (some_tool refl)
    format-EndsKnown (some validator) k some_tool h = go (validator i.tool_args)
      where
        go : (m : Py (List String)) → EndsKnown ((m >>= λ e. ok (format_verdict rt i e)) >>= k)
        go (raise e) = failed
        go (ok errors) = h (format_verdict rt i errors) (
            if_elim VerdictKnown (is_empty errors) _ _ (known "format_checks_passed" refl)
              (known "invalid_arg_format" refl))

    action_tool-has_format :
        IsActionTool i.tool_name → lookup i.tool_name (format_validators rt) ≢ none
    action_tool-has_format h = ground (
      arith,
      eq_iff "grade_update" i.tool_name,
      eq_iff "enrollment_modify" i.tool_name,
      eq_iff "assignment_create" i.tool_name,
    )

    authorized-IsActionTool :
        (check_tool_authorization i).decision ≡ allow → IsActionTool i.tool_name
    authorized-IsActionTool h = elim ((check_tool_authorization-allow_iff i).0 h) [
      | inl (student, enrollment) ↦ inr (inl enrollment)
      | inr (staff, tool) ↦ tool
    ]

    gate-EndsKnown :
        (read : Read) (t : String) → EndsKnown (inner_safety_check rt read t stamp i store)
    unfolding inner_safety_check check_parameter_format
    gate-EndsKnown read t =
        let r1 = check_tool_authorization i in
        let r2 = check_parameter_presence rt i in
        let r4 = check_live_state rt read t i in
        step-EndsKnown (r1 ∷ []) r1 _ (authorization-IsKnown i) λ granted.
          step-EndsKnown (r1 ∷ r2 ∷ []) r2 _ (presence-IsKnown rt i) λ present.
            format-EndsKnown (lookup i.tool_name (format_validators rt)) _
              (action_tool-has_format (authorized-IsActionTool granted))
              λ r3 r3-IsKnown. step-EndsKnown (r1 ∷ r2 ∷ r3 ∷ []) r3 _ r3-IsKnown λ formed.
                step-EndsKnown (r1 ∷ r2 ∷ r3 ∷ r4 ∷ []) r4 _ (live_state-IsKnown rt read i t)
                  λ permitted. ended (known "all_layers_passed" refl)

    -- Every reason code with which the inner gate can end is in the output filter's list.
    pub inner_safety_check-IsKnown :
        (read : Read) (t : String) {o : Outcome}
        → inner_safety_check rt read t stamp i store ≡ ok o
        → IsKnown o.0.final_reason_code
    inner_safety_check-IsKnown read t {o} h = end (gate-EndsKnown read t) h
      where
        end : {m : Py Outcome} → EndsKnown m → m ≡ ok o → IsKnown o.0.final_reason_code
        end (ended k) e = subst (λ (x : Outcome). IsKnown x.0.final_reason_code) (ok_inj e) k
        end failed e = cc
