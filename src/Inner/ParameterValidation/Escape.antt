-- ===== src/Inner/ParameterValidation/Escape.antt =====
-- Where layer 3 raises instead of returning a verdict: the set test on an unhashable action.
use realityai_agents.Prelude.{
  String, ◌≡◌, refl, sym, subst, ◌↔◌, inl, inr, ◌==◌, eq_iff, false, Option, none, some, List, ◌++◌,
  arith, lookup, Bool-cases,
}
use realityai_agents.Python.{
  Runtime, Value, null, flag, num, number, str, strings, nested, Args, Py, ok, is_hashable, Raises,
  bind-Raises_iff, not-Raises-ok,
}
use realityai_agents.Inner.Schemas.{InnerSafetyInput}
use realityai_agents.Inner.ParameterValidation.{
  action_errors_at, action_errors, course_id_errors, validate_grade_update_format,
  validate_enrollment_format, validate_assignment_format, format_validators, format,
  check_parameter_format,
}

-- The values of `action` on which the set test of layer 3 raises.
abbrev pub HasUnhashableAction : InnerSafetyInput → Type 0
HasUnhashableAction i =
    (v : Value) × (lookup "action" i.tool_args ≡ some v) × (is_hashable v ≡ false)

module _ (rt : Runtime) where
  action-Raises_iff :
      (o : Option Value)
      → Raises (action_errors_at rt o) ↔ ((v : Value) × (o ≡ some v) × (is_hashable v ≡ false))
  action-Raises_iff none = (λ (x, e). cc, λ (v, e, h). cc)
  action-Raises_iff (some (strings l)) = (λ h. (strings l, refl, refl), λ h. (_, refl))
  action-Raises_iff (some (nested t)) = (λ h. (nested t, refl, refl), λ h. (_, refl))
  action-Raises_iff (some null) = (λ (x, e). cc, λ (v, e, h). ground arith)
  action-Raises_iff (some (flag b)) = (λ (x, e). cc, λ (v, e, h). ground arith)
  action-Raises_iff (some (num n)) = (λ (x, e). cc, λ (v, e, h). ground arith)
  action-Raises_iff (some (number t)) = (λ (x, e). cc, λ (v, e, h). ground arith)
  action-Raises_iff (some (str s)) = (λ (x, e). cc, λ (v, e, h). ground arith)

  enrollment-Raises_iff :
      (i : InnerSafetyInput)
      → Raises (validate_enrollment_format rt i.tool_args) ↔ HasUnhashableAction i
  unfolding validate_enrollment_format action_errors
  enrollment-Raises_iff i =
      let (f, g) =
        bind-Raises_iff (action_errors_at rt (lookup "action" i.tool_args))
          (λ ys. ok (course_id_errors rt i.tool_args ++ ys)) (λ ys. not-Raises-ok _) in
      let (f', g') = action-Raises_iff (lookup "action" i.tool_args) in
      (λ h. f' (f h), λ h. g (g' h))

  format-Raises_iff :
      (i : InnerSafetyInput) (validator : Args → Py (List String))
      → Raises (format rt i (some validator)) ↔ Raises (validator i.tool_args)
  unfolding format
  format-Raises_iff i validator =
      bind-Raises_iff (validator i.tool_args) _ (λ errors. not-Raises-ok _)

  entry :
      (tool : String)
      → tool ≡ "enrollment_modify"
      → lookup tool (format_validators rt) ≡ some (validate_enrollment_format rt)
  entry tool e = rw e

  -- Layer 3 raises exactly for `enrollment_modify` with an `action` that cannot be hashed.
  pub check_parameter_format-Raises_iff :
      (i : InnerSafetyInput)
      → Raises (check_parameter_format rt i)
        ↔ ((i.tool_name ≡ "enrollment_modify") × HasUnhashableAction i)
  unfolding check_parameter_format
  check_parameter_format-Raises_iff i = (
    λ h. elim (Bool-cases ("grade_update" == i.tool_name)) [
      | inl x ↦
          let (r, e) = (format-Raises_iff i (validate_grade_update_format rt)).0 (rw x at h) in cc
      | inr x ↦ elim (Bool-cases ("enrollment_modify" == i.tool_name)) [
        | inl y ↦ (
          sym ((eq_iff "enrollment_modify" i.tool_name).0 y),
          (enrollment-Raises_iff i).0
              ((format-Raises_iff i (validate_enrollment_format rt)).0 (rw (x, y) at h)),
        )
        | inr y ↦ elim (Bool-cases ("assignment_create" == i.tool_name)) [
          | inl z ↦
              let (r, e) =
                (format-Raises_iff i (validate_assignment_format rt)).0 (rw (x, y, z) at h) in
              cc
          | inr z ↦ let (r, e) = rw (x, y, z) at h in cc
        ]
      ]
    ],
    λ (e, h).
        subst (λ o. Raises (format rt i o)) (sym (entry i.tool_name e))
          ((format-Raises_iff i (validate_enrollment_format rt)).1 ((enrollment-Raises_iff i).1 h)),
  )
