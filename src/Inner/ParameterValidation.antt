-- ===== src/Inner/ParameterValidation.antt =====
-- agent-core/safety/inner/parameter_validation.py: layers 2 and 3.
pub mod Fields
pub mod Escape
use realityai_agents.Prelude.{
  ℕ, String, Bool, true, false, ◌&&◌, not, Option, none, some, List, [], ◌∷◌, ◌++◌, ◌≡◌,
  if◌then◌else◌, contains, lookup, keys, keep, all, leb, eqb, codes, join, sorted, is_empty, ◌+++◌,
}
use realityai_agents.Python.{
  Runtime, Value, str, strings, Args, Py, ok, raise, ◌>>=◌, in_set, list_text, str_of, repr_of,
}
use realityai_agents.Inner.Schemas.{
  InnerSafetyInput, LayerResult, parameter_presence, parameter_format, layer_result, denied,
  allowed,
}
use realityai_agents.Inner.Pattern.{Piece, match_pieces}

abbrev pub required_args : List (String × List String)
required_args =
    ("grade_update", "student_id" ∷ "course_id" ∷ "assignment_id" ∷ "grade" ∷ [])
    ∷ ("enrollment_modify", "student_id" ∷ "course_id" ∷ "action" ∷ [])
    ∷ ("assignment_create", "course_id" ∷ "title" ∷ "due_date" ∷ [])
    ∷ []

-- `required - set(args.keys())`
abbrev pub missing_of : List String → Args → List String
missing_of required args = keep (λ k. not (contains k (keys args))) required

module _ (rt : Runtime) where
  pub presence : InnerSafetyInput → Option (List String) → LayerResult
  presence i none = layer_result parameter_presence (
      denied "unknown_tool_for_presence_check"
        ("No parameter-presence policy configured for tool '" +++ (i.tool_name +++ "'."))
        (("tool", str i.tool_name) ∷ []))
  presence i (some required) =
      let missing = missing_of required i.tool_args in
      layer_result parameter_presence (
        if is_empty missing
        then allowed "all_required_args_present"
            (("tool", str i.tool_name) ∷ ("checked", strings (sorted required)) ∷ [])
        else denied "missing_required_args"
            ("Tool '"
              +++ (i.tool_name +++ ("' missing required args: " +++ list_text rt (sorted missing))))
            (("tool", str i.tool_name) ∷ ("missing", strings (sorted missing)) ∷ []))

  unfoldable pub check_parameter_presence : InnerSafetyInput → LayerResult
  unfolding presence
  check_parameter_presence i = presence i (lookup i.tool_name required_args)

abbrev between : ℕ → ℕ → ℕ → Bool
between lo hi c = leb lo c && leb c hi

abbrev sign : ℕ → Bool
sign c = elim (eqb c b'+') [ true ↦ true | false ↦ eqb c b'-' ]

abbrev dash : Piece
dash = record { cls = eqb b'-'; lo = 1; hi = 1 }

abbrev pub grade_pattern : List Piece
grade_pattern =
    record { cls = between b'A' b'F'; lo = 1; hi = 1 } ∷ record { cls = sign; lo = 0; hi = 1 } ∷ []

module _ (rt : Runtime) where
  abbrev digits : ℕ → ℕ → Piece
  digits lo hi = record { cls = rt.is_digit; lo = lo; hi = hi }

  abbrev pub course_id_pattern : List Piece
  course_id_pattern = record { cls = between b'A' b'Z'; lo = 2; hi = 4 } ∷ digits 3 4 ∷ []

  abbrev pub date_pattern : List Piece
  date_pattern = digits 4 4 ∷ dash ∷ digits 2 2 ∷ dash ∷ digits 2 2 ∷ []

  -- `pattern.match(str(v))`
  abbrev pub fits : List Piece → Value → Bool
  fits pattern v = match_pieces pattern (codes (str_of rt v))

  abbrev pub errors_at : Option Value → (Value → List String) → List String
  errors_at none check = []
  errors_at (some v) check = check v

  -- The check of one field, which is skipped where the field is absent.
  abbrev pub field_errors : Args → String → (Value → List String) → List String
  field_errors args k check = errors_at (lookup k args) check

  pub course_id_errors : Args → List String
  course_id_errors args = field_errors args "course_id" λ v.
      if fits course_id_pattern v
      then []
      else ("course_id format invalid; expected e.g. 'CS101' or 'COMS4705', got " +++ repr_of rt v)
        ∷ []

  pub grade_errors : Args → List String
  grade_errors args = field_errors args "grade" λ v.
      if fits grade_pattern v
      then []
      else ("grade must be letter grade (A–F, optional +/-), got " +++ repr_of rt v) ∷ []

  pub title_errors : Args → List String
  title_errors args =
      field_errors args "title"
        λ v. if all rt.is_space (codes (str_of rt v)) then "title must be non-empty" ∷ [] else []

  pub due_date_errors : Args → List String
  due_date_errors args = field_errors args "due_date" λ v.
      if fits date_pattern v
      then []
      else ("due_date must be ISO date 'YYYY-MM-DD', got " +++ repr_of rt v) ∷ []

  abbrev pub action_errors_at : Option Value → Py (List String)
  action_errors_at none = ok []
  action_errors_at (some v) = do
    known ← in_set v ("add" ∷ "drop" ∷ [])
    ok (if known then [] else ("action must be 'add' or 'drop', got " +++ repr_of rt v) ∷ [])

  pub action_errors : Args → Py (List String)
  action_errors args = action_errors_at (lookup "action" args)

  pub validate_grade_update_format : Args → Py (List String)
  unfolding course_id_errors grade_errors
  validate_grade_update_format args = ok (course_id_errors args ++ grade_errors args)

  -- A value of `action` that cannot be hashed raises out of the set test.
  pub validate_enrollment_format : Args → Py (List String)
  unfolding course_id_errors action_errors
  validate_enrollment_format args = do
    wrong_action ← action_errors args
    ok (course_id_errors args ++ wrong_action)

  pub validate_assignment_format : Args → Py (List String)
  unfolding course_id_errors title_errors due_date_errors
  validate_assignment_format args =
      ok (course_id_errors args ++ (title_errors args ++ due_date_errors args))

  abbrev pub format_validators : List (String × (Args → Py (List String)))
  format_validators =
      ("grade_update", validate_grade_update_format)
      ∷ ("enrollment_modify", validate_enrollment_format)
      ∷ ("assignment_create", validate_assignment_format)
      ∷ []

  pub format_verdict : InnerSafetyInput → List String → LayerResult
  format_verdict i errors = layer_result parameter_format (
      if is_empty errors
      then allowed "format_checks_passed" (("tool", str i.tool_name) ∷ [])
      else denied "invalid_arg_format" (join "; " errors)
          (("tool", str i.tool_name) ∷ ("errors", strings errors) ∷ []))

  pub format : InnerSafetyInput → Option (Args → Py (List String)) → Py LayerResult
  unfolding format_verdict
  format i none = ok (
      layer_result parameter_format (
        denied "unknown_tool_for_format_check"
          ("No format-validation policy configured for tool '" +++ (i.tool_name +++ "'."))
          (("tool", str i.tool_name) ∷ [])))
  format i (some validator) = do errors ← validator i.tool_args; ok (format_verdict i errors)

  unfoldable pub check_parameter_format : InnerSafetyInput → Py LayerResult
  unfolding format validate_grade_update_format validate_enrollment_format
      validate_assignment_format
  check_parameter_format i = format i (lookup i.tool_name format_validators)
