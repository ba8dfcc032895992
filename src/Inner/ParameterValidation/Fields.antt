-- ===== src/Inner/ParameterValidation/Fields.antt =====
-- When layers 2 and 3 allow: which arguments must be there, and the form of those that are.
use mathlib.Core.Option.{some_inj}
use realityai_agents.Prelude.{
  sym, subst, ap, String, ◌≡◌, refl, ◌↔◌, ◌⊎◌, inl, inr, ◌==◌, eq_iff, Bool, true, false, Option,
  none, some, List, [], ◌∷◌, ◌++◌, arith, lookup, contains, keys, is_empty, all, codes, All,
  Bool-cases, if◌then◌else◌, String,
}
use realityai_agents.Python.{Runtime, Value, str, Args, Py, ok, raise, ◌>>=◌, str_of}
use realityai_agents.Inner.Schemas.{InnerSafetyInput, LayerResult, allow}
use realityai_agents.Inner.Pattern.{Piece, Reads}
use realityai_agents.Inner.Pattern.Language.{match_pieces_iff}
use realityai_agents.Inner.ParameterValidation.{
  required_args, missing_of, presence, check_parameter_presence, fits, field_errors, errors_at,
  course_id_pattern, grade_pattern, date_pattern, course_id_errors, grade_errors, title_errors,
  due_date_errors, action_errors, action_errors_at, check_parameter_format, format_verdict, format,
  validate_grade_update_format, validate_enrollment_format, validate_assignment_format,
  format_validators,
}

abbrev pub HasArgs : Args → List String → Type 0
HasArgs args = All (λ k. contains k (keys args) ≡ true)

-- The tool has an entry in the table, and every argument that the entry names is passed.
abbrev pub ArgsPresent : InnerSafetyInput → Type 0
ArgsPresent i =
    (required : List String) × (lookup i.tool_name required_args ≡ some required)
    × HasArgs i.tool_args required

missing_of_iff :
    (required : List String) (args : Args)
    → (is_empty (missing_of required args) ≡ true) ↔ HasArgs args required
missing_of_iff [] args = (λ _. tt, λ _. refl)
missing_of_iff (k ∷ ks) args =
    let (f, g) = missing_of_iff ks args in
    elim (Bool-cases (contains k (keys args))) [
      | inl has ↦ rw has (λ h. (refl, f h), λ h. g h.1)
      | inr lacks ↦ rw lacks (λ h. cc, λ h. cc)
    ]

module _ (rt : Runtime) where
  presence_iff :
      (i : InnerSafetyInput) (entry : Option (List String))
      → ((presence rt i entry).decision ≡ allow)
        ↔ ((required : List String) × (entry ≡ some required) × HasArgs i.tool_args required)
  unfolding presence
  presence_iff i none = (λ h. cc, λ (r, e, h). cc)
  presence_iff i (some required) = (
    λ h. (required, refl, (missing_of_iff required i.tool_args).0 (ground arith)),
    λ (r, e, h).
        rw
          ((missing_of_iff required i.tool_args).1
            (subst (HasArgs i.tool_args) (some_inj.0 (sym e)) h))
          refl,
  )

  -- Layer 2 allows exactly when the tool is one of the table's and every argument that the table asks
  -- for is passed.
  pub check_parameter_presence-allow_iff :
      (i : InnerSafetyInput) → ((check_parameter_presence rt i).decision ≡ allow) ↔ ArgsPresent i
  unfolding check_parameter_presence
  check_parameter_presence-allow_iff i = presence_iff i (lookup i.tool_name required_args)

-- If the argument is there, it has the form.
abbrev pub Field : Args → String → (Value → Type 0) → Type 0
Field args k P = (v : Value) → lookup k args ≡ some v → P v

errors_at_iff :
    (rt : Runtime) (o : Option Value) (check : Value → List String) (P : Value → Type 0)
    → ((v : Value) → (check v ≡ []) ↔ P v)
    → (errors_at rt o check ≡ []) ↔ ((v : Value) → o ≡ some v → P v)
errors_at_iff rt none check P each = (λ _ v e. cc, λ _. refl)
errors_at_iff rt (some v) check P each =
    (λ h w e. subst P (some_inj.0 e) ((each v).0 h), λ h. (each v).1 (h v refl))

field_errors_iff :
    (rt : Runtime) (args : Args) (k : String) (check : Value → List String) (P : Value → Type 0)
    → ((v : Value) → (check v ≡ []) ↔ P v)
    → (field_errors rt args k check ≡ []) ↔ Field args k P
field_errors_iff rt args k check P each = errors_at_iff rt (lookup k args) check P each

report_iff : (b : Bool) (error : String) → ((if b then [] else error ∷ []) ≡ []) ↔ (b ≡ true)
report_iff true e = (λ _. refl, λ _. refl)
report_iff false e = (λ h. cc, λ h. cc)

append-nil_iff : (xs ys : List String) → ((xs ++ ys) ≡ []) ↔ ((xs ≡ []) × (ys ≡ []))
append-nil_iff [] ys = (λ h. (refl, h), λ h. h.1)
append-nil_iff (x ∷ xs) ys = (λ h. cc, λ h. cc)

module _ (rt : Runtime) where
  abbrev pub HasForm : List Piece → Value → Type 0
  HasForm pattern v = Reads pattern (codes (str_of rt v))

  abbrev pub NotBlank : Value → Type 0
  NotBlank v = all rt.is_space (codes (str_of rt v)) ≡ false

  abbrev pub IsEnrollmentAction : Value → Type 0
  IsEnrollmentAction v = (v ≡ str "add") ⊎ (v ≡ str "drop")

  fits_iff : (pattern : List Piece) (v : Value) → (fits rt pattern v ≡ true) ↔ HasForm pattern v
  fits_iff pattern v = match_pieces_iff pattern (codes (str_of rt v))

  form_errors_iff :
      (pattern : List Piece) (error : String) (v : Value)
      → ((if fits rt pattern v then [] else error ∷ []) ≡ []) ↔ HasForm pattern v
  form_errors_iff pattern error v =
      let (f, g) = report_iff (fits rt pattern v) error in
      let (f', g') = fits_iff pattern v in (λ h. f' (f h), λ h. g (g' h))

  module _ (args : Args) where
    course_id_errors_iff :
        (course_id_errors rt args ≡ []) ↔ Field args "course_id" (HasForm (course_id_pattern rt))
    unfolding course_id_errors
    course_id_errors_iff =
        field_errors_iff rt args "course_id" _ _ (λ v. form_errors_iff (course_id_pattern rt) _ v)

    grade_errors_iff : (grade_errors rt args ≡ []) ↔ Field args "grade" (HasForm grade_pattern)
    unfolding grade_errors
    grade_errors_iff = field_errors_iff rt args "grade" _ _ (λ v. form_errors_iff grade_pattern _ v)

    due_date_errors_iff :
        (due_date_errors rt args ≡ []) ↔ Field args "due_date" (HasForm (date_pattern rt))
    unfolding due_date_errors
    due_date_errors_iff =
        field_errors_iff rt args "due_date" _ _ (λ v. form_errors_iff (date_pattern rt) _ v)

    title_errors_iff : (title_errors rt args ≡ []) ↔ Field args "title" NotBlank
    unfolding title_errors
    title_errors_iff = field_errors_iff rt args "title" _ _ λ v.
        elim (Bool-cases (all rt.is_space (codes (str_of rt v)))) [
          | inl blank ↦ rw blank (λ h. cc, λ h. cc)
          | inr text ↦ rw text (λ h. refl, λ h. refl)
        ]

  action_errors_iff :
      (o : Option Value)
      → (action_errors_at rt o ≡ ok []) ↔ ((v : Value) → o ≡ some v → IsEnrollmentAction v)
  action_errors_iff none = (λ _ v e. cc, λ _. refl)
  action_errors_iff (some (str s)) = (
    λ h v e. ground (arith, eq_iff "add" s, eq_iff "drop" s),
    λ h. ground (arith, eq_iff "add" s, eq_iff "drop" s, h (str s) refl),
  )
  action_errors_iff (some v) = (λ h. cc, λ h. ground (arith, h v refl))

  -- The form that the present arguments of each tool must have.
  abbrev pub FormOk : InnerSafetyInput → Type 0
  FormOk i =
      Field i.tool_args "course_id" (HasForm (course_id_pattern rt))
      × (((i.tool_name ≡ "grade_update") × Field i.tool_args "grade" (HasForm grade_pattern))
          ⊎ ((i.tool_name ≡ "enrollment_modify") × Field i.tool_args "action" IsEnrollmentAction)
          ⊎ ((i.tool_name ≡ "assignment_create")
              × Field i.tool_args "title" NotBlank
              × Field i.tool_args "due_date" (HasForm (date_pattern rt))))

  abbrev pub FormatAllows : InnerSafetyInput → Py LayerResult → Type 0
  FormatAllows i m = (r : LayerResult) × (m ≡ ok r) × (r.decision ≡ allow)

  format-some_iff :
      (i : InnerSafetyInput) (validator : Args → Py (List String))
      → FormatAllows i (format rt i (some validator)) ↔ (validator i.tool_args ≡ ok [])
  unfolding format format_verdict
  format-some_iff i validator = go (validator i.tool_args)
    where
      go :
          (m : Py (List String))
          → FormatAllows i (m >>= λ errors. ok (format_verdict rt i errors)) ↔ (m ≡ ok [])
      go (ok []) = (λ _. refl, λ _. (_, refl, refl))
      go (ok (x ∷ xs)) = (λ (r, e, d). ground arith, λ h. cc)
      go (raise e) = (λ (r, e, d). cc, λ h. cc)

  errors_join_iff :
      (xs : List String) (m : Py (List String))
      → ((m >>= λ ys. ok (xs ++ ys)) ≡ ok []) ↔ ((xs ≡ []) × (m ≡ ok []))
  errors_join_iff xs (ok ys) = (
    λ h. let (a, b) = (append-nil_iff xs ys).0 (ground arith) in (a, rw b),
    λ (a, b). ground (arith, (append-nil_iff xs ys).1),
  )
  errors_join_iff xs (raise e) = (λ h. cc, λ (a, b). cc)

  grade_format_iff :
      (args : Args)
      → (validate_grade_update_format rt args ≡ ok []) ↔ (
          Field args "course_id" (HasForm (course_id_pattern rt))
          × Field args "grade" (HasForm grade_pattern))
  unfolding validate_grade_update_format
  grade_format_iff args =
      let (f, g) = errors_join_iff (course_id_errors rt args) (ok (grade_errors rt args)) in
      (
        λ h.
            let (a, b) = f h in
            ((course_id_errors_iff args).0 a, (grade_errors_iff args).0 (ground arith)),
        λ (a, b). g ((course_id_errors_iff args).1 a, ap ok ((grade_errors_iff args).1 b)),
      )

  enrollment_format_iff :
      (args : Args)
      → (validate_enrollment_format rt args ≡ ok []) ↔ (
          Field args "course_id" (HasForm (course_id_pattern rt))
          × Field args "action" IsEnrollmentAction)
  unfolding validate_enrollment_format action_errors
  enrollment_format_iff args =
      let (f, g) = errors_join_iff (course_id_errors rt args) (action_errors rt args) in
      let (f', g') = action_errors_iff (lookup "action" args) in
      (
        λ h. let (a, b) = f h in ((course_id_errors_iff args).0 a, f' b),
        λ (a, b). g ((course_id_errors_iff args).1 a, g' b),
      )

  assignment_format_iff :
      (args : Args)
      → (validate_assignment_format rt args ≡ ok []) ↔ (
          Field args "course_id" (HasForm (course_id_pattern rt))
          × Field args "title" NotBlank
          × Field args "due_date" (HasForm (date_pattern rt)))
  unfolding validate_assignment_format
  assignment_format_iff args =
      let (f, g) =
        errors_join_iff (course_id_errors rt args)
          (ok (title_errors rt args ++ due_date_errors rt args)) in
      let (f', g') = append-nil_iff (title_errors rt args) (due_date_errors rt args) in
      (
        λ h.
            let (a, b) = f h in
            let (t, d) = f' (ground arith) in
            (
              (course_id_errors_iff args).0 a,
              (title_errors_iff args).0 t,
              (due_date_errors_iff args).0 d,
            ),
        λ (a, t, d). g (
          (course_id_errors_iff args).1 a,
          ap ok (g' ((title_errors_iff args).1 t, (due_date_errors_iff args).1 d)),
        ),
      )

  abbrev EntryIs : String → (Args → Py (List String)) → Type 0
  EntryIs tool validator = lookup tool (format_validators rt) ≡ some validator

  entries :
      (tool : String)
      → (tool ≡ "grade_update" → EntryIs tool (validate_grade_update_format rt))
        × (tool ≡ "enrollment_modify" → EntryIs tool (validate_enrollment_format rt))
        × (tool ≡ "assignment_create" → EntryIs tool (validate_assignment_format rt))
  entries tool = (λ e. rw e, λ e. rw e, λ e. rw e)

  FormatAllows-entry :
      (i : InnerSafetyInput) (validator : Args → Py (List String))
      → EntryIs i.tool_name validator
      → validator i.tool_args ≡ ok []
      → FormatAllows i (check_parameter_format rt i)
  unfolding check_parameter_format
  FormatAllows-entry i validator e h =
      subst (λ o. FormatAllows i (format rt i o)) (sym e) ((format-some_iff i validator).1 h)

  -- Layer 3 returns a verdict that allows exactly when the tool is one of the three and the present
  -- arguments have their form: the course id and the date or grade that of their patterns, the action
  -- "add" or "drop", the title a character that is no space.
  pub check_parameter_format-allow_iff :
      (i : InnerSafetyInput) → FormatAllows i (check_parameter_format rt i) ↔ FormOk i
  unfolding check_parameter_format
  check_parameter_format-allow_iff i = (sound, complete)
    where
      sound : FormatAllows i (check_parameter_format rt i) → FormOk i
      sound h = elim (Bool-cases ("grade_update" == i.tool_name)) [
        | inl x ↦
            let (c, g) =
              (grade_format_iff i.tool_args).0
                ((format-some_iff i (validate_grade_update_format rt)).0 (rw x at h)) in
            (c, inl (sym ((eq_iff _ i.tool_name).0 x), g))
        | inr x ↦ elim (Bool-cases ("enrollment_modify" == i.tool_name)) [
          | inl y ↦
              let (c, a) =
                (enrollment_format_iff i.tool_args).0
                  ((format-some_iff i (validate_enrollment_format rt)).0 (rw (x, y) at h)) in
              (c, inr (inl (sym ((eq_iff _ i.tool_name).0 y), a)))
          | inr y ↦ elim (Bool-cases ("assignment_create" == i.tool_name)) [
            | inl z ↦
                let (c, t, d) =
                  (assignment_format_iff i.tool_args).0
                    ((format-some_iff i (validate_assignment_format rt)).0 (rw (x, y, z) at h)) in
                (c, inr (inr (sym ((eq_iff _ i.tool_name).0 z), t, d)))
            | inr z ↦ let (r, e, d) = rw (x, y, z) at h in absurd (ground arith)
          ]
        ]
      ]

      complete : FormOk i → FormatAllows i (check_parameter_format rt i)
      complete (c, inl (e, g)) =
          FormatAllows-entry i _ ((entries i.tool_name).0 e)
            ((grade_format_iff i.tool_args).1 (c, g))
      complete (c, inr (inl (e, a))) =
          FormatAllows-entry i _ ((entries i.tool_name).1 e)
            ((enrollment_format_iff i.tool_args).1 (c, a))
      complete (c, inr (inr (e, t, d))) =
          FormatAllows-entry i _ ((entries i.tool_name).2 e)
            ((assignment_format_iff i.tool_args).1 (c, t, d))
