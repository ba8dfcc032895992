-- ===== src/Planning/Query.antt =====
-- agent-core/agents/query_agent.py, lines 155 to 190 and 243 to 294: the sources of the query agent and
-- a query step of a plan.
use realityai_agents.Prelude.{
  ℕ, String, Bool, ◌&&◌, ◌||◌, not, Option, none, some, List, [], ◌∷◌, if◌then◌else◌, keep,
  contains, decimal, lookup, starts_with, ◌==◌, ◌+++◌,
}
use realityai_agents.Python.{
  Value, str, strings, Args, Py, ok, raise, ◌>>=◌, Exn, key_error, value_error, type_error,
}
use realityai_agents.Reasoning.Schemas.{CourseSection, has_meeting_on_days}
use realityai_agents.Planning.Plan.{
  QuerySource, canvas, degree_db, catalog_db, syllabus_rag, PlanStep,
}
use realityai_agents.Planning.Outputs.{
  Output, transcript, program, sections, Outputs, get_output, Param, plain, typed, StepEnv,
}
use realityai_agents.Planning.Params.{Params, is_text, is_true, text_in, can_hash, param, text_set}
use realityai_agents.Planning.Sources.{mock_transcripts, ai_program, mock_catalog}
use realityai_agents.Planning.Syllabus.{query_syllabus_rag}

abbrev some_text : Option String → Option Value
some_text none = none
some_text (some t) = some (str t)

abbrev some_texts : Option (List String) → Option Value
some_texts none = none
some_texts (some l) = some (strings l)

module _ {R : Type 0} where
  abbrev no_entries : Option String → Py (Output R)
  no_entries none = raise (value_error "StudentTranscript: user_id is no text")
  no_entries (some user) = ok (transcript (record { user_id = user; entries = [] }))

  abbrev transcript_at : Option String → Py (Output R)
  transcript_at none = no_entries none
  transcript_at (some user) = elim (lookup user mock_transcripts) [
    | some t ↦ ok (transcript t)
    | none ↦ no_entries (some user)
  ]

  -- `_query_canvas`
  unfoldable pub query_canvas : Params R → Py (Output R)
  query_canvas ps =
      if not (is_true (param ps "user_id"))
      then raise (value_error "canvas query requires user_id")
      else (if can_hash (param ps "user_id")
          then transcript_at (text_in (param ps "user_id"))
          else raise (type_error "unhashable type"))

  abbrev put_param : String → Option Value → Params R → Params R
  put_param k none ps = ps
  put_param k (some v) [] = (k, plain v) ∷ []
  put_param k (some v) ((j, p) ∷ ps) =
      let rest = put_param k (some v) ps in if j == k then (j, plain v) ∷ ps else (j, p) ∷ rest

module _ {R : Type 0} (env : StepEnv R) where
  abbrev no_program : Params R → Exn
  no_program ps = key_error (
      "no degree program for ("
      +++ (env.param_text (param ps "major")
          +++ (", "
              +++ (env.param_text (param ps "track")
                  +++ (", " +++ (env.param_text (param ps "cohort") +++ ")"))))))

  abbrev is_ai_key : Params R → Bool
  is_ai_key ps =
      is_text (text_in (param ps "major")) "CS"
      && (is_text (text_in (param ps "track")) "AI"
          && is_text (text_in (param ps "cohort")) "2024-2027")

  -- `_query_degree_db`
  unfoldable pub query_degree_db : Params R → Py (Output R)
  query_degree_db ps =
      if not (is_true (param ps "major")) || not (is_true (param ps "cohort"))
      then raise (value_error "degree_db query requires major + cohort")
      else (if can_hash (param ps "major")
            && (can_hash (param ps "track") && can_hash (param ps "cohort"))
          then (if is_ai_key ps then ok (program ai_program) else raise (no_program ps))
          else raise (type_error "unhashable type"))

  abbrev of_term : Param R → List CourseSection → List CourseSection
  of_term p l = if is_true p then keep (λ (s : CourseSection). is_text (text_in p) s.term) l else l

  abbrev with_codes : Param R → List CourseSection → Py (List CourseSection)
  with_codes p l =
      if is_true p
      then (do
        wanted ← text_set env p
        ok (keep (λ (s : CourseSection). contains s.course_code wanted) l))
      else ok l

  -- The days are made a set for each section, so for none where no section is left.
  abbrev without_days : Param R → List CourseSection → Py (List CourseSection)
  without_days p [] = ok []
  without_days p (s ∷ l) =
      if is_true p
      then (do days ← text_set env p; ok (keep (λ s. not (has_meeting_on_days s days)) (s ∷ l)))
      else ok (s ∷ l)

  -- `_query_catalog_db`
  unfoldable pub query_catalog_db : Params R → Py (Output R)
  query_catalog_db ps = do
    wanted ← with_codes (param ps "course_codes") (of_term (param ps "term") mock_catalog)
    l ← without_days (param ps "days_excluded") wanted
    ok (sections l)

  -- `_resolve_step_refs`: a reference that is no number stays as it is.
  abbrev not_computed : String → Exn
  not_computed t = key_error ("step ref " +++ (t +++ " not yet computed"))

  abbrev output_of_ref : Outputs R → String → Py (Option ℕ) → Py (Param R)
  output_of_ref os t (raise (value_error m)) = ok (plain (str t))
  output_of_ref os t (raise e) = raise e
  output_of_ref os t (ok none) = raise (not_computed t)
  output_of_ref os t (ok (some i)) = elim (get_output i os) [
    | some o ↦ ok (typed o)
    | none ↦ raise (not_computed t)
  ]

  abbrev pub resolve_ref : Outputs R → Value → Py (Param R)
  resolve_ref os (str t) =
      if starts_with t "<from_step_" && env.ends_with t ">"
      then output_of_ref os t (env.int_of (env.inner_text t))
      else ok (plain (str t))
  resolve_ref os v = ok (plain v)

  abbrev pub resolve_step_refs : Outputs R → Args → Py (Params R)
  resolve_step_refs os [] = ok []
  resolve_step_refs os ((k, v) ∷ args) = do
    p ← resolve_ref os v
    rest ← resolve_step_refs os args
    ok ((k, p) ∷ rest)

  abbrev run_source : QuerySource → PlanStep → Params R → Py (Output R)
  run_source canvas s ps = query_canvas ps
  run_source degree_db s ps = query_degree_db ps
  run_source catalog_db s ps = query_catalog_db ps
  run_source syllabus_rag s ps = query_syllabus_rag env (
      put_param "_query_expansion" (some_texts s.query_expansion)
        (put_param "_semantic_query" (some_text s.semantic_query) ps))

  abbrev run_query : Option QuerySource → Option Args → PlanStep → Outputs R → Py (Output R)
  run_query (some source) (some args) s os = do
    ps ← resolve_step_refs os args
    run_source source s ps
  run_query source args s os =
      raise (value_error ("step " +++ (decimal s.step_id +++ ": missing query_source/params")))

  -- `run_query_step`
  unfoldable pub run_query_step : PlanStep → Outputs R → Py (Output R)
  run_query_step s os = run_query s.query_source s.query_params s os
