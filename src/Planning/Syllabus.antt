-- ===== src/Planning/Syllabus.antt =====
-- agent-core/agents/query_agent.py, lines 193 to 240: syllabus queries. `retrieve` is `hybrid_retrieve`
-- of agent-core/retrieval.
pub mod Dedup
pub mod Ranked
use realityai_agents.Prelude.{
  ℕ, ◌+◌, ◌*◌, String, Bool, true, false, ◌&&◌, ◌||◌, not, Option, none, some, List, [], ◌∷◌, ◌++◌,
  map, all, if◌then◌else◌, eqb, is_empty, keep, contains, decimal, lookup, starts_with, ◌==◌, ◌+++◌,
}
use realityai_agents.Python.{
  Value, null, str, strings, Args, Py, ok, raise, ◌>>=◌, Exn, key_error, value_error, type_error,
  attribute_error, truthy, is_hashable,
}
use realityai_agents.Reasoning.Schemas.{
  TranscriptEntry, StudentTranscript, leaf, and_kind, RequirementNode, requirement, no_nodes,
  and_then, DegreeProgram, MeetingTime, CourseSection, has_meeting_on_days,
}
use realityai_agents.Planning.Plan.{
  QuerySource, canvas, degree_db, catalog_db, syllabus_rag, PlanStep,
}
use realityai_agents.Planning.Outputs.{
  SyllabusChunk, Output, transcript, program, sections, chunks, unsatisfied, options, text,
  action_result, failed, Outputs, get_output, Param, plain, typed, Document, StepEnv,
}
use realityai_agents.Planning.Params.{
  Params, is_text, is_true, text_in, can_hash, param, param_or_blank, texts_in, items, text_set,
}

abbrev text_or_empty : Option String → String
text_or_empty none = ""
text_or_empty (some t) = t

module _ {R : Type 0} where
  -- The key of `by_id`: the document's id, or its identity where that is empty.
  abbrev pub doc_key : Document R → String × ℕ
  doc_key d = (d.doc_id, (if d.doc_id == "" then d.identity else 0))

  abbrev pub same_doc : Document R → Document R → Bool
  same_doc d e = ((doc_key d).0 == (doc_key e).0) && eqb (doc_key d).1 (doc_key e).1

  abbrev pub chunk_of : Option String → Document R → SyllabusChunk R
  chunk_of course d = record {
    chunk_id = d.doc_id;
    course_id = text_or_empty course;
    content = d.content;
    score = d.score;
    source = "syllabus_rag";
  }

module _ {R : Type 0} (env : StepEnv R) where
  -- One round of the loop: a better score takes the place of the one with the same key.
  abbrev pub put_best : Document R → List (Document R) → List (Document R)
  put_best d [] = d ∷ []
  put_best d (e ∷ es) =
      let rest = put_best d es in
      if same_doc e d then (if env.rank_below e.score d.score then d ∷ es else e ∷ es) else e ∷ rest

  abbrev pub put_all : List (Document R) → List (Document R) → List (Document R)
  put_all [] best = best
  put_all (d ∷ ds) best = put_all ds (put_best d best)

  abbrev pub retrieve_all :
      Option String → List (Param R) → List (Document R) → Py (List (Document R))
  retrieve_all course [] best = ok best
  retrieve_all course (q ∷ qs) best = do
    ds ← env.retrieve q course
    retrieve_all course qs (put_all ds best)

  -- `sorted(…, reverse=True)` keeps the order of equal scores.
  abbrev pub insert_by_score : Document R → List (Document R) → List (Document R)
  insert_by_score d [] = d ∷ []
  insert_by_score d (e ∷ es) =
      let rest = insert_by_score d es in
      if env.rank_below d.score e.score then e ∷ rest else d ∷ e ∷ es

  abbrev pub by_score : List (Document R) → List (Document R)
  by_score [] = []
  by_score (d ∷ ds) = insert_by_score d (by_score ds)

  abbrev pub upper_or_none : Param R → Py (Option String)
  upper_or_none p =
      if is_true p
      then elim (text_in p) [
        | some t ↦ ok (some (env.upper t))
        | none ↦ raise (attribute_error "upper")
      ]
      else ok none

  abbrev pub primary_query : Params R → Param R
  primary_query ps =
      if is_true (param ps "_semantic_query")
      then param ps "_semantic_query"
      else plain (
          str (
            env.strip (
              env.param_text (param_or_blank ps "course_id")
              +++ (" syllabus " +++ env.param_text (param_or_blank ps "topic")))))

  abbrev pub expansions : Params R → Py (List (Param R))
  expansions ps =
      if is_true (param ps "_query_expansion")
      then items env (param ps "_query_expansion")
      else ok []

  -- `_query_syllabus_rag`
  unfoldable pub query_syllabus_rag : Params R → Py (Output R)
  query_syllabus_rag ps = do
    course ← upper_or_none (param_or_blank ps "course_id")
    more ← expansions ps
    best ← retrieve_all course (primary_query ps ∷ more) []
    ok (chunks (map (chunk_of course) (by_score best)))
