-- ===== src/Planning/Outputs.antt =====
-- What the steps of a plan put out, and what they take from outside.
use realityai_agents.Prelude.{
  ℕ, String, Bool, Option, none, some, List, [], ◌∷◌, eqb, decimal, if◌then◌else◌,
}
use realityai_agents.Python.{Value, Args, Py, ok, raise, Exn, key_error}
use realityai_agents.Reasoning.Schemas.{
  StudentTranscript, DegreeProgram, UnsatisfiedRequirement, CourseSection,
}
use realityai_agents.Reasoning.Solver.{ScheduleConstraints, ScheduleOption}
use realityai_agents.Action.Step.{Env}

-- `SyllabusChunk` of agent-core/schemas/query_outputs.py; `S` are the floats of its score.
pub record SyllabusChunk (S : Type 0) : Type 0 where
  pub chunk_id : String
  pub course_id : String
  pub content : String
  pub score : S
  pub source : String

-- What stands in `step_outputs`. An exception is stored like a result.
pub data Output (R : Type 0) : Type 0 where
  transcript : StudentTranscript → Output R
  program : DegreeProgram → Output R
  sections : List CourseSection → Output R
  chunks : List (SyllabusChunk R) → Output R
  unsatisfied : List UnsatisfiedRequirement → Output R
  options : List (ScheduleOption R) → Output R
  text : String → Output R
  action_result : Args → Output R
  failed : Exn → Output R

abbrev pub Outputs : Type 0 → Type 0
Outputs R = List (ℕ × Output R)

abbrev pub get_output : {R : Type 0} → ℕ → Outputs R → Option (Output R)
get_output id [] = none
get_output id ((i, o) ∷ os) = if eqb i id then some o else get_output id os

-- `step_outputs[i]`
abbrev pub output_at : {R : Type 0} → Outputs R → ℕ → Py (Output R)
output_at os id = elim (get_output id os) [ some o ↦ ok o | none ↦ raise (key_error (decimal id)) ]

-- A resolved input: a value of the plan, or what an earlier step has put out.
pub data Param (R : Type 0) : Type 0 where
  plain : Value → Param R
  typed : Output R → Param R

-- What retrieval finds; `identity` is `id` of the object.
pub record Document (S : Type 0) : Type 0 where
  pub doc_id : String
  pub content : String
  pub score : S
  pub identity : ℕ

-- `retrieve` is `hybrid_retrieve` for a course, five documents at most; `items_of` iterates over a value
-- that is no list of texts, and `param_text` is `str` of a value. `action_env` holds, for a step, its clock, its fresh id and what it reads of the course store.
-- `ends_with`, `v[11:-1]`, and `int`, whose answer is `none` for a number below zero; `set` of a list
-- that holds other things than texts; the constraints as pydantic validates them.
pub record StepEnv (R : Type 0) : Type 0 where
  pub rank_zero : R
  pub rank_of : ℕ → ℕ → R
  pub rank_below : R → R → Bool
  pub ends_with : String → String → Bool
  pub inner_text : String → String
  pub int_of : String → Py (Option ℕ)
  pub set_of : String → Py (List String)
  pub constraints_of : Option (Param R) → Py ScheduleConstraints
  pub exn_text : Exn → String
  pub upper : String → String
  pub strip : String → String
  pub param_text : Param R → String
  pub items_of : Param R → Py (List (Param R))
  pub retrieve : Param R → Option String → Py (List (Document R))
  pub action_env : ℕ → Env
