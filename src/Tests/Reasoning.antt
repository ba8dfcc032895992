-- ===== src/Tests/Reasoning.antt =====
-- The gap analysis at a small program: CS101, and one of a databases or a systems course.
use realityai_agents.Prelude.{String, true, none, [], ◌∷◌}
use realityai_agents.Reasoning.Schemas.{
  TranscriptEntry, StudentTranscript, leaf, and_kind, or_kind, RequirementNode, requirement,
  no_nodes, and_then, DegreeProgram,
}

abbrev passed : String → TranscriptEntry
passed code = record {
  course_code = code;
  grade = "A";
  credits = 3;
  term = "Fall 2025";
  is_passed = true;
}

abbrev transcript : StudentTranscript
transcript = record { user_id = "S002"; entries = passed "CS101" ∷ passed "CS410" ∷ [] }

abbrev one_of : String → String → RequirementNode
one_of id code = requirement id leaf "" (code ∷ []) 1 no_nodes

abbrev electives : RequirementNode
electives =
    requirement "elective" or_kind "" [] 0
      (and_then (one_of "systems" "CS410") (and_then (one_of "data" "CS420") no_nodes))

abbrev program : DegreeProgram
program = record {
  major = "CS";
  track = none;
  cohort = "2024";
  root =
      requirement "root" and_kind "" [] 0
        (and_then (one_of "intro" "CS101") (and_then electives no_nodes));
}
