-- ===== src/Planning/Sources.antt =====
-- agent-core/agents/query_agent.py, lines 62 to 147: the data behind the sources. Times are minutes of
-- the day.
use realityai_agents.Prelude.{ℕ, ◌+◌, ◌*◌, String, true, some, List, [], ◌∷◌}
use realityai_agents.Reasoning.Schemas.{
  TranscriptEntry, StudentTranscript, leaf, and_kind, requirement, no_nodes, and_then,
  DegreeProgram, MeetingTime, CourseSection,
}

abbrev passed_entry : String → String → ℕ → String → TranscriptEntry
passed_entry code grade credits term = record {
  course_code = code;
  grade = grade;
  credits = credits;
  term = term;
  is_passed = true;
}

abbrev pub mock_transcripts : List (String × StudentTranscript)
mock_transcripts =
    (
      "u1",
      record {
        user_id = "u1";
        entries =
            passed_entry "CS101" "A" 3 "F24"
            ∷ passed_entry "CS201" "B+" 3 "S25"
            ∷ passed_entry "MATH200" "A-" 4 "F24"
            ∷ [];
      },
    )
    ∷ (
      "u2",
      record {
        user_id = "u2";
        entries = passed_entry "CS101" "C" 3 "F24" ∷ passed_entry "ENG101" "A" 3 "F24" ∷ [];
      },
    )
    ∷ []

abbrev pub ai_program : DegreeProgram
ai_program = record {
  major = "CS";
  track = some "AI";
  cohort = "2024-2027";
  root = requirement "root" and_kind "" [] 0 (
      and_then
        (requirement "ai_electives" leaf "AI track electives"
          ("CS401" ∷ "CS402" ∷ "CS403" ∷ "CS404" ∷ []) 3 no_nodes)
        (and_then
          (requirement "math_foundation" leaf "Math foundation" ("MATH200" ∷ "MATH210" ∷ []) 1
            no_nodes)
          no_nodes));
}

abbrev mt : List String → ℕ → ℕ → ℕ → ℕ → MeetingTime
mt days h1 m1 h2 m2 = record { days = days; start = 60 * h1 + m1; end = 60 * h2 + m2 }

abbrev section_of : String → String → ℕ → String → MeetingTime → CourseSection
section_of code term credits instructor meeting = record {
  course_code = code;
  section = "001";
  term = term;
  credits = credits;
  instructor = instructor;
  meetings = meeting ∷ [];
  prereqs = [];
}

abbrev pub mock_catalog : List CourseSection
mock_catalog =
    section_of "CS101" "F25" 3 "Dr. Smith" (mt ("M" ∷ "W" ∷ "F" ∷ []) 10 0 10 50)
    ∷ section_of "CS201" "F25" 3 "Dr. Johnson" (mt ("T" ∷ "R" ∷ []) 14 0 15 15)
    ∷ section_of "MATH200" "F25" 4 "Dr. Lee" (mt ("M" ∷ "W" ∷ []) 13 0 14 15)
    ∷ section_of "CS401" "S26" 3 "Dr. Lee" (mt ("T" ∷ "R" ∷ []) 11 40 12 55)
    ∷ section_of "CS402" "S26" 3 "Dr. Park" (mt ("F" ∷ []) 10 0 12 30)
    ∷ section_of "CS403" "S26" 3 "Dr. Chen" (mt ("M" ∷ "W" ∷ []) 13 0 14 15)
    ∷ section_of "CS404" "S26" 3 "Dr. Singh" (mt ("T" ∷ "R" ∷ []) 14 30 15 45)
    ∷ section_of "MATH210" "S26" 4 "Dr. Davis" (mt ("M" ∷ "W" ∷ "F" ∷ []) 9 0 9 50)
    ∷ []
