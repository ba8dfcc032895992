-- ===== src/Reasoning/Schemas.antt =====
-- agent-core/schemas/query_outputs.py, but for the wrapper of the text chunks. `need` is a natural number:
-- one below zero is met by every transcript, as zero is.
use realityai_agents.Prelude.{
  ℕ, String, Bool, false, ◌&&◌, not, Option, List, if◌then◌else◌, any, contains, ltb,
}

pub record TranscriptEntry : Type 0 where
  pub course_code : String
  pub grade : String
  pub credits : ℕ
  pub term : String
  pub is_passed : Bool

pub record StudentTranscript : Type 0 where
  pub user_id : String
  pub entries : List TranscriptEntry

pub data Kind : Type 0 where
  leaf and_kind or_kind : Kind

mutual
  pub data RequirementNode : Type 0 where
    requirement :
        (requirement_id : String)
        → Kind
        → (name : String) → (pool : List String) → (need : ℕ) → (children : Nodes) → RequirementNode

  pub data Nodes : Type 0 where
    no_nodes : Nodes
    and_then : RequirementNode → Nodes → Nodes

pub record DegreeProgram : Type 0 where
  pub major : String
  pub track : Option String
  pub cohort : String
  pub root : RequirementNode

pub record UnsatisfiedRequirement : Type 0 where
  pub requirement_id : String
  pub name : String
  pub pool : List String
  pub need : ℕ
  pub already_satisfied_by : List String

-- A time of the day, as a number of its smallest unit.
pub record MeetingTime : Type 0 where
  pub days : List String
  pub start : ℕ
  pub end : ℕ

pub record CourseSection : Type 0 where
  pub course_code : String
  pub section : String
  pub term : String
  pub credits : ℕ
  pub instructor : String
  pub meetings : List MeetingTime
  pub prereqs : List String

-- `set(xs) & set(ys)` is not empty.
abbrev pub shares : List String → List String → Bool
shares xs ys = any (λ x. contains x ys) xs

abbrev pub overlaps : MeetingTime → MeetingTime → Bool
overlaps m n = if not (shares m.days n.days) then false else ltb m.start n.end && ltb n.start m.end

abbrev pub has_meeting_on_days : CourseSection → List String → Bool
has_meeting_on_days c excluded_days = any (λ m. shares m.days excluded_days) c.meetings
