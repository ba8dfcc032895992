-- ===== src/Reasoning/GapAnalysis.antt =====
-- agent-core/reasoning/gap_analysis.py. The list `out`, which the walk appends to, is passed along.
pub mod Leaves
use realityai_agents.Prelude.{
  ℕ, String, Bool, true, false, not, ◌-◌, List, [], ◌∷◌, ◌++◌, ◌==◌, if◌then◌else◌, leb, length,
  contains, keep, all, any,
}
use realityai_agents.Reasoning.Schemas.{
  TranscriptEntry, StudentTranscript, Kind, leaf, and_kind, or_kind, RequirementNode, requirement,
  Nodes, no_nodes, and_then, DegreeProgram, UnsatisfiedRequirement,
}

-- `StudentTranscript.completed`: a set, as a list whose order the walk does not look at.
abbrev pub passed_codes : List TranscriptEntry → List String
passed_codes [] = []
passed_codes (e ∷ es) =
    let rest = passed_codes es in if e.is_passed then e.course_code ∷ rest else rest

abbrev pub completed_of : StudentTranscript → List String
completed_of transcript = passed_codes transcript.entries

module _ (completed : List String) where
  abbrev pub already_of : List String → List String
  already_of pool = keep (λ c. contains c completed) pool

  abbrev pub report : String → String → List String → ℕ → UnsatisfiedRequirement
  report id name pool need = record {
    requirement_id = id;
    name = if name == "" then id else name;
    pool = pool;
    need = need - length (already_of pool);
    already_satisfied_by = already_of pool;
  }

  unfoldable mutual
    pub walk :
        Bool → RequirementNode → List UnsatisfiedRequirement → Bool × List UnsatisfiedRequirement
    walk parent_satisfied (requirement id leaf name pool need children) out =
        if leb need (length (already_of pool))
        then (true, out)
        else (false, (if not parent_satisfied then out ++ report id name pool need ∷ [] else out))
    walk parent_satisfied (requirement id and_kind name pool need children) out =
        let (child_results, out') = walk_all parent_satisfied children out in
        (all (λ r. r) child_results, out')
    walk parent_satisfied (requirement id or_kind name pool need children) out =
        let (child_results, out') = walk_all parent_satisfied children out in
        (any (λ r. r) child_results, out')

    pub walk_all :
        Bool → Nodes → List UnsatisfiedRequirement → List Bool × List UnsatisfiedRequirement
    walk_all parent_satisfied no_nodes out = ([], out)
    walk_all parent_satisfied (and_then node nodes) out =
        let (r, out') = walk parent_satisfied node out in
        let (rs, out'') = walk_all parent_satisfied nodes out' in (r ∷ rs, out'')

unfoldable pub compute_unsatisfied : DegreeProgram → StudentTranscript → List UnsatisfiedRequirement
unfolding walk
compute_unsatisfied program transcript = (walk (completed_of transcript) false program.root []).1
