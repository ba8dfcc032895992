-- ===== src/Inner/Grants.antt =====
-- Who may invoke which tool: layer 1 against the policy that its matrix means.
use realityai_agents.Prelude.{
  Bool-cases, ne_of_test, refl, String, ◌≡◌, ◌↔◌, ◌⊎◌, inl, inr, ◌==◌, eq_iff, arith,
}
use realityai_agents.Inner.Schemas.{allow, InnerSafetyInput}
use realityai_agents.Inner.ToolAuthorization.{check_tool_authorization}

abbrev pub IsActionTool : String → Type 0
IsActionTool tool =
    (tool ≡ "grade_update") ⊎ (tool ≡ "enrollment_modify") ⊎ (tool ≡ "assignment_create")

-- Students may modify enrollments; instructors and registrars may use every action tool.
abbrev pub MayUse : String → String → Type 0
MayUse role tool =
    ((role ≡ "student") × (tool ≡ "enrollment_modify"))
    ⊎ (((role ≡ "instructor") ⊎ (role ≡ "registrar")) × IsActionTool tool)

module _ (role tool : String) where
  -- What `ground` needs to know of the texts: the tests decide equality, and the roles differ.
  student_only : role ≡ "student" → MayUse role tool → tool ≡ "enrollment_modify"
  student_only e m =
      ground (arith, ne_of_test "student" "instructor" refl, ne_of_test "student" "registrar" refl)

-- Layer 1 allows an action exactly when the caller's role may use the tool: a student only
-- `enrollment_modify`, an instructor or a registrar the three action tools, any other role nothing.
pub check_tool_authorization-allow_iff :
    (i : InnerSafetyInput)
    → ((check_tool_authorization i).decision ≡ allow) ↔ MayUse i.session.user_role i.tool_name
unfolding check_tool_authorization
check_tool_authorization-allow_iff i =
    let role = i.session.user_role in
    let tool = i.tool_name in
    elim (Bool-cases ("student" == role)) [
      | inl s ↦ rw s (
          ground
            (arith, eq_iff "student" role, eq_iff "enrollment_modify" tool, student_only role tool))
      | inr s ↦ elim (Bool-cases ("instructor" == role)) [
        | inl t ↦
            rw (s, t)
              (ground (
                arith,
                eq_iff "student" role,
                eq_iff "instructor" role,
                eq_iff "grade_update" tool,
                eq_iff "enrollment_modify" tool,
                eq_iff "assignment_create" tool,
              ))
        | inr t ↦ elim (Bool-cases ("registrar" == role)) [
          | inl u ↦
              rw (s, t, u)
                (ground (
                  arith,
                  eq_iff "student" role,
                  eq_iff "registrar" role,
                  eq_iff "grade_update" tool,
                  eq_iff "enrollment_modify" tool,
                  eq_iff "assignment_create" tool,
                ))
          | inr u ↦
              rw (s, t, u)
                (ground
                  (arith, eq_iff "student" role, eq_iff "instructor" role, eq_iff "registrar" role))
        ]
      ]
    ]
