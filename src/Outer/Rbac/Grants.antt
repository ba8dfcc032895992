-- ===== src/Outer/Rbac/Grants.antt =====
-- What tier 1 decides, against the policy that its matrix means.
use realityai_agents.Prelude.{Bool-cases, String, ◌≡◌, ◌↔◌, ◌⊎◌, inl, inr, ◌==◌, eq_iff, arith}
use realityai_agents.Outer.Schemas.{allow, deny, flag_for_review, OuterSafetyInput}
use realityai_agents.Outer.Rbac.{check_rbac}

abbrev pub IsKnownRole : String → Type 0
IsKnownRole role = (role ≡ "student") ⊎ (role ≡ "instructor")

abbrev pub IsCategory : String → Type 0
IsCategory intent = (intent ≡ "query") ⊎ (intent ≡ "planning") ⊎ (intent ≡ "action")

-- Tier 1 lets a request pass exactly for a student or an instructor with one of the three intents;
-- it denies exactly the unknown roles; it sends a known role with another intent to review.
pub check_rbac-policy :
    (i : OuterSafetyInput)
    → (((check_rbac i).decision ≡ allow) ↔ (IsKnownRole i.session.user_role × IsCategory i.intent))
      × (((check_rbac i).decision ≡ deny) ↔ (¬ IsKnownRole i.session.user_role))
      × (((check_rbac i).decision ≡ flag_for_review)
          ↔ (IsKnownRole i.session.user_role × (¬ IsCategory i.intent)))
unfolding check_rbac
check_rbac-policy i =
    let role = i.session.user_role in
    let intent = i.intent in
    elim (Bool-cases ("student" == role)) [
      | inl s ↦ rw s (
          ground (
            arith,
            eq_iff "student" role,
            eq_iff "query" intent,
            eq_iff "planning" intent,
            eq_iff "action" intent,
          ))
      | inr s ↦ elim (Bool-cases ("instructor" == role)) [
        | inl t ↦
            rw (s, t)
              (ground (
                arith,
                eq_iff "instructor" role,
                eq_iff "query" intent,
                eq_iff "planning" intent,
                eq_iff "action" intent,
              ))
        | inr t ↦ rw (s, t) (ground (arith, eq_iff "student" role, eq_iff "instructor" role))
      ]
    ]
