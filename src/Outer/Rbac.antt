-- ===== src/Outer/Rbac.antt =====
-- agent-core/safety/outer/rbac.py, and the matrix of agent-core/safety/outer/config/rbac_matrix.yaml
-- as the module's start-up parses it.
pub mod Grants
use realityai_agents.Prelude.{
  String, Option, none, some, List, [], ◌∷◌, if◌then◌else◌, contains, lookup, ◌+++◌,
}
use realityai_agents.Python.{Value, str}
use realityai_agents.Outer.Schemas.{
  SafetyDecision, allow, deny, flag_for_review, rbac, TierResult, OuterSafetyInput,
}

pub record RoleConfig : Type 0 where
  pub granted : List String
  pub denied : List String

abbrev every_category : List String
every_category = "query" ∷ "planning" ∷ "action" ∷ []

abbrev pub roles : List (String × RoleConfig)
roles =
    ("student", record { granted = every_category; denied = [] })
    ∷ ("instructor", record { granted = every_category; denied = [] })
    ∷ []

abbrev result : OuterSafetyInput → SafetyDecision → String → String → TierResult
result i decision code human = record {
  tier = rbac;
  decision = decision;
  reason_code = code;
  reason_human = human;
  metadata = ("role", str i.session.user_role) ∷ ("intent", str i.intent) ∷ [];
}

-- The tests of `check_rbac` on the configuration of the caller's role.
pub check_config : OuterSafetyInput → Option RoleConfig → TierResult
check_config i none =
    result i deny "unknown_role"
      ("Role '" +++ (i.session.user_role +++ "' has no policy configured."))
check_config i (some config) =
    if contains i.intent config.granted
    then result i allow "role_grants_action" ""
    else if contains i.intent config.denied
    then result i deny "role_lacks_action_grant" (
        "Role '"
        +++ (i.session.user_role
            +++ ("' is not authorized for action category '" +++ (i.intent +++ "'."))))
    else result i flag_for_review "unknown_intent_for_role" (
        "Role '"
        +++ (i.session.user_role
            +++ ("' has no policy for intent '" +++ (i.intent +++ "'; routing to review."))))

unfoldable pub check_rbac : OuterSafetyInput → TierResult
unfolding check_config
check_rbac i = check_config i (lookup i.session.user_role roles)
