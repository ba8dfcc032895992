-- ===== src/Inner/ToolAuthorization.antt =====
-- agent-core/safety/inner/tool_authorization.py, and the matrix of
-- agent-core/safety/inner/config/tool_auth_matrix.yaml as the module's start-up parses it.
use realityai_agents.Prelude.{
  String, Option, none, some, List, [], ◌∷◌, if◌then◌else◌, contains, lookup, ◌+++◌,
}
use realityai_agents.Python.{Value, str}
use realityai_agents.Inner.Schemas.{
  InnerSafetyInput, LayerResult, tool_authorization, layer_result, denied, allowed,
}

pub record RoleConfig : Type 0 where
  pub granted : List String
  pub denied : List String

abbrev all_tools : List String
all_tools = "grade_update" ∷ "enrollment_modify" ∷ "assignment_create" ∷ []

abbrev pub roles : List (String × RoleConfig)
roles =
    (
      "student",
      record {
        granted = "enrollment_modify" ∷ [];
        denied = "grade_update" ∷ "assignment_create" ∷ [];
      },
    )
    ∷ ("instructor", record { granted = all_tools; denied = [] })
    ∷ ("registrar", record { granted = all_tools; denied = [] })
    ∷ []

abbrev meta_of : InnerSafetyInput → List (String × Value)
meta_of i = ("role", str i.session.user_role) ∷ ("tool", str i.tool_name) ∷ []

pub check_config : InnerSafetyInput → Option RoleConfig → LayerResult
check_config i none = layer_result tool_authorization (
    denied "unknown_role"
      ("Role '" +++ (i.session.user_role +++ "' has no tool-authorization policy configured."))
      (meta_of i))
check_config i (some config) = layer_result tool_authorization (
    if contains i.tool_name config.granted
    then allowed "role_grants_tool" (meta_of i)
    else if contains i.tool_name config.denied
    then denied "role_lacks_tool_grant"
        ("Role '"
          +++ (i.session.user_role
              +++ ("' is not authorized to invoke tool '" +++ (i.tool_name +++ "'."))))
        (meta_of i)
    else denied "unknown_tool_for_role"
        ("Role '"
          +++ (i.session.user_role
              +++ ("' has no policy for tool '" +++ (i.tool_name +++ "'; denying."))))
        (meta_of i))

unfoldable pub check_tool_authorization : InnerSafetyInput → LayerResult
unfolding check_config
check_tool_authorization i = check_config i (lookup i.session.user_role roles)
