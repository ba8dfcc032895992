-- ===== src/Outer/Schemas.antt =====
-- agent-core/safety/outer/schemas.py. The latencies, which are measured, are left out.
use realityai_agents.Prelude.{String, Option, List}
use realityai_agents.Python.{Value}

pub data SafetyDecision : Type 0 where
  allow deny flag_for_review : SafetyDecision

pub data TierName : Type 0 where
  rbac static_rules injection_guard : TierName

pub record TierResult : Type 0 where
  pub tier : TierName
  pub decision : SafetyDecision
  pub reason_code : String
  pub reason_human : String
  pub metadata : List (String × Value)

pub record SessionContext : Type 0 where
  pub user_id : String
  pub session_id : String
  pub user_role : String
  pub tenant_id : Option String

pub record OuterSafetyInput : Type 0 where
  pub session : SessionContext
  pub intent : String
  pub user_query_raw : String
  pub conversation_history : List String

pub record OuterSafetyResult : Type 0 where
  pub final_decision : SafetyDecision
  pub short_circuited_at : Option TierName
  pub tier_results : List TierResult
  pub final_reason_code : String
  pub final_reason_human : String
