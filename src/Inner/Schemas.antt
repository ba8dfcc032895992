-- ===== src/Inner/Schemas.antt =====
-- agent-core/safety/inner/schemas.py. The latencies, which are measured, are left out.
use realityai_agents.Prelude.{String, Option, Bool, List}
use realityai_agents.Python.{Value, Args}
use realityai_agents.Outer.Schemas.{SessionContext}

pub data InnerSafetyDecision : Type 0 where
  allow deny : InnerSafetyDecision

pub data InnerLayerName : Type 0 where
  tool_authorization parameter_presence parameter_format live_state : InnerLayerName

pub record LayerResult : Type 0 where
  pub layer : InnerLayerName
  pub decision : InnerSafetyDecision
  pub reason_code : String
  pub reason_human : String
  pub metadata : List (String × Value)

pub record InnerSafetyInput : Type 0 where
  pub session : SessionContext
  pub tool_name : String
  pub tool_args : Args

pub record AuditRecord : Type 0 where
  pub audit_id : String
  pub timestamp_iso : String
  pub tool_name : String
  pub args_keys : List String
  pub user_id : String
  pub session_id : String
  pub user_role : String
  pub tenant_id : Option String
  pub decision : InnerSafetyDecision
  pub short_circuited_at : Option InnerLayerName
  pub final_reason_code : String
  pub execution_attempted : Bool
  pub execution_succeeded : Option Bool
  pub execution_error : Value

pub record InnerSafetyResult : Type 0 where
  pub final_decision : InnerSafetyDecision
  pub short_circuited_at : Option InnerLayerName
  pub layer_results : List LayerResult
  pub final_reason_code : String
  pub final_reason_human : String
  pub audit : AuditRecord

-- What a per-tool check of layer 4 returns: the tuple of its four parts.
pub record Verdict : Type 0 where
  pub decision : InnerSafetyDecision
  pub reason_code : String
  pub reason_human : String
  pub metadata : List (String × Value)

-- `_result` of the three layer modules: a layer's name beside its verdict.
abbrev pub layer_result : InnerLayerName → Verdict → LayerResult
layer_result name v = record {
  layer = name;
  decision = v.decision;
  reason_code = v.reason_code;
  reason_human = v.reason_human;
  metadata = v.metadata;
}

abbrev pub denied : String → String → List (String × Value) → Verdict
denied code human meta = record {
  decision = deny;
  reason_code = code;
  reason_human = human;
  metadata = meta;
}

abbrev pub allowed : String → List (String × Value) → Verdict
allowed code meta = record {
  decision = allow;
  reason_code = code;
  reason_human = "";
  metadata = meta;
}
