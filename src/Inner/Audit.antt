-- ===== src/Inner/Audit.antt =====
-- agent-core/safety/inner/audit.py. The module's set of persisted ids and the log that it writes are
-- the store; the new id and the time, which the program draws, come in as a stamp.
pub mod Trail
use realityai_agents.Prelude.{
  String, Bool, true, false, Option, none, some, List, [], ◌∷◌, ◌++◌, if◌then◌else◌, contains, keys,
  sorted,
}
use realityai_agents.Python.{Value, null}
use realityai_agents.Inner.Schemas.{
  InnerSafetyDecision, InnerLayerName, InnerSafetyInput, AuditRecord,
}

pub record Stamp : Type 0 where
  pub new_id : String
  pub now : String

pub record AuditStore : Type 0 where
  pub persisted_ids : List String
  pub log : List AuditRecord

unfoldable pub build_audit_record :
    Stamp → InnerSafetyInput → InnerSafetyDecision → Option InnerLayerName → String → AuditRecord
build_audit_record stamp i decision at code = record {
  audit_id = stamp.new_id;
  timestamp_iso = stamp.now;
  tool_name = i.tool_name;
  args_keys = sorted (keys i.tool_args);
  user_id = i.session.user_id;
  session_id = i.session.session_id;
  user_role = i.session.user_role;
  tenant_id = i.session.tenant_id;
  decision = decision;
  short_circuited_at = at;
  final_reason_code = code;
  execution_attempted = false;
  execution_succeeded = none;
  execution_error = null;
}

unfoldable pub update_audit_for_execution : AuditRecord → Bool → Value → AuditRecord
update_audit_for_execution r succeeded error = record r {
  execution_attempted = true;
  execution_succeeded = some succeeded;
  execution_error = error;
}

unfoldable pub persist_audit_record : AuditRecord → AuditStore → AuditStore
persist_audit_record r s =
    if contains r.audit_id s.persisted_ids
    then s
    else (record { persisted_ids = r.audit_id ∷ s.persisted_ids; log = s.log ++ r ∷ [] })
