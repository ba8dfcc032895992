-- ===== src/Inner/Node.antt =====
-- agent-core/safety/inner/node.py: the four layers in sequence, with the audit beside them.
pub mod Gate
pub mod Verdict
pub mod Total
use realityai_agents.Prelude.{String, none, some, List, [], ◌∷◌}
use realityai_agents.Python.{Runtime, Py, ok, raise, ◌>>=◌}
use realityai_agents.Inner.Schemas.{
  InnerSafetyDecision, allow, deny, LayerResult, InnerSafetyInput, InnerSafetyResult,
}
use realityai_agents.Inner.ToolAuthorization.{check_tool_authorization}
use realityai_agents.Inner.ParameterValidation.{check_parameter_presence, check_parameter_format}
use realityai_agents.Inner.LiveState.{Read, check_live_state}
use realityai_agents.Inner.Audit.{Stamp, AuditStore, build_audit_record, persist_audit_record}

-- The result of the gate and the audit store behind it.
abbrev pub Outcome : Type 0
Outcome = InnerSafetyResult × AuditStore

abbrev pub by_decision : InnerSafetyDecision → Py Outcome → Outcome → Py Outcome
by_decision allow rest stop = rest
by_decision deny rest stop = ok stop

module _ (stamp : Stamp) (i : InnerSafetyInput) (store : AuditStore) where
  pub short_circuit : List LayerResult → LayerResult → Outcome
  short_circuit results blocking =
      let audit =
        build_audit_record stamp i blocking.decision (some blocking.layer) blocking.reason_code in
      (
        record {
          final_decision = blocking.decision;
          short_circuited_at = some blocking.layer;
          layer_results = results;
          final_reason_code = blocking.reason_code;
          final_reason_human = blocking.reason_human;
          audit = audit;
        },
        persist_audit_record audit store,
      )

  pub all_allowed : List LayerResult → Outcome
  all_allowed results = (
    record {
      final_decision = allow;
      short_circuited_at = none;
      layer_results = results;
      final_reason_code = "all_layers_passed";
      final_reason_human = "";
      audit = build_audit_record stamp i allow none "all_layers_passed";
    },
    store,
  )

  -- `if r.decision != ALLOW: return _short_circuit(...)`
  abbrev pub unless_denied : List LayerResult → LayerResult → Py Outcome → Py Outcome
  unless_denied results r rest = by_decision r.decision rest (short_circuit results r)

module _ (rt : Runtime) (read : Read) (timeout_text : String) where
  unfoldable pub inner_safety_check : Stamp → InnerSafetyInput → AuditStore → Py Outcome
  unfolding short_circuit all_allowed
  inner_safety_check stamp i store =
      let r1 = check_tool_authorization i in
      unless_denied stamp i store (r1 ∷ []) r1
        let r2 = check_parameter_presence rt i in
          unless_denied stamp i store (r1 ∷ r2 ∷ []) r2 (do
            r3 ← check_parameter_format rt i
            unless_denied stamp i store (r1 ∷ r2 ∷ r3 ∷ []) r3
                let r4 = check_live_state rt read timeout_text i in
                  unless_denied stamp i store (r1 ∷ r2 ∷ r3 ∷ r4 ∷ []) r4
                    (ok (all_allowed stamp i store (r1 ∷ r2 ∷ r3 ∷ r4 ∷ []))))
