-- ===== src/Inner/Node/Gate.antt =====
-- The gate of Inner/Node.antt against a plain description of a short-circuiting sequence.
use realityai_agents.Prelude.{
  String, ◌≡◌, false, List, [], ◌∷◌, arith, Option, none, some, sorted, keys, ◌∙◌, subst, sym,
}
use realityai_agents.Python.{Runtime, Py, ok, ◌>>=◌}
use realityai_agents.Inner.Schemas.{allow, deny, LayerResult, InnerSafetyInput, AuditRecord}
use realityai_agents.Inner.ToolAuthorization.{check_tool_authorization}
use realityai_agents.Inner.ParameterValidation.{check_parameter_presence, check_parameter_format}
use realityai_agents.Inner.LiveState.{Read, check_live_state}
use realityai_agents.Inner.Audit.{Stamp, AuditStore, build_audit_record, persist_audit_record}
use realityai_agents.Inner.Audit.Trail.{Logged, persist_audit_record-Logged}
use realityai_agents.Inner.Node.{Outcome, inner_safety_check}

-- The checks in turn, up to and with the first that denies.
abbrev pub trial : List (Py LayerResult) → Py (List LayerResult)
trial [] = ok []
trial (m ∷ ms) =
    m >>= λ r. elim r.decision [ allow ↦ trial ms >>= λ rs. ok (r ∷ rs) | deny ↦ ok (r ∷ []) ]

-- The result that stopped the gate.
abbrev pub first_denied : List LayerResult → Option LayerResult
first_denied [] = none
first_denied (r ∷ rs) = elim r.decision [ allow ↦ first_denied rs | deny ↦ some r ]

abbrev pub IsVerdict : Option LayerResult → AuditRecord → Type 0
IsVerdict none r =
    (r.decision ≡ allow)
    × (r.short_circuited_at ≡ none)
    × (r.final_reason_code ≡ "all_layers_passed")
IsVerdict (some l) r =
    (r.decision ≡ deny)
    × (r.short_circuited_at ≡ some l.layer)
    × (r.final_reason_code ≡ l.reason_code)

module _ (rt : Runtime) (read : Read) (timeout_text : String) where
  -- The four layers, from cheap to dear.
  abbrev pub layers : InnerSafetyInput → List (Py LayerResult)
  layers i =
      ok (check_tool_authorization i)
      ∷ ok (check_parameter_presence rt i)
      ∷ check_parameter_format rt i
      ∷ ok (check_live_state rt read timeout_text i)
      ∷ []

  module _ (stamp : Stamp) (i : InnerSafetyInput) (store : AuditStore) where
    -- The layer results of the gate are those of the four layers run in turn up to the first denial;
    -- the gate raises exactly where that sequence does.
    pub inner_safety_check-trial :
        (inner_safety_check rt read timeout_text stamp i store >>= λ o. ok o.0.layer_results)
        ≡ trial (layers i)
    unfolding inner_safety_check
    inner_safety_check-trial = ground arith

    -- What the audit record says: who asked for which tool with which arguments, at what time, that
    -- nothing is executed, and the verdict. Where some layer has denied, that is a denial by that
    -- layer and for its reason, and otherwise an admission.
    abbrev pub Records : List LayerResult → AuditRecord → Type 0
    Records results r =
        (r.audit_id ≡ stamp.new_id)
        × (r.timestamp_iso ≡ stamp.now)
        × (r.tool_name ≡ i.tool_name)
        × (r.args_keys ≡ sorted (keys i.tool_args))
        × (r.user_id ≡ i.session.user_id)
        × (r.session_id ≡ i.session.session_id)
        × (r.user_role ≡ i.session.user_role)
        × (r.tenant_id ≡ i.session.tenant_id)
        × (r.execution_attempted ≡ false)
        × (r.execution_succeeded ≡ none)
        × IsVerdict (first_denied results) r

    -- Where the gate returns, its audit record describes the request and the verdict: the first layer
    -- that denied and its reason code, or that all layers have passed. It marks no execution.
    pub inner_safety_check-Records :
        {o : Outcome}
        → inner_safety_check rt read timeout_text stamp i store ≡ ok o
        → Records o.0.layer_results o.0.audit
    unfolding inner_safety_check build_audit_record
    inner_safety_check-Records h = ground arith

    pub persists :
        {o : Outcome}
        → inner_safety_check rt read timeout_text stamp i store ≡ ok o
        → (o.0.final_decision ≡ deny → o.1 ≡ persist_audit_record o.0.audit store)
          × (o.0.final_decision ≡ allow → o.1 ≡ store)
          × (o.0.audit.decision ≡ o.0.final_decision)
    unfolding inner_safety_check build_audit_record
    persists h = ground arith

    -- A denial is logged before the gate returns: under an id that is not taken, the log has one record
    -- more, the returned one, with the denial; under a taken one nothing changes. Where the gate
    -- allows, the store is untouched, so that the caller can persist the record with the outcome of
    -- the execution.
    pub inner_safety_check-Logged :
        {o : Outcome}
        → inner_safety_check rt read timeout_text stamp i store ≡ ok o
        → (o.0.final_decision ≡ deny
            → (o.0.audit.audit_id ≡ stamp.new_id)
              × (o.0.audit.decision ≡ deny)
              × Logged o.0.audit store o.1)
          × (o.0.final_decision ≡ allow → o.1 ≡ store)
    inner_safety_check-Logged {o} h =
        let (denied, allowed, same) = persists h in
        (
          λ d. (
            (inner_safety_check-Records h).0,
            same ∙ d,
            subst (Logged o.0.audit store) (sym (denied d))
                (persist_audit_record-Logged o.0.audit store),
          ),
          allowed,
        )
