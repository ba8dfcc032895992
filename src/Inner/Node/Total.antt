-- ===== src/Inner/Node/Total.antt =====
-- Whether the gate returns at all.
use realityai_agents.Prelude.{String, ◌≡◌, refl, ◌↔◌}
use realityai_agents.Python.{Runtime, Py, Raises, bind-Raises_iff, not-Raises-ok}
use realityai_agents.Inner.Schemas.{InnerSafetyDecision, allow, deny, InnerSafetyInput}
use realityai_agents.Inner.ParameterValidation.{check_parameter_format}
use realityai_agents.Inner.ParameterValidation.Fields.{
  ArgsPresent, check_parameter_presence-allow_iff,
}
use realityai_agents.Inner.ParameterValidation.Escape.{
  HasUnhashableAction, check_parameter_format-Raises_iff,
}
use realityai_agents.Inner.Grants.{MayUse, check_tool_authorization-allow_iff}
use realityai_agents.Inner.LiveState.{Read}
use realityai_agents.Inner.Audit.{Stamp, AuditStore}
use realityai_agents.Inner.Node.{Outcome, by_decision, inner_safety_check}

by_decision-Raises_iff :
    (d : InnerSafetyDecision) (rest : Py Outcome) (stop : Outcome)
    → Raises (by_decision d rest stop) ↔ ((d ≡ allow) × Raises rest)
by_decision-Raises_iff allow rest stop = (λ h. (refl, h), λ h. h.1)
by_decision-Raises_iff deny rest stop = (λ (x, e). cc, λ h. cc)

by_decision_total :
    (d : InnerSafetyDecision) (rest : Py Outcome) (stop : Outcome)
    → ¬ Raises rest
    → ¬ Raises (by_decision d rest stop)
by_decision_total d rest stop h r = h ((by_decision-Raises_iff d rest stop).0 r).1

module _ (rt : Runtime) (read : Read) (timeout_text : String) (stamp : Stamp) (i : InnerSafetyInput)
    (store : AuditStore) where
  -- The gate raises exactly when layers 1 and 2 pass an
  -- `enrollment_modify` whose `action` cannot be hashed, such as a list. In all other cases it
  -- returns a result.
  pub inner_safety_check-Raises_iff :
      Raises (inner_safety_check rt read timeout_text stamp i store) ↔ (
        MayUse i.session.user_role i.tool_name
        × ArgsPresent i
        × (i.tool_name ≡ "enrollment_modify")
        × HasUnhashableAction i)
  unfolding inner_safety_check
  inner_safety_check-Raises_iff =
      let (f1, g1) = check_tool_authorization-allow_iff i in
      let (f2, g2) = check_parameter_presence-allow_iff rt i in
      let (f3, g3) = check_parameter_format-Raises_iff rt i in
      let (f, g) =
        bind-Raises_iff (check_parameter_format rt i) _
          λ r3. by_decision_total _ _ _ (by_decision_total _ _ _ (not-Raises-ok _)) in
      (
        λ h.
            let (a1, h1) = (by_decision-Raises_iff _ _ _).0 h in
            let (a2, h2) = (by_decision-Raises_iff _ _ _).0 h1 in
            let (tool, action) = f3 (f h2) in (f1 a1, f2 a2, tool, action),
        λ (p1, p2, tool, action).
            (by_decision-Raises_iff _ _ _).1
              (g1 p1, (by_decision-Raises_iff _ _ _).1 (g2 p2, g (g3 (tool, action)))),
      )
