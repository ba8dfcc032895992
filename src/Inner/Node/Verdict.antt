-- ===== src/Inner/Node/Verdict.antt =====
-- What an action must satisfy to pass the whole gate.
use realityai_agents.Prelude.{String, ◌≡◌, refl, sym, subst, ◌↔◌, arith}
use realityai_agents.Python.{Runtime, Py, ok, raise, ◌>>=◌, ok_inj}
use realityai_agents.Inner.Schemas.{InnerSafetyDecision, allow, deny, LayerResult, InnerSafetyInput}
use realityai_agents.Inner.ToolAuthorization.{check_tool_authorization}
use realityai_agents.Inner.ParameterValidation.{check_parameter_presence, check_parameter_format}
use realityai_agents.Inner.ParameterValidation.Fields.{
  ArgsPresent, FormOk, FormatAllows, check_parameter_presence-allow_iff,
  check_parameter_format-allow_iff,
}
use realityai_agents.Inner.LiveState.{Read, check_live_state}
use realityai_agents.Inner.LiveState.Preconditions.{WorldPermits, check_live_state-allow_iff}
use realityai_agents.Inner.Grants.{MayUse, check_tool_authorization-allow_iff}
use realityai_agents.Inner.Audit.{Stamp, AuditStore}
use realityai_agents.Inner.Node.{Outcome, by_decision, inner_safety_check}

abbrev GateAllows : Py Outcome → Type 0
GateAllows m = (o : Outcome) × (m ≡ ok o) × (o.0.final_decision ≡ allow)

by_decision_iff :
    (d : InnerSafetyDecision) (rest : Py Outcome) (stop : Outcome)
    → stop.0.final_decision ≡ d
    → GateAllows (by_decision d rest stop) ↔ ((d ≡ allow) × GateAllows rest)
by_decision_iff allow rest stop e = (λ h. (refl, h), λ h. h.1)
by_decision_iff deny rest stop e = (λ (o, f, a). ground arith, λ h. cc)

bind_iff :
    (m : Py LayerResult) (f : LayerResult → Py Outcome)
    → GateAllows (m >>= f) ↔ ((r : LayerResult) × (m ≡ ok r) × GateAllows (f r))
bind_iff (ok r) f =
    (λ h. (r, refl, h), λ (s, e, h). subst (λ x. GateAllows (f x)) (sym (ok_inj e)) h)
bind_iff (raise x) f = (λ (o, e, a). cc, λ (s, e, h). cc)

module _ (rt : Runtime) (read : Read) (timeout_text : String) (stamp : Stamp) (i : InnerSafetyInput)
    (store : AuditStore) where
  abbrev gate : Py Outcome
  gate = inner_safety_check rt read timeout_text stamp i store

  abbrev LayersAllow : Type 0
  LayersAllow =
      ((check_tool_authorization i).decision ≡ allow)
      × ((check_parameter_presence rt i).decision ≡ allow)
      × FormatAllows rt i (check_parameter_format rt i)
      × ((check_live_state rt read timeout_text i).decision ≡ allow)

  gate-LayersAllow : GateAllows gate → LayersAllow
  unfolding inner_safety_check
  gate-LayersAllow h =
      let (a1, h1) = (by_decision_iff _ _ _ refl).0 h in
      let (a2, h2) = (by_decision_iff _ _ _ refl).0 h1 in
      let (r3, e3, h3) = (bind_iff (check_parameter_format rt i) _).0 h2 in
      let (a3, h4) = (by_decision_iff _ _ _ refl).0 h3 in
      let (a4, h5) = (by_decision_iff _ _ _ refl).0 h4 in (a1, a2, (r3, e3, a3), a4)

  LayersAllow-gate : LayersAllow → GateAllows gate
  unfolding inner_safety_check
  LayersAllow-gate (a1, a2, (r3, e3, a3), a4) = (by_decision_iff _ _ _ refl).1 (
    a1,
    (by_decision_iff _ _ _ refl).1 (
      a2,
      (bind_iff (check_parameter_format rt i) _).1 (
        r3,
        e3,
        (by_decision_iff _ _ _ refl).1 (a3, (by_decision_iff _ _ _ refl).1 (a4, (_, refl, refl))),
      ),
    ),
  )

  -- The gate returns a result that allows exactly when the caller's role may use the tool, every
  -- required argument is passed, the arguments have their form and the world as read permits the
  -- action.
  pub inner_safety_check-allow_iff :
      ((o : Outcome) × (inner_safety_check rt read timeout_text stamp i store ≡ ok o)
        × (o.0.final_decision ≡ allow))
      ↔ (MayUse i.session.user_role i.tool_name × ArgsPresent i × FormOk rt i × WorldPermits read i)
  inner_safety_check-allow_iff =
      let (f1, g1) = check_tool_authorization-allow_iff i in
      let (f2, g2) = check_parameter_presence-allow_iff rt i in
      let (f3, g3) = check_parameter_format-allow_iff rt i in
      let (f4, g4) = check_live_state-allow_iff rt read i timeout_text in
      (
        λ h. let (a1, a2, a3, a4) = gate-LayersAllow h in (f1 a1, f2 a2, f3 a3, f4 a4),
        λ (p1, p2, p3, p4). LayersAllow-gate (g1 p1, g2 p2, g3 p3, g4 p4),
      )
