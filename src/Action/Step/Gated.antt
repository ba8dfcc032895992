-- ===== src/Action/Step/Gated.antt =====
-- An action step invokes its tool behind the gate only, and leaves one audit record.
use mathlib.Core.Bool.{false≢true}
use realityai_agents.Prelude.{
  ap, ◌∙◌, ℕ, ◌≡◌, refl, sym, subst, ◌↔◌, ◌⊎◌, inl, inr, ◌==◌, eq_iff, true, false, some, [], ◌∷◌,
  ◌++◌, arith, contains, Bool-cases,
}
use realityai_agents.Python.{Args, Py, ok, raise}
use realityai_agents.Inner.Schemas.{InnerSafetyDecision, allow, deny, InnerSafetyInput, AuditRecord}
use realityai_agents.Inner.Grants.{MayUse}
use realityai_agents.Inner.ParameterValidation.Fields.{ArgsPresent, FormOk}
use realityai_agents.Inner.LiveState.Preconditions.{WorldPermits}
use realityai_agents.Inner.Audit.{update_audit_for_execution, persist_audit_record}
use realityai_agents.Inner.Node.{Outcome}
use realityai_agents.Inner.Audit.Trail.{Logged, persist_audit_record-Logged}
use realityai_agents.Inner.Node.Gate.{
  Records, persists, inner_safety_check-Records, inner_safety_check-Logged,
}
use realityai_agents.Inner.Node.Verdict.{inner_safety_check-allow_iff}
use realityai_agents.Action.Step.{
  Effects, Env, gate, attempt, after_gate, on_verdict, action_tools, run_action_step,
}

-- The policy, the required arguments, their form and the state of the world all permit the action.
abbrev pub Permitted : Env → InnerSafetyInput → Type 0
Permitted env i =
    MayUse i.session.user_role i.tool_name
    × ArgsPresent i
    × FormOk env.rt i
    × WorldPermits env.read i

-- One audit record of the caller's request is put into the log, with the verdict and whether the tool
-- was invoked, unless the new id is taken.
abbrev pub OneRecord : Env → InnerSafetyInput → Effects → Effects → Type 0
OneRecord env i w w' =
    (r : AuditRecord) × Logged r w.store w'.store
    × (r.audit_id ≡ env.stamp.new_id)
    × (r.tool_name ≡ i.tool_name)
    × (r.user_id ≡ i.session.user_id)
    × (r.user_role ≡ i.session.user_role)
    × (((r.decision ≡ allow)
          × (r.execution_attempted ≡ true)
          × (w'.calls ≡ w.calls ++ (i.tool_name, i.tool_args) ∷ []))
        ⊎ ((r.decision ≡ deny) × (r.execution_attempted ≡ false) × (w'.calls ≡ w.calls)))

module _ (env : Env) (i : InnerSafetyInput) (w : Effects) where
  abbrev pub gate_run : Py Outcome → Py Args × Effects
  gate_run m = after_gate env i.tool_name i.tool_args m w

  pub Permitted-allow_iff :
      ((o : Outcome) × (gate env i w.store ≡ ok o) × (o.0.final_decision ≡ allow)) ↔ Permitted env i
  Permitted-allow_iff =
      inner_safety_check-allow_iff env.rt env.read env.timeout_text env.stamp i w.store

  after_gate-calls :
      (m : Py Outcome)
      → (((o : Outcome) × (m ≡ ok o) × (o.0.final_decision ≡ allow))
          × ((gate_run m).1.calls ≡ w.calls ++ (i.tool_name, i.tool_args) ∷ []))
        ⊎ ((¬ ((o : Outcome) × (m ≡ ok o) × (o.0.final_decision ≡ allow)))
            × ((gate_run m).1.calls ≡ w.calls))
  unfolding after_gate
  after_gate-calls (raise e) = inr (λ (o, p, q). cc, refl)
  after_gate-calls (ok (r, s)) = go r.final_decision refl
    where
      go :
          (d : InnerSafetyDecision)
          → r.final_decision ≡ d
          → (((o : Outcome) × (◌≡◌ {A = Py Outcome} (ok (r, s)) (ok o))
                × (o.0.final_decision ≡ allow))
              × ((on_verdict env d i.tool_name i.tool_args r s w).1.calls
                  ≡ w.calls ++ (i.tool_name, i.tool_args) ∷ []))
            ⊎ ((¬ (
                  (o : Outcome) × (◌≡◌ {A = Py Outcome} (ok (r, s)) (ok o))
                  × (o.0.final_decision ≡ allow)))
                × ((on_verdict env d i.tool_name i.tool_args r s w).1.calls ≡ w.calls))
      go allow e = inl (((r, s), refl, e), refl)
      go deny e = inr (λ (o, p, q). ground arith, refl)

  abbrev pub step_run : ℕ → Py Args × Effects
  step_run step_id = run_action_step env step_id i.tool_name (some i.tool_args) (some i.session) w

  not_blank : contains i.tool_name action_tools ≡ true → (i.tool_name == "") ≡ false
  not_blank known = elim (Bool-cases (i.tool_name == "")) [
    | inl blank ↦ absurd (false≢true (rw ((eq_iff i.tool_name "").0 blank) at known))
    | inr e ↦ e
  ]

  -- A step with a known tool goes on to the gate, and any other ends without effect.
  pub step_run-known :
      (step_id : ℕ)
      → contains i.tool_name action_tools ≡ true
      → step_run step_id ≡ gate_run (gate env i w.store)
  unfolding run_action_step
  step_run-known step_id known = rw (not_blank known, known)

  step_run-unknown :
      (step_id : ℕ) → contains i.tool_name action_tools ≡ false → (step_run step_id).1 ≡ w
  unfolding run_action_step
  step_run-unknown step_id unknown = ground arith

  pub Permitted-contains : Permitted env i → contains i.tool_name action_tools ≡ true
  Permitted-contains (inl (r, t), _, _, _) = rw t
  Permitted-contains (inr (r, inl t), _, _, _) = rw t
  Permitted-contains (inr (r, inr (inl t)), _, _, _) = rw t
  Permitted-contains (inr (r, inr (inr t)), _, _, _) = rw t

  -- An action step of a plan invokes its tool exactly when the action is permitted, and then once,
  -- with the step's own arguments; otherwise it invokes nothing.
  pub run_action_step-calls :
      (step_id : ℕ)
      → (Permitted env i
          × ((step_run step_id).1.calls ≡ w.calls ++ (i.tool_name, i.tool_args) ∷ []))
        ⊎ ((¬ Permitted env i) × ((step_run step_id).1.calls ≡ w.calls))
  run_action_step-calls step_id = elim (Bool-cases (contains i.tool_name action_tools)) [
    | inl known ↦ rw (step_run-known step_id known) (elim (after_gate-calls (gate env i w.store)) [
      | inl (h, e) ↦ inl (Permitted-allow_iff.0 h, e)
      | inr (h, e) ↦ inr (λ p. h (Permitted-allow_iff.1 p), e)
    ])
    | inr unknown ↦ inr (
      λ p. false≢true (sym unknown ∙ Permitted-contains p),
      ap (λ x. x.calls) (step_run-unknown step_id unknown),
    )
  ]

  after_gate-OneRecord :
      (m : Py Outcome) {raw : Args}
      → m ≡ gate env i w.store
      → (gate_run m).0 ≡ ok raw
      → OneRecord env i w (gate_run m).1
  unfolding after_gate update_audit_for_execution
  after_gate-OneRecord (raise e) g h = cc
  after_gate-OneRecord (ok (r, s)) g h = go r.final_decision refl
    where
      described :
          Records env.rt env.read env.timeout_text env.stamp i w.store r.layer_results r.audit
      described =
          inner_safety_check-Records env.rt env.read env.timeout_text env.stamp i w.store (sym g)

      verdict : r.audit.decision ≡ r.final_decision
      verdict = (persists env.rt env.read env.timeout_text env.stamp i w.store (sym g)).2

      logged :
          (r.final_decision ≡ deny → Logged r.audit w.store s)
          × (r.final_decision ≡ allow → s ≡ w.store)
      logged =
          let (denied, allowed) =
            inner_safety_check-Logged env.rt env.read env.timeout_text env.stamp i w.store
              (sym g) in
          (λ d. (denied d).2, allowed)

      executed : AuditRecord
      executed =
          let (raw, succeeded, error) =
            attempt env i.tool_name (env.invoke i.tool_name i.tool_args) in
          update_audit_for_execution r.audit succeeded error

      go :
          (d : InnerSafetyDecision)
          → r.final_decision ≡ d
          → OneRecord env i w (on_verdict env d i.tool_name i.tool_args r s w).1
      go allow e = (
        executed,
        subst (λ t. Logged executed w.store (persist_audit_record executed t)) (sym (logged.1 e))
            (persist_audit_record-Logged executed w.store),
        described.0,
        described.2,
        described.4,
        described.6,
        inl (verdict ∙ e, refl, refl),
      )
      go deny e = (
        r.audit,
        logged.0 e,
        described.0,
        described.2,
        described.4,
        described.6,
        inr (verdict ∙ e, described.8, refl),
      )

  -- A step that returns a result for a known tool leaves, under a new id that is not taken, exactly one
  -- record more in the audit log, of the caller and the tool: it says "allow" and "executed" if the
  -- tool was invoked, and "deny" and "not executed" if not. Under a taken id the store stays as it is.
  pub run_action_step-OneRecord :
      (step_id : ℕ) {raw : Args}
      → contains i.tool_name action_tools ≡ true
      → (step_run step_id).0 ≡ ok raw
      → OneRecord env i w (step_run step_id).1
  run_action_step-OneRecord step_id known h =
      let same = step_run-known step_id known in
      subst (λ x. OneRecord env i w x.1) (sym same)
        (after_gate-OneRecord (gate env i w.store) refl (sym (ap (λ x. x.0) same) ∙ h))
