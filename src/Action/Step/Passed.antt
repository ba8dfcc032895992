-- ===== src/Action/Step/Passed.antt =====
-- What an action step returns, against the verdict of the gate.
use mathlib.Core.Bool.{false≢true}
use realityai_agents.Prelude.{
  ◌∙◌, ℕ, String, ◌≡◌, refl, sym, ap, subst, ◌↔◌, inl, inr, ◌==◌, eq_iff, Bool, true, false, not,
  some, none, Option, [], ◌∷◌, arith, contains, Bool-cases, lookup, if_elim,
}
use realityai_agents.Python.{Args, Value, null, Py, ok, raise, truthy, get_or, put}
use realityai_agents.Inner.Schemas.{InnerSafetyDecision, allow, deny, InnerSafetyInput}
use realityai_agents.Inner.Node.{Outcome}
use realityai_agents.Action.Step.{
  Effects, Env, attempt, gate, after_gate, on_verdict, action_tools, run_action_step,
}
use realityai_agents.Action.Step.Gated.{
  Permitted, Permitted-allow_iff, Permitted-contains, gate_run, step_run, step_run-known,
}

abbrev pub denied_flag : Args → Bool
denied_flag raw = truthy (get_or raw "denied_by_inner_safety" null)

-- A result that is no denial.
abbrev pub passed : Py Args → Bool
passed (ok raw) = not (denied_flag raw)
passed (raise e) = false

lookup-put :
    (j k : String) (d : Args) (v : Value) → (k == j) ≡ false → lookup j (put d k v) ≡ lookup j d
lookup-put j k [] v other = rw other refl
lookup-put j k ((i, x) ∷ d) v other = elim (Bool-cases (i == k)) [
  | inl e ↦
      let apart : (i == j) ≡ false = subst (λ t. (t == j) ≡ false) (sym ((eq_iff i k).0 e)) other in
      rw (e, apart) refl
  | inr e ↦ rw (e, lookup-put j k d v other) refl
]

denied_flag-put : (raw : Args) (v : Value) → denied_flag (put raw "audit_id" v) ≡ denied_flag raw
denied_flag-put raw v =
    ap (λ (o : Option Value). truthy (elim o [ none ↦ null | some x ↦ x ]))
      (lookup-put "denied_by_inner_safety" "audit_id" raw v refl)

module _ (env : Env) (i : InnerSafetyInput) (w : Effects)
    (clean : (raw : Args)
      → env.invoke i.tool_name i.tool_args ≡ ok raw
      → denied_flag raw ≡ false) where
  attempt-clean :
      (r : Py Args)
      → r ≡ env.invoke i.tool_name i.tool_args
      → denied_flag (attempt env i.tool_name r).0 ≡ false
  unfolding attempt
  attempt-clean (ok raw) e = clean raw (sym e)
  attempt-clean (raise x) e = refl

  passed-gate_run_iff :
      (m : Py Outcome)
      → (passed (gate_run env i w m).0 ≡ true)
        ↔ ((o : Outcome) × (m ≡ ok o) × (o.0.final_decision ≡ allow))
  unfolding after_gate
  passed-gate_run_iff (raise e) = (λ h. cc, λ (o, p, q). cc)
  passed-gate_run_iff (ok (r, s)) = go r.final_decision refl
    where
      go :
          (d : InnerSafetyDecision)
          → r.final_decision ≡ d
          → (passed (on_verdict env d i.tool_name i.tool_args r s w).0 ≡ true) ↔ (
              (o : Outcome) × (◌≡◌ {A = Py Outcome} (ok (r, s)) (ok o))
              × (o.0.final_decision ≡ allow))
      go allow e = (
        λ h. ((r, s), refl, e),
        λ h. ap not (
            denied_flag-put (attempt env i.tool_name (env.invoke i.tool_name i.tool_args)).0 _
            ∙ attempt-clean (env.invoke i.tool_name i.tool_args) refl),
      )
      go deny e = (λ h. cc, λ (o, p, q). ground arith)

  passed-unknown :
      (step_id : ℕ)
      → contains i.tool_name action_tools ≡ false
      → passed (step_run env i w step_id).0 ≡ false
  unfolding run_action_step
  passed-unknown step_id unknown =
      if_elim (λ (r : Py Args × Effects). passed r.0 ≡ false) (i.tool_name == "") _ _ refl
        (rw unknown refl)

  -- Where the tool's own results carry no mark of a denial, a step's result passes for executed just
  -- when the action is permitted: also where the tool raised or reported that it failed.
  pub passed-run_action_step_iff :
      (step_id : ℕ) → (passed (step_run env i w step_id).0 ≡ true) ↔ Permitted env i
  passed-run_action_step_iff step_id = elim (Bool-cases (contains i.tool_name action_tools)) [
    | inl known ↦
        let (there, back) = passed-gate_run_iff (gate env i w.store) in
        let (to, from) = Permitted-allow_iff env i w in
        rw (step_run-known env i w step_id known) (λ h. to (there h), λ h. back (from h))
    | inr unknown ↦ (
      λ h. absurd (false≢true (sym (passed-unknown step_id unknown) ∙ h)),
      λ h. absurd (false≢true (sym unknown ∙ Permitted-contains env i w h)),
    )
  ]
