-- ===== src/OutputFilter/OuterCodes.antt =====
-- The codes of the outer gate, against the output filter's list of them.
use realityai_agents.Prelude.{
  ℕ, ◌&&◌, not, if_elim, String, refl, Option, none, some, List, [], ◌∷◌, arith, contains, lookup,
  All,
}
use realityai_agents.Python.{Runtime, Py, ok, raise, Exn, timeout_error}
use realityai_agents.OutputFilter.Known.{IsKnown, known}
use realityai_agents.Outer.Schemas.{OuterSafetyInput, TierResult}
use realityai_agents.Outer.Rbac.{check_rbac, check_config, RoleConfig, roles}
use realityai_agents.Outer.StaticRules.{
  Matching, CompiledRule, rules, first_match, matches, check_static_rules,
}
use realityai_agents.Outer.InjectionGuard.{
  Scores, PromptGuardResult, score_well_formed, is_injection, check_injection, on_failure,
  on_outcome,
}
use realityai_agents.Outer.Node.{
  GateState, GateUpdate, unless_blocked, all_allowed, build_input, outer_safety_check,
}

abbrev TierKnown : TierResult → Type 0
TierKnown r = IsKnown r.reason_code

rbac-IsKnown : (i : OuterSafetyInput) → TierKnown (check_rbac i)
unfolding check_rbac
rbac-IsKnown i = go (lookup i.session.user_role roles)
  where
    go : (o : Option RoleConfig) → TierKnown (check_config i o)
    go none = known "unknown_role" refl
    go (some config) =
        if_elim TierKnown (contains i.intent config.granted) _ _ (known "role_grants_action" refl) (
          if_elim TierKnown (contains i.intent config.denied) _ _
            (known "role_lacks_action_grant" refl) (known "unknown_intent_for_role" refl))

module _ (rt : Runtime) (m : Matching) (i : OuterSafetyInput) where
  first_match-IsKnown :
      (n : ℕ) (rs : List CompiledRule)
      → All (λ r. IsKnown r.reason_code) rs
      → TierKnown (first_match rt m n i rs)
  unfolding first_match
  first_match-IsKnown n [] listed = known "no_static_rule_matched" refl
  first_match-IsKnown n (r ∷ rs) (this, rest) =
      if_elim TierKnown (matches rt m r i.intent i.user_query_raw) _ _ this
        (first_match-IsKnown n rs rest)

  static_rules-IsKnown : TierKnown (check_static_rules rt m i)
  unfolding check_static_rules
  static_rules-IsKnown = first_match-IsKnown 5 rules (
    known "prompt_injection_lexical" refl,
    (
      known "sensitive_info_request" refl,
      (
        known "bulk_modify_pattern_detected" refl,
        (known "intent_action_lexical_mismatch" refl, (known "bulk_query_other_users" refl, tt)),
      ),
    ),
  )

module _ (rt : Runtime) (fl : Scores) (t : String) where
  on_failure-IsKnown : (e : Exn) → TierKnown (on_failure rt t e)
  unfolding check_injection
  on_failure-IsKnown (timeout_error e) = known "prompt_guard_timeout" refl
  on_failure-IsKnown e = known "prompt_guard_exception" refl

  on_outcome-IsKnown : (o : Py (PromptGuardResult fl.Score)) → TierKnown (on_outcome rt fl t o)
  unfolding check_injection
  on_outcome-IsKnown (raise e) = on_failure-IsKnown e
  on_outcome-IsKnown (ok r) =
      if_elim TierKnown (not (score_well_formed rt fl r.score)) _ _
        (known "prompt_guard_malformed_result" refl)
        (if_elim TierKnown (is_injection r.label && fl.float_le fl.deny_threshold r.score) _ _
          (known "prompt_guard_injection_high_confidence" refl)
          (if_elim TierKnown (is_injection r.label && fl.float_le fl.flag_threshold r.score) _ _
            (known "prompt_guard_injection_uncertain" refl) (known "prompt_guard_benign" refl)))

module _ (rt : Runtime) (m : Matching) (fl : Scores)
    (classify : String → List String → Py (PromptGuardResult fl.Score)) (t : String) where
  injection-IsKnown : (i : OuterSafetyInput) → TierKnown (check_injection rt fl classify t i)
  unfolding check_injection
  injection-IsKnown i =
      on_outcome-IsKnown rt fl t (classify i.user_query_raw i.conversation_history)

  abbrev UpdateKnown : GateUpdate → Type 0
  UpdateKnown u = IsKnown u.outer_safety_result.final_reason_code

  step-IsKnown :
      (results : List TierResult) (r : TierResult) (rest : GateUpdate)
      → TierKnown r
      → UpdateKnown rest
      → UpdateKnown (unless_blocked results r rest)
  unfolding outer_safety_check
  step-IsKnown results r rest h k = ground arith

  -- Every reason code with which the outer gate can end is in the output filter's list.
  outer_safety_check-IsKnown :
      (state : GateState)
      → IsKnown (outer_safety_check rt m fl classify t state).outer_safety_result.final_reason_code
  unfolding outer_safety_check
  outer_safety_check-IsKnown state =
      let i = build_input state in
      let r1 = check_rbac i in
      let r2 = check_static_rules rt m i in
      let r3 = check_injection rt fl classify t i in
      let passed = all_allowed (r1 ∷ r2 ∷ r3 ∷ []) in
      let third = unless_blocked (r1 ∷ r2 ∷ r3 ∷ []) r3 passed in
      let second = unless_blocked (r1 ∷ r2 ∷ []) r2 third in
      step-IsKnown (r1 ∷ []) r1 second (rbac-IsKnown i) (
        step-IsKnown (r1 ∷ r2 ∷ []) r2 third (static_rules-IsKnown rt m i) (
          step-IsKnown (r1 ∷ r2 ∷ r3 ∷ []) r3 passed (injection-IsKnown i)
            (known "all_tiers_passed" refl)))
