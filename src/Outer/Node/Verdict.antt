-- ===== src/Outer/Node/Verdict.antt =====
-- The outer gate's verdict against its three tiers, and what a request that passes has passed.
use realityai_agents.Prelude.{String, true, false, ◌≡◌, ◌↔◌, arith, none, List, [], ◌∷◌, any}
use realityai_agents.Python.{Runtime, Py}
use realityai_agents.Outer.Schemas.{allow, flag_for_review, TierResult, OuterSafetyInput}
use realityai_agents.Outer.Rbac.{check_rbac}
use realityai_agents.Outer.Rbac.Grants.{IsKnownRole, IsCategory, check_rbac-policy}
use realityai_agents.Outer.StaticRules.{Matching, rules, check_static_rules}
use realityai_agents.Outer.StaticRules.Priority.{rule_matches, check_static_rules-priority}
use realityai_agents.Outer.InjectionGuard.{Scores, PromptGuardResult, check_injection}
use realityai_agents.Outer.InjectionGuard.Verdicts.{Answers, Suspects, check_injection-verdicts}
use realityai_agents.Outer.Node.{
  GateState, GateUpdate, build_input, check_tiers, outer_safety_check,
}

-- The checks in turn, up to and with the first that does not allow.
abbrev pub trial : List TierResult → List TierResult
trial [] = []
trial (r ∷ rs) = let rest = trial rs in elim r.decision [ allow ↦ r ∷ rest | _ ↦ r ∷ [] ]

module _ (rt : Runtime) (m : Matching) (fl : Scores)
    (classify : String → List String → Py (PromptGuardResult fl.Score)) (t : String)
    (state : GateState) where
  abbrev i : OuterSafetyInput
  i = build_input state

  abbrev out : GateUpdate
  out = outer_safety_check rt m fl classify t state

  -- The results that the gate reports are those of RBAC, the static rules and the classifier, in this
  -- order, up to the first that does not allow; approval is asked for exactly where the verdict is
  -- review, and the gate names a tier at which it stopped exactly where the verdict is not to allow.
  outer_safety_check-trial :
      (out.outer_safety_result.tier_results
        ≡ trial
            (check_rbac i ∷ check_static_rules rt m i ∷ check_injection rt fl classify t i ∷ []))
      × ((out.requires_approval ≡ true)
          ↔ (out.outer_safety_result.final_decision ≡ flag_for_review))
      × ((out.outer_safety_result.short_circuited_at ≡ none)
          ↔ (out.outer_safety_result.final_decision ≡ allow))
  unfolding outer_safety_check check_tiers
  outer_safety_check-trial = ground arith

  outer_safety_check-all : (out.outer_safety_result.final_decision ≡ allow) ↔ (
      ((check_rbac i).decision ≡ allow)
      × ((check_static_rules rt m i).decision ≡ allow)
      × ((check_injection rt fl classify t i).decision ≡ allow))
  unfolding outer_safety_check check_tiers
  outer_safety_check-all = ground arith

  -- The outer gate lets a request pass exactly where the caller is a student or an instructor with
  -- one of the three intents, no static rule matches, and the classifier answers with a score from 0
  -- to 1 and suspects an injection at neither threshold.
  pub outer_safety_check-allow_iff : (out.outer_safety_result.final_decision ≡ allow) ↔ (
      (IsKnownRole i.session.user_role × IsCategory i.intent)
      × (any (rule_matches rt m i) rules ≡ false)
      × ((r : PromptGuardResult fl.Score) × (Answers rt fl
              (classify i.user_query_raw i.conversation_history)
              r
            × ((¬ Suspects rt fl fl.deny_threshold r) × (¬ Suspects rt fl fl.flag_threshold r)))))
  outer_safety_check-allow_iff =
      let tier1 = (check_rbac-policy i).0 in
      let tier2 = (check_static_rules-priority rt m i).1 in
      let tier3 = (check_injection-verdicts rt fl classify t i).1 in
      (
        λ h. let (a, b, c) = outer_safety_check-all.0 h in (tier1.0 a, tier2.0 b, tier3.0 c),
        λ (a, b, c). outer_safety_check-all.1 (tier1.1 a, tier2.1 b, tier3.1 c),
      )
