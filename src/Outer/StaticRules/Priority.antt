-- ===== src/Outer/StaticRules/Priority.antt =====
-- The order of the static rules: a denial before a review, whichever rules match.
use realityai_agents.Prelude.{Bool, true, false, ◌&&◌, ◌≡◌, ◌↔◌, arith, any}
use realityai_agents.Python.{Runtime}
use realityai_agents.Outer.Schemas.{SafetyDecision, allow, deny, OuterSafetyInput}
use realityai_agents.Outer.StaticRules.{
  Matching, CompiledRule, rules, matches, first_match, check_static_rules,
}

abbrev pub is_deny : SafetyDecision → Bool
is_deny deny = true
is_deny _ = false

module _ (rt : Runtime) (m : Matching) (i : OuterSafetyInput) where
  abbrev pub rule_matches : CompiledRule → Bool
  rule_matches rule = matches rt m rule i.intent i.user_query_raw

  -- Tier 2 denies a request exactly where some rule that denies matches it, whatever else matches;
  -- it lets the request pass exactly where no rule matches.
  pub check_static_rules-priority :
      (((check_static_rules rt m i).decision ≡ deny)
        ↔ (any (λ rule. is_deny rule.decision && rule_matches rule) rules ≡ true))
      × (((check_static_rules rt m i).decision ≡ allow) ↔ (any rule_matches rules ≡ false))
  unfolding check_static_rules first_match
  check_static_rules-priority = ground arith
