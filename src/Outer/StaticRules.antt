-- ===== src/Outer/StaticRules.antt =====
-- agent-core/safety/outer/static_rules.py, and the rules of
-- agent-core/safety/outer/config/static_rules.yaml as the module's start-up compiles them.
pub mod Priority
use realityai_agents.Prelude.{
  ℕ, String, Bool, true, false, ◌&&◌, not, Option, none, some, List, [], ◌∷◌, if◌then◌else◌, ◌==◌,
  any, is_empty, length,
}
use realityai_agents.Python.{Runtime, Value, str, num}
use realityai_agents.Outer.Schemas.{
  SafetyDecision, allow, deny, flag_for_review, static_rules, TierResult, OuterSafetyInput,
}

-- `_CompiledRule`. A pattern is kept as its source, and searched in every case.
pub record CompiledRule : Type 0 where
  pub id : String
  pub decision : SafetyDecision
  pub reason_code : String
  pub reason_human : String
  pub required_intent : Option String
  pub query_pattern : Option String
  pub query_keywords : List String

abbrev pub rules : List CompiledRule
rules =
    record {
      id = "prompt_injection_lexical";
      decision = deny;
      reason_code = "prompt_injection_lexical";
      reason_human = "Request contains lexical patterns associated with prompt injection.";
      required_intent = none;
      query_pattern =
          some
            "ignore (previous|above|all|prior)|disregard (previous|above|all)|system override|forget (all|previous|above)";
      query_keywords = [];
    }
    ∷ record {
      id = "sensitive_info_request";
      decision = deny;
      reason_code = "sensitive_info_request";
      reason_human = "Request appears to ask for sensitive personal information.";
      required_intent = none;
      query_pattern = none;
      query_keywords = "password" ∷ "ssn" ∷ "credit card" ∷ "social security" ∷ [];
    }
    ∷ record {
      id = "bulk_action_blocked";
      decision = deny;
      reason_code = "bulk_modify_pattern_detected";
      reason_human = "Bulk modifications must go through the registrar workflow, not the agent.";
      required_intent = some "action";
      query_pattern = none;
      query_keywords = "all students" ∷ "every student" ∷ "entire class" ∷ "bulk" ∷ [];
    }
    ∷ record {
      id = "intent_action_lexical_mismatch";
      decision = flag_for_review;
      reason_code = "intent_action_lexical_mismatch";
      reason_human =
          "Query was classified as read-only but contains action verbs; route to review before continuing.";
      required_intent = some "query";
      query_pattern = none;
      query_keywords = "update" ∷ "change" ∷ "delete" ∷ "modify" ∷ "enroll" ∷ [];
    }
    ∷ record {
      id = "bulk_query_other_users";
      decision = flag_for_review;
      reason_code = "bulk_query_other_users";
      reason_human = "Query references multiple users; review before disclosing data.";
      required_intent = some "query";
      query_pattern = none;
      query_keywords = "all students" ∷ "every student" ∷ "all users" ∷ "other students" ∷ [];
    }
    ∷ []

-- `search pattern text` is `re.search` in every case, `within part text` is `part in text`.
pub record Matching : Type 0 where
  pub search : String → String → Bool
  pub within : String → String → Bool

module _ (rt : Runtime) (m : Matching) where
  abbrev intent_fits : Option String → String → Bool
  intent_fits none intent = true
  intent_fits (some required) intent = required == intent

  abbrev pattern_fits : Option String → String → Bool
  pattern_fits none query = true
  pattern_fits (some pattern) query = m.search pattern query

  abbrev keywords_fit : List String → String → Bool
  keywords_fit [] query = true
  keywords_fit (kw ∷ kws) query = let q = rt.lower query in any (λ k. m.within k q) (kw ∷ kws)

  -- `_CompiledRule.matches`
  unfoldable pub matches : CompiledRule → String → String → Bool
  matches rule intent query =
      intent_fits rule.required_intent intent
      && (pattern_fits rule.query_pattern query && keywords_fit rule.query_keywords query)

  -- The loop of `check_static_rules`: `evaluated` is `len(_RULES)`.
  unfoldable pub first_match : ℕ → OuterSafetyInput → List CompiledRule → TierResult
  first_match evaluated i [] = record {
    tier = static_rules;
    decision = allow;
    reason_code = "no_static_rule_matched";
    reason_human = "";
    metadata = ("intent", str i.intent) ∷ ("rules_evaluated", num evaluated) ∷ [];
  }
  first_match evaluated i (rule ∷ rest) =
      let later = first_match evaluated i rest in
      if matches rule i.intent i.user_query_raw
      then record {
        tier = static_rules;
        decision = rule.decision;
        reason_code = rule.reason_code;
        reason_human = rule.reason_human;
        metadata = ("rule_id", str rule.id) ∷ ("intent", str i.intent) ∷ [];
      }
      else later

  unfoldable pub check_static_rules : OuterSafetyInput → TierResult
  unfolding first_match
  check_static_rules i = first_match (length rules) i rules
