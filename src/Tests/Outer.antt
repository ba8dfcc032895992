-- ===== src/Tests/Outer.antt =====
-- The outer gate at concrete requests.
use realityai_agents.Prelude.{◌≡◌, refl, inl}
use realityai_agents.Tests.Samples.{runtime, matching, scores, classify, state_of, input_of}
use realityai_agents.Outer.Schemas.{allow, deny}
use realityai_agents.Outer.StaticRules.{check_static_rules, matches}
use realityai_agents.Outer.StaticRules.Priority.{check_static_rules-priority}
use realityai_agents.Outer.Node.{build_input, outer_safety_check}
use realityai_agents.Outer.Node.Verdict.{outer_safety_check-allow_iff}

-- The query "password" under the intent "query": a rule that denies matches.
check_static_rules-priority_example :
    (check_static_rules runtime matching (input_of "student" "password")).decision ≡ deny
unfolding matches
check_static_rules-priority_example =
    (check_static_rules-priority runtime matching (input_of "student" "password")).0.1 refl

outer_safety_check-allow_iff_example :
    (outer_safety_check runtime matching scores classify "1.0"
      (state_of "student" "what is CS101")).outer_safety_result.final_decision
    ≡ allow
unfolding matches build_input
outer_safety_check-allow_iff_example =
    (outer_safety_check-allow_iff runtime matching scores classify "1.0"
        (state_of "student" "what is CS101")).1
      ((inl refl, inl refl), refl, (_, ((refl, refl), (λ (a, b). cc, λ (a, b). cc))))
