-- ===== src/Outer/Node.antt =====
-- agent-core/safety/outer/node.py: the three tiers in sequence.
pub mod Verdict
use realityai_agents.Prelude.{String, Bool, true, false, Option, none, some, List, [], ◌∷◌}
use realityai_agents.Python.{Runtime, Py}
use realityai_agents.Outer.Schemas.{
  SafetyDecision, allow, deny, flag_for_review, TierResult, SessionContext, OuterSafetyInput,
  OuterSafetyResult,
}
use realityai_agents.Outer.Rbac.{check_rbac}
use realityai_agents.Outer.StaticRules.{Matching, check_static_rules}
use realityai_agents.Outer.InjectionGuard.{Scores, PromptGuardResult, check_injection}

-- What `_build_input` reads of the graph's state: the texts of the messages, and keys that may be
-- missing.
pub record GateState : Type 0 where
  pub messages : Option (List String)
  pub user_id : Option String
  pub session_id : Option String
  pub user_role : Option String
  pub intent : Option String

abbrev pub default_to : String → Option String → String
default_to d none = d
default_to d (some s) = s

abbrev pub messages_of : Option (List String) → List String
messages_of none = []
messages_of (some l) = l

-- `messages[-1]`, or the empty text, and `messages[:-1]`
abbrev pub last_text : List String → String
last_text [] = ""
last_text (m ∷ []) = m
last_text (m ∷ n ∷ ms) = last_text (n ∷ ms)

abbrev pub all_but_last : List String → List String
all_but_last [] = []
all_but_last (m ∷ []) = []
all_but_last (m ∷ n ∷ ms) = m ∷ all_but_last (n ∷ ms)

unfoldable pub build_input : GateState → OuterSafetyInput
build_input state =
    let messages = messages_of state.messages in
    record {
      session = record {
        user_id = default_to "" state.user_id;
        session_id = default_to "" state.session_id;
        user_role = default_to "student" state.user_role;
        tenant_id = none;
      };
      intent = default_to "" state.intent;
      user_query_raw = last_text messages;
      conversation_history = all_but_last messages;
    }

-- The state update: the result, and the older key `requires_approval`.
pub record GateUpdate : Type 0 where
  pub outer_safety_result : OuterSafetyResult
  pub requires_approval : Bool

abbrev is_flag : SafetyDecision → Bool
is_flag flag_for_review = true
is_flag _ = false

pub short_circuit : List TierResult → TierResult → GateUpdate
short_circuit results blocking = record {
  outer_safety_result = record {
    final_decision = blocking.decision;
    short_circuited_at = some blocking.tier;
    tier_results = results;
    final_reason_code = blocking.reason_code;
    final_reason_human = blocking.reason_human;
  };
  requires_approval = is_flag blocking.decision;
}

pub all_allowed : List TierResult → GateUpdate
all_allowed results = record {
  outer_safety_result = record {
    final_decision = allow;
    short_circuited_at = none;
    tier_results = results;
    final_reason_code = "all_tiers_passed";
    final_reason_human = "";
  };
  requires_approval = false;
}

abbrev pub by_decision : SafetyDecision → GateUpdate → GateUpdate → GateUpdate
by_decision allow rest stop = rest
by_decision _ rest stop = stop

-- `if r.decision != ALLOW: return _short_circuit(...)`
abbrev pub unless_blocked : List TierResult → TierResult → GateUpdate → GateUpdate
unless_blocked results r rest = by_decision r.decision rest (short_circuit results r)

module _ (rt : Runtime) (m : Matching) (fl : Scores)
    (classify : String → List String → Py (PromptGuardResult fl.Score)) where
  -- The three checks on the input that `_build_input` made.
  unfoldable pub check_tiers : String → OuterSafetyInput → GateUpdate
  unfolding short_circuit all_allowed
  check_tiers timeout_text i =
      let r1 = check_rbac i in
      unless_blocked (r1 ∷ []) r1
        let r2 = check_static_rules rt m i in
          unless_blocked (r1 ∷ r2 ∷ []) r2
            let r3 = check_injection rt fl classify timeout_text i in
              unless_blocked (r1 ∷ r2 ∷ r3 ∷ []) r3 (all_allowed (r1 ∷ r2 ∷ r3 ∷ []))

  unfoldable pub outer_safety_check : String → GateState → GateUpdate
  unfolding check_tiers build_input
  outer_safety_check timeout_text state = check_tiers timeout_text (build_input state)
