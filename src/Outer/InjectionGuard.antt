-- ===== src/Outer/InjectionGuard.antt =====
-- agent-core/safety/outer/injection_guard.py. The classifier's call under its timeout, and the
-- interpreter's floats, are parameters.
pub mod Verdicts
use realityai_agents.Prelude.{
  String, Bool, true, false, ◌&&◌, not, Option, none, some, List, [], ◌∷◌, if◌then◌else◌, ◌+++◌,
}
use realityai_agents.Python.{
  Runtime, Value, str, number, Exn, timeout_error, Py, ok, raise, exn_text,
}
use realityai_agents.Outer.Schemas.{
  SafetyDecision, allow, deny, flag_for_review, injection_guard, TierResult, OuterSafetyInput,
}

-- What `_score_well_formed` and the thresholds use of a client's score: `float(score)`, which may
-- raise TypeError or ValueError, the two comparisons of floats, and their constants. The OverflowError
-- of `float` on an integer beyond the floats, which `_score_well_formed` does not catch, is left out: a
-- score is not such an integer.
pub record Scores : Type 1 where
  pub Score : Type 0
  pub float : Score → Py Score
  pub float_eq : Score → Score → Bool
  pub float_le : Score → Score → Bool
  pub zero_score : Score
  pub one_score : Score
  pub deny_threshold : Score
  pub flag_threshold : Score
  pub score_text : Score → String

pub data PromptGuardLabel : Type 0 where
  benign injection : PromptGuardLabel

abbrev label_text : PromptGuardLabel → String
label_text benign = "benign"
label_text injection = "injection"

abbrev pub is_injection : PromptGuardLabel → Bool
is_injection benign = false
is_injection injection = true

pub record PromptGuardResult (S : Type 0) : Type 0 where
  pub label : PromptGuardLabel
  pub score : S
  pub detail : String

abbrev result : SafetyDecision → String → String → List (String × Value) → TierResult
result decision code human meta = record {
  tier = injection_guard;
  decision = decision;
  reason_code = code;
  reason_human = human;
  metadata = meta;
}

abbrev fallback_flag : String → String → List (String × Value) → TierResult
fallback_flag code human meta = result flag_for_review code human meta

-- The two `except` clauses of `check_injection`.
pub on_failure : Runtime → String → Exn → TierResult
on_failure rt timeout_text (timeout_error t) =
    fallback_flag "prompt_guard_timeout"
      ("Injection classifier timed out after " +++ (timeout_text +++ "s; routing to review."))
      (("failure_mode", str "timeout") ∷ [])
on_failure rt timeout_text e =
    fallback_flag "prompt_guard_exception" "Injection classifier call failed; routing to review."
      (("failure_mode", str "exception") ∷ ("error", str (exn_text rt e)) ∷ [])

module _ (rt : Runtime) (fl : Scores) where
  -- `_score_well_formed` on what `float(score)` gives.
  abbrev well_formed_float : Py fl.Score → Bool
  well_formed_float (ok s) =
      if not (fl.float_eq s s)
      then false
      else fl.float_le fl.zero_score s && fl.float_le s fl.one_score
  well_formed_float (raise e) = false

  abbrev pub score_well_formed : fl.Score → Bool
  score_well_formed s = well_formed_float (fl.float s)

  pub result_from_score : PromptGuardResult fl.Score → TierResult
  result_from_score r =
      let meta =
        ("score", number (fl.score_text r.score)) ∷ ("label", str (label_text r.label)) ∷ [] in
      let detailed =
        ("score", number (fl.score_text r.score))
        ∷ ("label", str (label_text r.label))
        ∷ ("detail", str r.detail)
        ∷ [] in
      if is_injection r.label && fl.float_le fl.deny_threshold r.score
      then result deny "prompt_guard_injection_high_confidence"
          "Request matches known prompt-injection patterns with high confidence." detailed
      else if is_injection r.label && fl.float_le fl.flag_threshold r.score
      then result flag_for_review "prompt_guard_injection_uncertain"
          "Request shows possible injection signal; routing to review." detailed
      else result allow "prompt_guard_benign" "" meta

  -- The `try` and what follows it, on the outcome of the call under `wait_for`.
  pub on_outcome : String → Py (PromptGuardResult fl.Score) → TierResult
  unfolding result_from_score on_failure
  on_outcome timeout_text (raise e) = on_failure rt timeout_text e
  on_outcome timeout_text (ok r) =
      if not (score_well_formed r.score)
      then fallback_flag "prompt_guard_malformed_result"
          "Injection classifier returned out-of-range score."
          (("failure_mode", str "malformed_score")
            ∷ ("raw_score", str (fl.score_text r.score))
            ∷ [])
      else result_from_score r

  module _ (classify : String → List String → Py (PromptGuardResult fl.Score)) where
    unfoldable pub check_injection : String → OuterSafetyInput → TierResult
    unfolding on_outcome
    check_injection timeout_text i =
        on_outcome timeout_text (classify i.user_query_raw i.conversation_history)
