-- ===== src/OutputFilter.antt =====
-- agent-core/safety/output_filter.py: the scrub of a response before it reaches the user.
-- A pattern is kept as its source. `re` and SHA-256 are parameters: `matches_in` is what
-- `Pattern.finditer` finds, as the pieces of the text in front of each match, the matches, and what is
-- left behind the last one; `Pattern.sub` puts the callback's answers between these pieces.
pub mod Scrub
pub mod Known
pub mod OuterCodes
pub mod InnerCodes
pub mod Redacted
use realityai_agents.Prelude.{
  ℕ, String, Bool, true, false, List, [], ◌∷◌, ◌++◌, ◌==◌, ◌≡◌, if◌then◌else◌, length, codes, ◌+++◌,
  join,
}

pub data OutputFinding : Type 0 where
  marker_leak reason_code threshold_name secret_pattern internal_architecture_term : OutputFinding

pub record OutputFilterFindingDetail : Type 0 where
  pub category : OutputFinding
  pub match_hash : String

pub record OutputFilterResult : Type 0 where
  pub findings : List OutputFilterFindingDetail
  pub redacted_text : String
  pub redactions_count : ℕ
  pub original_length : ℕ
  pub redacted_length : ℕ

abbrev pub redaction_token : String
redaction_token = "[REDACTED]"

pub record Pattern : Type 0 where
  pub source : String
  pub ignore_case : Bool

abbrev exact : String → Pattern
exact source = record { source = source; ignore_case = false }

abbrev any_case : String → Pattern
any_case source = record { source = source; ignore_case = true }

abbrev pub reason_code_terms : List String
reason_code_terms =
    "role_grants_action" ∷ "role_lacks_action_grant" ∷ "unknown_role" ∷ "unknown_intent_for_role"
    ∷ "prompt_injection_lexical" ∷ "sensitive_info_request" ∷ "bulk_modify_pattern_detected"
    ∷ "intent_action_lexical_mismatch" ∷ "bulk_query_other_users" ∷ "no_static_rule_matched"
    ∷ "prompt_guard_injection_high_confidence" ∷ "prompt_guard_injection_uncertain"
    ∷ "prompt_guard_benign" ∷ "prompt_guard_timeout" ∷ "prompt_guard_exception"
    ∷ "prompt_guard_malformed_result" ∷ "role_grants_tool" ∷ "role_lacks_tool_grant"
    ∷ "unknown_tool_for_role" ∷ "all_required_args_present" ∷ "missing_required_args"
    ∷ "unknown_tool_for_presence_check" ∷ "format_checks_passed" ∷ "invalid_arg_format"
    ∷ "enrollment_capacity_ok" ∷ "course_full" ∷ "enrollment_record_exists" ∷ "not_enrolled"
    ∷ "grade_window_closed" ∷ "student_not_enrolled" ∷ "grade_update_preconditions_met"
    ∷ "course_ownership_confirmed" ∷ "not_course_instructor" ∷ "live_state_timeout"
    ∷ "live_state_unavailable" ∷ "course_not_found" ∷ "unknown_tool_for_live_state"
    ∷ "student_can_only_self_modify_enrollment" ∷ "all_layers_passed" ∷ "all_tiers_passed" ∷ []

-- `re.escape` changes no term: they hold letters and `_` only.
abbrev reason_code_pattern : Pattern
reason_code_pattern = exact ("\\b(?:" +++ (join "|" reason_code_terms +++ ")\\b"))

abbrev pub registry : List (OutputFinding × List Pattern)
registry =
    (marker_leak, exact "\\[(?:BEGIN|END)-DATA:[0-9a-fA-F]+\\]" ∷ [])
    ∷ (reason_code, reason_code_pattern ∷ [])
    ∷ (
      threshold_name,
      exact
            "\\b(?:DENY_THRESHOLD|FLAG_THRESHOLD|CONFIDENCE_FALLBACK_THRESHOLD|MAX_HISTORY_TURNS|DEFAULT_TIMEOUT_S|NONCE_BYTES|HISTORY_DISCOUNT|HISTORY_TURNS|MAX_LENGTH)\\b"
          ∷ any_case "\\bconfidence\\s*[<>≤≥=]+\\s*0?\\.\\d+\\b"
          ∷ [],
    )
    ∷ (
      secret_pattern,
      exact "\\bsk-(?:ant-)?[A-Za-z0-9_-]{20,}\\b"
          ∷ exact "\\bxox[abposr]-[0-9A-Za-z-]{10,}\\b"
          ∷ exact "\\bghp_[A-Za-z0-9]{36}\\b"
          ∷ exact "\\bgithub_pat_[A-Za-z0-9_]{60,}\\b"
          ∷ exact "\\b(?:AKIA|ASIA)[0-9A-Z]{16}\\b"
          ∷ exact "\\bBearer\\s+[A-Za-z0-9._\\-]{30,}\\b"
          ∷ exact "\\beyJ[A-Za-z0-9_\\-]{10,}\\.[A-Za-z0-9_\\-]{10,}\\.[A-Za-z0-9_\\-]{10,}\\b"
          ∷ [],
    )
    ∷ (
      internal_architecture_term,
      any_case "\\bADR[-\\s]?\\d{3}(?:[-\\s]?D\\d+)?\\b"
          ∷ any_case "\\bD\\d+\\s+invariant\\b"
          ∷ exact "\\bPhase\\s+\\d+(?:\\.\\d+)?\\b"
          ∷ any_case "\\bspotlighting\\b"
          ∷ exact "\\bouter_safety_(?:check|node|result)\\b"
          ∷ exact "\\binner_safety_(?:check|node|result)\\b"
          ∷ exact "\\bsafety/(?:outer|inner)/[A-Za-z_/]*\\.py\\b"
          ∷ any_case "\\bTier\\s*[1-3]\\s+(?:RBAC|static|injection)\\b"
          ∷ any_case "\\bLayer\\s*[1-4]\\s+(?:tool|parameter|live)\\b"
          ∷ [],
    )
    ∷ []

abbrev pub Split : Type 0
Split = List (String × String) × String

-- The text that was split.
abbrev pub rejoin : List (String × String) → String → String
rejoin [] tail = tail
rejoin ((before, matched) ∷ rest) tail = before +++ (matched +++ rejoin rest tail)

pub record Matcher : Type 0 where
  pub matches_in : Pattern → String → Split
  pub matches_in-rejoin :
      (p : Pattern) (t : String) → rejoin (matches_in p t).0 (matches_in p t).1 ≡ t
  pub short_hash : String → String  -- the first 12 digits of the SHA-256 of a text

-- The text so far, and the list `findings` that the callbacks append to.
abbrev pub Scrubbed : Type 0
Scrubbed = String × List OutputFilterFindingDetail

module _ (m : Matcher) where
  abbrev pub detail : OutputFinding → String → OutputFilterFindingDetail
  detail category matched = record { category = category; match_hash = m.short_hash matched }

  -- The walk of `sub` over the matches, with the callback that `_make_redactor` makes.
  pub redact :
      OutputFinding → List (String × String) → String → List OutputFilterFindingDetail → Scrubbed
  redact category [] tail findings = (tail, findings)
  redact category ((before, matched) ∷ rest) tail findings =
      let (text, all) = redact category rest tail (findings ++ detail category matched ∷ []) in
      (before +++ (redaction_token +++ text), all)

  pub sub : OutputFinding → Pattern → Scrubbed → Scrubbed
  unfolding redact
  sub category p (text, findings) =
      let (pieces, tail) = m.matches_in p text in redact category pieces tail findings

  -- The two loops of `filter_response`.
  pub sub_patterns : OutputFinding → List Pattern → Scrubbed → Scrubbed
  unfolding sub
  sub_patterns category [] s = s
  sub_patterns category (p ∷ ps) s = sub_patterns category ps (sub category p s)

  pub sub_registry : List (OutputFinding × List Pattern) → Scrubbed → Scrubbed
  unfolding sub_patterns
  sub_registry [] s = s
  sub_registry ((category, ps) ∷ rest) s = sub_registry rest (sub_patterns category ps s)

  pub result_of : String → Scrubbed → OutputFilterResult
  result_of text (redacted, findings) = record {
    findings = findings;
    redacted_text = redacted;
    redactions_count = length findings;
    original_length = length (codes text);
    redacted_length = length (codes redacted);
  }

  -- `if not text: return ...`
  pub filter_unless_empty : (is_empty_text : Bool) → String → OutputFilterResult
  unfolding result_of sub_registry
  filter_unless_empty true text = record {
    findings = [];
    redacted_text = "";
    redactions_count = 0;
    original_length = 0;
    redacted_length = 0;
  }
  filter_unless_empty false text = result_of text (sub_registry registry (text, []))

  unfoldable pub filter_response : String → OutputFilterResult
  unfolding filter_unless_empty
  filter_response text = filter_unless_empty (text == "") text
