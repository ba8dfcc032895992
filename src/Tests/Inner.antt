-- ===== src/Tests/Inner.antt =====
-- The inner gate at concrete requests.
use text.Mathlib.TextLemmas.{nil-append, append-nil}
use text.Mathlib.TextPositions.{starts_with-append}
use realityai_agents.Prelude.{
  ◌≡◌, refl, ap, ◌∙◌, inl, true, false, Bool, String, ◌&&◌, none, [], ◌∷◌, starts_with, join, ◌+++◌,
}
use realityai_agents.Tests.Samples.{
  runtime, read, stamp, empty_store, enroll, enroll_with_list, grade_as_student,
}
use realityai_agents.Python.{ok, ◌>>=◌, Raises, strings, str_of}
use realityai_agents.OutputFilter.{Pattern, Split, rejoin, Matcher}
use realityai_agents.OutputFilter.Redacted.{
  is_word, IsRegex, contains-all, Redacted, inner_safety_check-Redacted,
}
use realityai_agents.Inner.Schemas.{allow, deny, AuditRecord}
use realityai_agents.Inner.Pattern.{match_pieces}
use realityai_agents.Inner.ToolAuthorization.{check_tool_authorization}
use realityai_agents.Inner.Grants.{MayUse}
use realityai_agents.Inner.ParameterValidation.{check_parameter_presence, check_parameter_format}
use realityai_agents.Inner.ParameterValidation.Fields.{
  ArgsPresent, FormOk, check_parameter_format-allow_iff,
}
use realityai_agents.Inner.ParameterValidation.Escape.{check_parameter_format-Raises_iff}
use realityai_agents.Inner.LiveState.{check_live_state, mock_read}
use realityai_agents.Inner.LiveState.Preconditions.{WorldPermits, check_live_state-allow_iff}
use realityai_agents.Inner.Audit.{build_audit_record, persist_audit_record}
use realityai_agents.Inner.Audit.Trail.{IsFaithful, Logged, persist_audit_record-IsFaithful}
use realityai_agents.Inner.Node.{Outcome, short_circuit, inner_safety_check}
use realityai_agents.Inner.Node.Gate.{
  trial, layers, inner_safety_check-trial, Records, inner_safety_check-Records,
  inner_safety_check-Logged,
}
use realityai_agents.Inner.Node.Verdict.{inner_safety_check-allow_iff}
use realityai_agents.Inner.Node.Total.{inner_safety_check-Raises_iff}

check_parameter_format-allow_iff_example : FormOk runtime enroll
unfolding check_parameter_format match_pieces str_of
check_parameter_format-allow_iff_example =
    (check_parameter_format-allow_iff runtime enroll).0 (_, refl, refl)

check_parameter_format-Raises_iff_example : Raises (check_parameter_format runtime enroll_with_list)
check_parameter_format-Raises_iff_example =
    (check_parameter_format-Raises_iff runtime enroll_with_list).1
      (refl, (strings ("add" ∷ []), refl, refl))

check_live_state-allow_iff_example : WorldPermits read enroll
unfolding check_live_state mock_read
check_live_state-allow_iff_example = (check_live_state-allow_iff runtime read enroll "1.0").0 refl

inner_safety_check-trial_example :
    (inner_safety_check runtime read "1.0" stamp enroll empty_store >>= λ o. ok o.0.layer_results)
    ≡ trial (layers runtime read "1.0" enroll)
inner_safety_check-trial_example =
    inner_safety_check-trial runtime read "1.0" stamp enroll empty_store

inner_safety_check-allow_iff_example :
    MayUse "student" "enrollment_modify"
    × ArgsPresent enroll
    × FormOk runtime enroll
    × WorldPermits read enroll
unfolding inner_safety_check check_tool_authorization check_parameter_presence
    check_parameter_format match_pieces str_of check_live_state mock_read
inner_safety_check-allow_iff_example =
    (inner_safety_check-allow_iff runtime read "1.0" stamp enroll empty_store).0 (_, refl, refl)

inner_safety_check-Raises_iff_example :
    Raises (inner_safety_check runtime read "1.0" stamp enroll_with_list empty_store)
inner_safety_check-Raises_iff_example =
    (inner_safety_check-Raises_iff runtime read "1.0" stamp enroll_with_list empty_store).1 (
      inl (refl, refl),
      (_, refl, (refl, (refl, (refl, tt)))),
      refl,
      (strings ("add" ∷ []), refl, refl),
    )

-- Of a denied request, the audit and the store.
abbrev denial : Outcome
denial =
    short_circuit stamp grade_as_student empty_store
      (check_tool_authorization grade_as_student ∷ []) (check_tool_authorization grade_as_student)

denied_run : inner_safety_check runtime read "1.0" stamp grade_as_student empty_store ≡ ok denial
unfolding inner_safety_check check_tool_authorization
denied_run = refl

inner_safety_check-Records_example :
    Records runtime read "1.0" stamp grade_as_student empty_store denial.0.layer_results
      denial.0.audit
inner_safety_check-Records_example =
    inner_safety_check-Records runtime read "1.0" stamp grade_as_student empty_store denied_run

inner_safety_check-Logged_example :
    (denial.0.final_decision ≡ deny
      → (denial.0.audit.audit_id ≡ "audit-1")
        × (denial.0.audit.decision ≡ deny)
        × Logged denial.0.audit empty_store denial.1)
    × (denial.0.final_decision ≡ allow → denial.1 ≡ empty_store)
inner_safety_check-Logged_example =
    inner_safety_check-Logged runtime read "1.0" stamp grade_as_student empty_store denied_run

abbrev first_record : AuditRecord
first_record = build_audit_record stamp enroll allow none "all_layers_passed"

empty_store-IsFaithful : IsFaithful empty_store
empty_store-IsFaithful = record { same = λ k. refl; once = tt }

persist_audit_record-IsFaithful_example : IsFaithful (persist_audit_record first_record empty_store)
persist_audit_record-IsFaithful_example =
    persist_audit_record-IsFaithful first_record empty_store empty_store-IsFaithful

-- Finds a text of lower-case letters in any alternative of words, and nothing else.
abbrev finds : Pattern → String → Bool
finds p t = starts_with p.source "\\b(?:" && is_word t

abbrev pieces_of : Bool → String → Split
pieces_of true t = (("", t) ∷ [], "")
pieces_of false t = ([], t)

pieces_of-rejoin : (b : Bool) (t : String) → rejoin (pieces_of b t).0 (pieces_of b t).1 ≡ t
pieces_of-rejoin true t = nil-append (t +++ "") ∙ append-nil t
pieces_of-rejoin false t = refl

abbrev word_matcher : Matcher
word_matcher = record {
  matches_in = λ p t. pieces_of (finds p t) t;
  matches_in-rejoin = λ p t. pieces_of-rejoin (finds p t) t;
  short_hash = λ t. t;
}

word_matcher-IsRegex : IsRegex word_matcher
word_matcher-IsRegex = record {
  words = λ terms t all_words known.
      ap (λ b. pieces_of b t)
        (ap (λ b. b && is_word t) (starts_with-append "\\b(?:" (join "|" terms +++ ")\\b"))
          ∙ contains-all t terms known all_words);
  markers = λ t word. refl;
  token = (
    (refl, tt),
    (
      (refl, tt),
      (
        (refl, (refl, tt)),
        (
          (refl, (refl, (refl, (refl, (refl, (refl, (refl, tt))))))),
          ((refl, (refl, (refl, (refl, (refl, (refl, (refl, (refl, (refl, tt))))))))), tt),
        ),
      ),
    ),
  );
}

inner_safety_check-Redacted_example : Redacted word_matcher denial.0.final_reason_code
inner_safety_check-Redacted_example =
    inner_safety_check-Redacted word_matcher word_matcher-IsRegex runtime read "1.0" stamp
      grade_as_student empty_store denied_run
