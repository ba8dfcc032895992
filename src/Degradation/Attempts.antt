-- ===== src/Degradation/Attempts.antt =====
-- What the wrapper makes of the agent's two answers.
use realityai_agents.Prelude.{
  String, ◌≡◌, refl, ap, subst, ◌++◌, ◌↔◌, ◌⊎◌, inl, inr, arith, true, false, not, not_test, ◌&&◌,
  ℕ, zero, suc, none, some, List, [], ◌∷◌, All, any-All_iff, contains, is_empty, Option-cases,
}
use realityai_agents.Python.{timeout_error, Py, ok, raise}
use realityai_agents.Degradation.{
  Scanner, FailureResult, Call, AgentResult, Outcome, returned, timeout_failure, tool_names,
  refusal_patterns, response_of, calls_of, succeeded, detect_tool_error, detect_refusal,
  detect_hallucination, failure_of, execute_with_degradation, on_answer, on_result, attempts,
}

detect_tool_error-none_iff :
    (calls : List Call) → (detect_tool_error calls ≡ none) ↔ All (λ c. succeeded c ≡ true) calls
unfolding detect_tool_error
detect_tool_error-none_iff [] = (λ e. tt, λ e. refl)
detect_tool_error-none_iff (c ∷ cs) = ground (arith, detect_tool_error-none_iff cs)

module _ (scan : Scanner) where
  -- Every course that the text names is known, where any are.
  abbrev pub NamesKnown : String → List String → Type 0
  NamesKnown response [] = Unit
  NamesKnown response (i ∷ is) =
      All (λ id. contains id (i ∷ is) ≡ true) (scan.course_ids (scan.upper response))

  detect_hallucination-NamesKnown_iff :
      (response : String) (ids : List String)
      → ((not (is_empty ids) && detect_hallucination scan response ids) ≡ false)
        ↔ NamesKnown response ids
  unfolding detect_hallucination
  detect_hallucination-NamesKnown_iff response [] = (λ e. tt, λ e. refl)
  detect_hallucination-NamesKnown_iff response (i ∷ is) =
      any-All_iff (λ id. not_test (contains id (i ∷ is))) (scan.course_ids (scan.upper response))

module _ (scan : Scanner) (context_ids : List String) where
  -- No refusal, no unknown course, and no failed tool call.
  abbrev pub IsFine : AgentResult → Type 0
  IsFine r =
      All (λ p. scan.search p (scan.lower (response_of r.response)) ≡ false) refusal_patterns
      × NamesKnown scan (response_of r.response) context_ids
      × All (λ c. succeeded c ≡ true) (calls_of r.tool_calls)

  failure_of-none_iff : (r : AgentResult) → (failure_of scan context_ids r ≡ none) ↔ IsFine r
  unfolding failure_of detect_refusal
  failure_of-none_iff r = ground (
    arith,
    any-All_iff {p = λ p. scan.search p (scan.lower (response_of r.response))}
        {P = λ p. scan.search p (scan.lower (response_of r.response)) ≡ false}
        (λ p. (λ e. e, λ e. e)) refusal_patterns,
    detect_hallucination-NamesKnown_iff scan (response_of r.response) context_ids,
    detect_tool_error-none_iff (calls_of r.tool_calls),
  )

  failed-IsFine :
      (r : AgentResult) (f : FailureResult) → failure_of scan context_ids r ≡ some f → IsFine r → ⊥
  failed-IsFine r f failed fine = none_some ((failure_of-none_iff r).1 fine) failed
    where
      none_some : failure_of scan context_ids r ≡ none → failure_of scan context_ids r ≡ some f → ⊥
      none_some e k = cc

  -- An answer after which the wrapper goes on: the time ran out, or the result is not fine.
  abbrev pub IsFailed : Py AgentResult → Type 0
  IsFailed (raise (timeout_error t)) = Unit
  IsFailed (raise e) = ⊥
  IsFailed (ok r) = ¬ IsFine r

  abbrev pub IsAccepted : Py AgentResult → AgentResult → Type 0
  IsAccepted answer r = (answer ≡ ok r) × IsFine r

  -- What the wrapper notes of a failed answer.
  abbrev pub Explains : FailureResult → Py AgentResult → Type 0
  Explains f (raise (timeout_error t)) = f ≡ timeout_failure
  Explains f (raise e) = ⊥
  Explains f (ok r) = failure_of scan context_ids r ≡ some f

  module _ {W : Type 0} (agent : W → Py AgentResult × W) (agent_type user_query : String) where
    -- One of the next answers is the first that is no failure, and it is accepted.
    abbrev Returns : ℕ → W → AgentResult → Type 0
    Returns zero w r = ⊥
    Returns (suc left) w r =
        IsAccepted (agent w).0 r ⊎ (IsFailed (agent w).0 × Returns left (agent w).1 r)

    on_answer-returned_iff :
        (again : List FailureResult → List String → W → Py Outcome × W) (Later : Type 0)
        (answer : Py AgentResult) (w : W) (r : AgentResult)
        → ((errors : List FailureResult) (tools : List String)
            → ((again errors tools w).0 ≡ ok (returned r)) ↔ Later)
        → (errors : List FailureResult) (tools : List String)
        → ((on_answer scan context_ids agent agent_type user_query again errors tools answer w).0
            ≡ ok (returned r))
          ↔ (IsAccepted answer r ⊎ (IsFailed answer × Later))
    unfolding on_answer on_result
    on_answer-returned_iff again Later (raise (timeout_error t)) w r h errors tools =
        ground (arith, h (errors ++ timeout_failure ∷ []) tools)
    on_answer-returned_iff again Later (raise e) w r h errors tools = ground arith
    on_answer-returned_iff again Later (ok result) w r h errors tools =
        elim (Option-cases (failure_of scan context_ids result)) [
          | inl fine ↦ rw fine (
            λ e. inl (accepted (cc) ((failure_of-none_iff result).0 fine)),
            λ k. elim k [
              | inl (q, f) ↦ cc
              | inr (bad, l) ↦ absurd (bad ((failure_of-none_iff result).0 fine))
            ],
          )
          | inr (f, failed) ↦ rw failed (
            λ e. inr (
              failed-IsFine result f failed,
              (h (errors ++ f ∷ []) (tools ++ tool_names result)).0 e,
            ),
            λ k. elim k [
              | inl (q, fine) ↦ absurd (failed-IsFine result f failed (subst IsFine (same q) fine))
              | inr (bad, l) ↦ (h (errors ++ f ∷ []) (tools ++ tool_names result)).1 l
            ],
          )
        ]
      where
        same : ok result ≡ ok r → r ≡ result
        same q = cc

        accepted : result ≡ r → IsFine result → IsAccepted (ok result) r
        accepted q fine = (ap ok q, subst IsFine q fine)

    attempts-returned_iff :
        (left : ℕ) (w : W) (r : AgentResult) (errors : List FailureResult) (tools : List String)
        → ((attempts scan context_ids agent agent_type user_query left errors tools w).0
            ≡ ok (returned r))
          ↔ Returns left w r
    unfolding attempts
    attempts-returned_iff zero w r errors tools = (λ e. cc, λ k. absurd k)
    attempts-returned_iff (suc left) w r errors tools =
        on_answer-returned_iff (attempts scan context_ids agent agent_type user_query left)
          (Returns left (agent w).1 r) (agent w).0 (agent w).1 r
          (attempts-returned_iff left (agent w).1 r) errors tools

    -- The wrapper hands on exactly an agent's result in which it finds no fault (no refusal, no unknown
    -- course, no failed tool call): that of the first call, or that of the second, where the first
    -- call ran out of time or its result had a fault.
    pub execute_with_degradation-returned_iff :
        (w : W) (r : AgentResult)
        → ((execute_with_degradation scan context_ids agent agent_type user_query w).0
            ≡ ok (returned r))
          ↔ (IsAccepted (agent w).0 r ⊎ (IsFailed (agent w).0 × IsAccepted (agent (agent w).1).0 r))
    unfolding execute_with_degradation
    execute_with_degradation-returned_iff w r = (
      λ e. second ((attempts-returned_iff 2 w r [] []).0 e),
      λ k.
          (attempts-returned_iff 2 w r [] []).1
            (elim k [ inl a ↦ inl a | inr (f, a) ↦ inr (f, inl a) ]),
    )
      where
        second :
            Returns 2 w r
            → IsAccepted (agent w).0 r ⊎ (IsFailed (agent w).0 × IsAccepted (agent (agent w).1).0 r)
        second (inl a) = inl a
        second (inr (f, inl a)) = inr (f, a)
        second (inr (f, inr (g, none_left))) = absurd none_left
