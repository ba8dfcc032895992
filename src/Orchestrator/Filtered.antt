-- ===== src/Orchestrator/Filtered.antt =====
-- What a call returns to the user has gone through the output filter, on every path.
use realityai_agents.Prelude.{
  String, ◌≡◌, refl, sym, ap, ◌⊎◌, inl, inr, ◌==◌, eq_iff, arith, Option, none, some, Bool, true,
  false, ltb, Bool-cases, not_ltb→le,
}
use realityai_agents.Python.{Py, ok, raise, Py-cases, truthy}
use realityai_agents.Outer.Schemas.{SafetyDecision, allow, deny, flag_for_review, OuterSafetyResult}
use realityai_agents.OutputFilter.{OutputFilterResult, filter_response}
use realityai_agents.OutputFilter.Scrub.{filter_response_unchanged}
use realityai_agents.Orchestrator.{
  GraphEnv, Answer, no_answer, answer, not_a_dict, Stop, finished, paused, failed, limit_hit, S,
  generate_response, output_filter_node, merge_filter, resolve_node, execute_agent, ainvoke, resume,
}
use realityai_agents.Orchestrator.Handle.{
  judged, deliver, serve, handle, after_agent, by_verdict, by_decision, ainvoke-handle, by_answer,
  by_choice, resume-by_answer,
}

module _ {C W : Type 0} (env : GraphEnv C W) where
  -- The response is empty, or it is what the filter leaves of a text, with the filter's findings on it.
  abbrev pub IsFiltered : S env → Type 0
  IsFiltered s =
      (s.response ≡ some "")
      ⊎ ((raw : String) × (s.response ≡ some (filter_response env.matcher raw).redacted_text)
          × (s.output_filter_result ≡ some (filter_response env.matcher raw)))

  -- A call that ends at `END` hands such a response out, and no call ends at the recursion limit.
  abbrev pub Delivers : Stop env → Type 0
  Delivers (finished s w) = IsFiltered s
  Delivers (paused s w) = Unit
  Delivers (failed e w) = Unit
  Delivers (limit_hit w) = ⊥

  abbrev scrubbed : String → OutputFilterResult
  scrubbed raw = filter_response env.matcher raw

  merged-IsFiltered :
      (s : S env) (raw : String)
      → IsFiltered (merge_filter env (record s { response = some raw }) (scrubbed raw))
  merged-IsFiltered s raw = elim (Bool-cases (ltb 0 (scrubbed raw).redactions_count)) [
    | inl changed ↦ rw changed (inr (raw, refl, refl))
    | inr unchanged ↦
        let none_found : (scrubbed raw).redactions_count ≡ 0 =
          omega (arith, not_ltb→le 0 (scrubbed raw).redactions_count unchanged) in
        rw unchanged
          (inr (raw, ap some (sym (filter_response_unchanged env.matcher raw none_found)), refl))
  ]

  filter-IsFiltered :
      (s : S env) (raw : String)
      → IsFiltered (output_filter_node env (record s { response = some raw }))
  unfolding output_filter_node
  filter-IsFiltered s raw = elim (Bool-cases (raw == "")) [
    | inl empty ↦ rw empty (inl (ap some ((eq_iff raw "").0 empty)))
    | inr some_text ↦ rw some_text (merged-IsFiltered s raw)
  ]

  deliver-IsFiltered : (s : S env) (w : W) → Delivers (deliver env s w)
  unfolding deliver generate_response
  deliver-IsFiltered s w = filter-IsFiltered s _

  after_agent-Delivers : (r : Py (S env) × W) → Delivers (after_agent env r)
  after_agent-Delivers (ok s, w) = deliver-IsFiltered s w
  after_agent-Delivers (raise e, w) = tt

  serve-Delivers : (s : S env) (w : W) → Delivers (serve env s w)
  unfolding serve
  serve-Delivers s w = elim (Py-cases (resolve_node env s)) [
    | inl (s', e) ↦ rw (e, serve) (after_agent-Delivers (execute_agent env s' w))
    | inr (x, e) ↦ rw (e, serve) tt
  ]

  by_decision-Delivers : (d : SafetyDecision) (s : S env) (w : W) → Delivers (by_decision env d s w)
  by_decision-Delivers allow s w = serve-Delivers s w
  by_decision-Delivers deny s w = deliver-IsFiltered _ w
  by_decision-Delivers flag_for_review s w = tt

  by_verdict-Delivers :
      (v : Option OuterSafetyResult) (s : S env) (w : W) → Delivers (by_verdict env v s w)
  by_verdict-Delivers none s w = deliver-IsFiltered _ w
  by_verdict-Delivers (some o) s w = by_decision-Delivers o.final_decision s w

  handle-Delivers : (s : S env) (w : W) → Delivers (handle env s w)
  unfolding handle
  handle-Delivers s w = elim (Py-cases (judged env s)) [
    | inl (s', e) ↦ rw (e, handle) (by_verdict-Delivers s'.outer_safety_result s' w)
    | inr (x, e) ↦ rw (e, handle) tt
  ]

  by_choice-Delivers : (b : Bool) (s : S env) (w : W) → Delivers (by_choice env b s w)
  by_choice-Delivers true s w = serve-Delivers _ w
  by_choice-Delivers false s w = deliver-IsFiltered _ w

  by_answer-Delivers : (a : Answer) (s : S env) (w : W) → Delivers (by_answer env a s w)
  by_answer-Delivers no_answer s w = by_choice-Delivers false s w
  by_answer-Delivers (answer none) s w = by_choice-Delivers false s w
  by_answer-Delivers (answer (some v)) s w = by_choice-Delivers (truthy v) s w
  by_answer-Delivers not_a_dict s w = tt

  -- Whatever a call or the resumption of a paused one hands out is empty or what the filter leaves of a
  -- text, with the filter's findings in the state; neither ends at the recursion limit.
  pub calls-Delivers :
      (s : S env) (w : W)
      → Delivers (ainvoke env s w) × ((a : Answer) → Delivers (resume env a s w))
  calls-Delivers s w = (
    rw (ainvoke-handle env s w) (handle-Delivers s w),
    λ a. rw (resume-by_answer env a s w) (by_answer-Delivers a s w),
  )
