-- ===== src/Orchestrator/Handle.antt =====
-- The graph against a straight-line account of a request.
use realityai_agents.Prelude.{
  Bool, true, false, ◌+++◌, ℕ, suc, ◌∙◌, inl, inr, ◌≡◌, refl, Option, none, some,
}
use realityai_agents.Python.{truthy, attribute_error, Py, ok, raise, Exn, Py-cases, ◌>>=◌}
use realityai_agents.Outer.Schemas.{SafetyDecision, allow, deny, flag_for_review, OuterSafetyResult}
use realityai_agents.Orchestrator.{
  GraphEnv, no_answer, answer, not_a_dict, reason_or, Answer, Stop, finished, paused, failed, S,
  classify_intent, route_to_agent, outer_safety_node, resolve_node, execute_agent, reject,
  generate_response, output_filter_node, hitl_node, is_approved, run_node, edge, drive, ainvoke,
  resume, node, coref_resolver, response_generation, execution, reject_node, outer_safety,
  agent_routing, intent_classification, NodeName, route_by_decision, route_after_outer_safety,
  route_after_hitl,
}

module _ {C W : Type 0} (env : GraphEnv C W) where
  -- The response goes out through the filter.
  unfoldable pub deliver : S env → W → Stop env
  deliver s w = finished (output_filter_node env (generate_response env s)) w

  abbrev pub after_agent : Py (S env) × W → Stop env
  after_agent (ok s, w) = deliver s w
  after_agent (raise e, w) = failed e w

  -- The query is resolved, and the selected agent runs once.
  unfoldable pub serve : S env → W → Stop env
  unfolding deliver
  serve s w = elim (resolve_node env s) [
    | ok s' ↦ after_agent (execute_agent env s' w)
    | raise e ↦ failed e w
  ]

  abbrev pub by_decision : SafetyDecision → S env → W → Stop env
  by_decision allow s w = serve s w
  by_decision deny s w = deliver (reject env s) w
  by_decision flag_for_review s w = paused s w

  abbrev pub by_verdict : Option OuterSafetyResult → S env → W → Stop env
  by_verdict none s w = deliver (reject env s) w
  by_verdict (some outer) s w = by_decision outer.final_decision s w

  -- The request up to the outer gate, which sees it as it came in.
  unfoldable pub judged : S env → Py (S env)
  judged s = do s1 ← classify_intent env s; s2 ← route_to_agent env s1; outer_safety_node env s2

  unfoldable pub handle : S env → W → Stop env
  unfolding serve judged
  handle s w = elim (judged s) [
    | ok s' ↦ by_verdict s'.outer_safety_result s' w
    | raise e ↦ failed e w
  ]

  module _ (steps : ℕ) where
    drive-ok :
        (n : NodeName) (s : S env) (w : W) {s' : S env}
        → (run_node env n s w).0 ≡ ok s'
        → drive env (suc steps) (node n) s w
          ≡ drive env steps (edge env n s') s' (run_node env n s w).1
    unfolding drive
    drive-ok n s w e = rw (e, drive)

    drive-raise :
        (n : NodeName) (s : S env) (w : W) {x : Exn}
        → (run_node env n s w).0 ≡ raise x
        → drive env (suc steps) (node n) s w ≡ failed x (run_node env n s w).1
    unfolding drive
    drive-raise n s w e = rw (e, drive)

    drive-deliver :
        (s : S env) (w : W)
        → drive env (suc (suc steps)) (node response_generation) s w ≡ deliver s w
    unfolding drive run_node edge deliver
    drive-deliver s w = refl

  module _ (steps : ℕ) where
    drive-after_agent :
        (s : S env) (w : W)
        → drive env (suc (suc (suc steps))) (node execution) s w
          ≡ after_agent (execute_agent env s w)
    unfolding run_node edge
    drive-after_agent s w = elim (Py-cases (execute_agent env s w).0) [
      | inl (s', e) ↦
          drive-ok (suc (suc steps)) execution s w e
          ∙ rw (e, after_agent) (drive-deliver steps s' (execute_agent env s w).1)
      | inr (x, e) ↦ drive-raise (suc (suc steps)) execution s w e ∙ rw (e, after_agent)
    ]

    drive-serve :
        (s : S env) (w : W)
        → drive env (suc (suc (suc (suc steps)))) (node coref_resolver) s w ≡ serve s w
    unfolding run_node edge serve
    drive-serve s w = elim (Py-cases (resolve_node env s)) [
      | inl (s', e) ↦
          drive-ok (suc (suc (suc steps))) coref_resolver s w e
          ∙ rw (e, serve) (drive-after_agent s' w)
      | inr (x, e) ↦ drive-raise (suc (suc (suc steps))) coref_resolver s w e ∙ rw (e, serve)
    ]

    drive-reject :
        (s : S env) (w : W)
        → drive env (suc (suc (suc (suc steps)))) (node reject_node) s w ≡ deliver (reject env s) w
    unfolding run_node edge
    drive-reject s w =
        drive-ok (suc (suc (suc steps))) reject_node s w refl
        ∙ drive-deliver (suc steps) (reject env s) w

    drive-by_decision :
        (d : SafetyDecision) (s : S env) (w : W)
        → drive env (suc (suc (suc (suc steps)))) (route_by_decision d) s w ≡ by_decision d s w
    unfolding drive
    drive-by_decision allow s w = drive-serve s w
    drive-by_decision deny s w = drive-reject s w
    drive-by_decision flag_for_review s w = refl

    drive-by_verdict :
        (o : Option OuterSafetyResult) (s : S env) (w : W)
        → drive env (suc (suc (suc (suc steps)))) (route_after_outer_safety o) s w
          ≡ by_verdict o s w
    unfolding edge
    drive-by_verdict none s w = drive-reject s w
    drive-by_verdict (some outer) s w = drive-by_decision outer.final_decision s w

    drive-judged :
        (s : S env) (w : W)
        → drive env (suc (suc (suc (suc (suc (suc (suc steps))))))) (node intent_classification) s w
          ≡ handle s w
    unfolding handle judged run_node edge
    drive-judged s w = elim (Py-cases (classify_intent env s)) [
      | inr (x, e) ↦ drive-raise _ intent_classification s w e ∙ rw (e, handle, judged)
      | inl (s1, e1) ↦
          drive-ok _ intent_classification s w e1 ∙ elim (Py-cases (route_to_agent env s1)) [
            | inr (x, e) ↦
                drive-raise _ agent_routing s1 w e
                ∙ rw (e1, handle, judged) (rw (e, handle, judged))
            | inl (s2, e2) ↦
                drive-ok _ agent_routing s1 w e2 ∙ elim (Py-cases (outer_safety_node env s2)) [
                  | inr (x, e) ↦
                      drive-raise _ outer_safety s2 w e
                      ∙ rw (e1, handle, judged) (rw (e2, handle, judged) (rw (e, handle, judged)))
                  | inl (s3, e3) ↦
                      drive-ok _ outer_safety s2 w e3
                      ∙ drive-by_verdict s3.outer_safety_result s3 w
                      ∙ rw (e1, handle, judged) (rw (e2, handle, judged) (rw (e3, handle, judged)))
                ]
          ]
    ]

  -- A call of the graph is the straight-line account, so it never reaches the recursion limit: the
  -- intent, the agent and the verdict on the request as it came in; on a denial the response says so,
  -- on a review the graph is paused, and otherwise the query is resolved and the selected agent runs;
  -- every response goes out through the filter, and an exception ends the call where it is raised.
  pub ainvoke-handle : (s : S env) (w : W) → ainvoke env s w ≡ handle s w
  unfolding ainvoke
  ainvoke-handle s w = drive-judged 18 s w

  abbrev approved : S env → S env
  approved s = record s { approval_status = some "approved" }

  abbrev rejected : S env → S env
  rejected s = record s {
    approval_status = some "rejected";
    response = some (
        "Operation rejected by reviewer.\nReason: "
        +++ reason_or "Operation flagged for review" s.outer_safety_result);
  }

  -- The reviewer's choice.
  abbrev pub by_choice : Bool → S env → W → Stop env
  by_choice true s w = serve (approved s) w
  by_choice false s w = deliver (rejected s) w

  abbrev pub by_answer : Answer → S env → W → Stop env
  by_answer no_answer s w = by_choice false s w
  by_answer (answer none) s w = by_choice false s w
  by_answer (answer (some v)) s w = by_choice (truthy v) s w
  by_answer not_a_dict s w = failed (attribute_error "no attribute 'get'") w

  resume-by_choice :
      (b : Bool) (a : Answer) (s : S env) (w : W)
      → is_approved env a ≡ ok b
      → resume env a s w ≡ by_choice b s w
  unfolding resume hitl_node edge route_after_hitl
  resume-by_choice true a s w e = rw (e, resume, hitl_node) (drive-serve 20 (approved s) w)
  resume-by_choice false a s w e = rw (e, resume, hitl_node) (drive-deliver 22 (rejected s) w)

  -- A paused call goes on by the reviewer's answer. Where the answer is a dict with a true value under
  -- "approved", the query is resolved and the selected agent runs; any other dict, or none, rejects,
  -- and the response says so; a true value that is no dict raises. Both responses go out through the
  -- filter.
  pub resume-by_answer : (a : Answer) (s : S env) (w : W) → resume env a s w ≡ by_answer a s w
  unfolding resume hitl_node
  resume-by_answer no_answer s w = resume-by_choice false no_answer s w refl
  resume-by_answer (answer none) s w = resume-by_choice false (answer none) s w refl
  resume-by_answer (answer (some v)) s w = resume-by_choice (truthy v) (answer (some v)) s w refl
  resume-by_answer not_a_dict s w = refl
