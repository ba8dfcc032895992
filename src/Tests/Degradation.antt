-- ===== src/Tests/Degradation.antt =====
-- The wrapper around an agent whose world counts its calls.
use realityai_agents.Prelude.{
  ℕ, zero, suc, if◌then◌else◌, String, ◌≡◌, refl, inr, none, some, [], ◌∷◌, contains,
}
use realityai_agents.Python.{timeout_error, Py, ok, raise}
use realityai_agents.Degradation.{Scanner, AgentResult, returned, execute_with_degradation}
use realityai_agents.Degradation.Attempts.{execute_with_degradation-returned_iff}

-- One refusal, and the course ids that a text is.
abbrev scan : Scanner
scan = record {
  lower = λ t. t;
  upper = λ t. t;
  search = λ p t. contains t ("i refuse" ∷ []);
  course_ids = λ t. if contains t ("CS999" ∷ []) then t ∷ [] else [];
  set_list = λ ts. ts;
}

abbrev says : String → AgentResult
says text = record { response = some text; tool_calls = none }

-- It answers in time from the second call on.
abbrev slow_once : ℕ → Py AgentResult × ℕ
slow_once zero = (raise (timeout_error ""), 1)
slow_once (suc n) = (ok (says "done"), suc (suc n))

abbrev refuses : ℕ → Py AgentResult × ℕ
refuses n = (ok (says "i refuse"), suc n)

execute_with_degradation-returned_iff_example :
    (execute_with_degradation scan ("CS101" ∷ []) slow_once "query" "hello" 0).0
    ≡ ok (returned (says "done"))
execute_with_degradation-returned_iff_example =
    (execute_with_degradation-returned_iff scan ("CS101" ∷ []) slow_once "query" "hello" 0
        (says "done")).1
      (inr (tt, (refl, ((refl, (refl, (refl, (refl, (refl, tt))))), tt, tt))))
