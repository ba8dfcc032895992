-- ===== src/Tests/Orchestrator.antt =====
-- The graph, its filter and its resolver at concrete requests.
use realityai_agents.Prelude.{
  ℕ, String, ◌≡◌, refl, ◌⊎◌, ◌==◌, true, false, none, some, List, [], ◌∷◌, ◌++◌, ◌+++◌, map, join,
  leb, length,
}
use realityai_agents.Python.{ok, raise, value_error, other_error, str, flag}
use realityai_agents.Tests.Samples.{
  runtime, matching, scores, classify, env, no_effects, enroll_args,
}
use realityai_agents.Preprocessing.Schemas.{Message, RewrittenQuery, coreference}
use realityai_agents.Preprocessing.CorefGate.{Lexer}
use realityai_agents.Preprocessing.CorefResolver.{Confidence, format_history_for_prompt}
use realityai_agents.Preprocessing.CorefResolver.Effective.{format_history_for_prompt-recent_turns}
use realityai_agents.OutputFilter.{Matcher}
use realityai_agents.State.{AgentState}
use realityai_agents.Action.Step.{Effects}
use realityai_agents.Action.Subgraph.{Answer, object, missing, text}
use realityai_agents.Action.Agent.{run_action_agent, agent_input}
use realityai_agents.Action.Agent.Calls.{OnePermittedCall, session_of, run_action_agent-calls}
use realityai_agents.Orchestrator
use realityai_agents.Orchestrator.{GraphEnv, IntentAnswer, Stop, S, ainvoke, resume}
use realityai_agents.Orchestrator.Handle.{handle, ainvoke-handle, by_answer, resume-by_answer}
use realityai_agents.Orchestrator.Permission.{world, IsAdmitted, ainvoke-world}
use realityai_agents.Orchestrator.Filtered.{Delivers, calls-Delivers}

-- Finds nothing in any text.
abbrev matcher : Matcher
matcher = record {
  matches_in = λ p t. ([], t);
  matches_in-rejoin = λ p t. refl;
  short_hash = λ t. "";
}

abbrev lexer : Lexer
lexer = record { search = λ p t. p == t; lower = λ t. t; words = λ t. 5 }

abbrev points : Confidence ℕ
points = record { zero_point = 0; one_point = 100; at_least = λ a b. leb b a }

abbrev rewritten : RewrittenQuery ℕ
rewritten = record {
  original_query = "drop it";
  rewritten_query = "drop CS101";
  resolved_entities = ("it", "CS101") ∷ [];
  rewrite_reason = coreference;
  confidence = 80;
}

abbrev user : String → Message
user content = record { role = "human"; content = content }

abbrev chooses_enrollment : Answer
chooses_enrollment = object (record {
  clarification_needed = false;
  question = missing;
  tool = text "enrollment_modify";
  arguments = some enroll_args;
  confirmation = text "Enrolling S002.";
})

abbrev graph : GraphEnv ℕ Effects
graph = record {
  rt = runtime;
  classify = λ t. ok (IntentAnswer.object (some (str "action")) none);
  matching = matching;
  scores = scores;
  prompt_guard = classify;
  timeout_text = "1.0";
  validation_error = λ v. value_error "intent";
  confidence = points;
  lexer = lexer;
  coref_threshold = ok 50;
  resolve = λ prompt. ok (some rewritten);
  matcher = matcher;
  run_action_agent = run_action_agent env (λ t. chooses_enrollment);
  run_query_agent = λ s w. (raise (other_error "down"), w);
  run_planning_agent = λ s w. (raise (other_error "down"), w);
}

abbrev request_of : String → AgentState ℕ
request_of query = record {
  messages = some (user query ∷ []);
  intent = none;
  intent_confidence = none;
  selected_agent = none;
  user_role = some "student";
  outer_safety_result = none;
  rewritten_query = none;
  user_query_normalized = none;
  tool_calls = [];
  response = none;
  output_filter_result = none;
  user_id = some "S002";
  session_id = some "sess-1";
  requires_approval = none;
  approval_status = none;
}

ainvoke-handle_example :
    ainvoke graph (request_of "enroll me in CS101") no_effects
    ≡ handle graph (request_of "enroll me in CS101") no_effects
ainvoke-handle_example = ainvoke-handle graph (request_of "enroll me in CS101") no_effects

resume-by_answer_example :
    resume graph (Orchestrator.answer (some (flag true))) (request_of "hello") no_effects
    ≡ by_answer graph (Orchestrator.answer (some (flag true))) (request_of "hello") no_effects
resume-by_answer_example =
    resume-by_answer graph (Orchestrator.answer (some (flag true))) (request_of "hello") no_effects

ainvoke-world_example :
    (world graph (ainvoke graph (request_of "password") no_effects) ≡ no_effects)
    ⊎ IsAdmitted graph (request_of "password")
ainvoke-world_example = (ainvoke-world graph (request_of "password") no_effects).1

calls-Delivers_example :
    Delivers graph (resume graph Orchestrator.no_answer (request_of "hello") no_effects)
calls-Delivers_example =
    (calls-Delivers graph (request_of "hello") no_effects).1 Orchestrator.no_answer

run_action_agent-calls_example :
    ((run_action_agent env (λ t. chooses_enrollment) (request_of "enroll me") no_effects).1.calls
      ≡ [])
    ⊎ OnePermittedCall env
        (session_of env (agent_input (request_of "enroll me")))
        no_effects
        (run_action_agent env (λ t. chooses_enrollment) (request_of "enroll me") no_effects).1
run_action_agent-calls_example =
    run_action_agent-calls env (λ t. chooses_enrollment) (request_of "enroll me") no_effects

abbrev talk : List Message
talk = user "a" ∷ user "b" ∷ user "c" ∷ user "d" ∷ user "e" ∷ user "f" ∷ user "g" ∷ user "h" ∷ []

format_history_for_prompt-recent_turns_example :
    (front : List Message) × (recent : List Message) × (talk ≡ front ++ recent)
    × (length recent ≡ 6)
    × (format_history_for_prompt talk "i"
        ≡ join "\n" (
            map (λ m. "[" +++ (m.role +++ ("] " +++ m.content))) recent
            ++ ("[user_new] " +++ "i") ∷ []))
format_history_for_prompt-recent_turns_example = format_history_for_prompt-recent_turns talk "i"

-- The prompt leaves the first two turns out.
prompt :
    format_history_for_prompt talk "i"
    ≡ "[human] c\n[human] d\n[human] e\n[human] f\n[human] g\n[human] h\n[user_new] i"
unfolding format_history_for_prompt
prompt = refl
