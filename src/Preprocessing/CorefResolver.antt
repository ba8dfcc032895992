-- ===== src/Preprocessing/CorefResolver.antt =====
-- agent-core/preprocessing/coref_resolver.py. The model's structured answer is a parameter, an
-- object, None or an exception of the call, and so is the environment variable of the threshold, whose
-- `float` may raise when the node runs. Left out are exceptions of `_get_llm` and
-- `with_structured_output`, which stand outside the `try`, and the `float` at the import.
pub mod Effective
use realityai_agents.Prelude.{
  ℕ, String, Bool, true, false, Option, none, some, List, [], ◌∷◌, ◌++◌, if◌then◌else◌, ltb, length,
  join, map, ◌-◌, ◌+++◌, zero, suc,
}
use realityai_agents.Python.{Py, ok, raise, ◌>>=◌, attribute_error}
use realityai_agents.Preprocessing.Schemas.{RewrittenQuery, no_rewrite, Message}
use realityai_agents.Preprocessing.CorefGate.{Lexer, needs_coref}

abbrev pub max_history_turns : ℕ
max_history_turns = 6

abbrev pub drop {ℓ} : {A : Type ℓ} → ℕ → List A → List A
drop zero xs = xs
drop (suc n) [] = []
drop (suc n) (x ∷ xs) = drop n xs

-- `history[-MAX_HISTORY_TURNS:]`, where there are more
pub recent_turns : List Message → List Message
recent_turns history =
    if ltb max_history_turns (length history)
    then drop (length history - max_history_turns) history
    else history

abbrev line_of : Message → String
line_of m = "[" +++ (m.role +++ ("] " +++ m.content))

unfoldable pub format_history_for_prompt : List Message → String → String
unfolding recent_turns
format_history_for_prompt history current_query =
    join "\n" (map line_of (recent_turns history) ++ ("[user_new] " +++ current_query) ∷ [])

-- `messages[-1]` and `messages[:-1]` of a list that is not empty
abbrev pub last_message : Message → List Message → Message
last_message m [] = m
last_message m (n ∷ ns) = last_message n ns

abbrev pub but_last : Message → List Message → List Message
but_last m [] = []
but_last m (n ∷ ns) = m ∷ but_last n ns

-- The floats of the confidences.
pub record Confidence (C : Type 0) : Type 0 where
  pub zero_point : C  -- 0.0
  pub one_point : C  -- 1.0
  pub at_least : C → C → Bool  -- `a >= b`

pub record CorefUpdate (C : Type 0) : Type 0 where
  pub rewritten_query : RewrittenQuery C
  pub user_query_normalized : String

module _ {C : Type 0} (fl : Confidence C) (lx : Lexer) (threshold : Py C)
    (resolve : String → Py (Option (RewrittenQuery C))) where
  abbrev pub verbatim : String → C → RewrittenQuery C
  verbatim user_query confidence = record {
    original_query = user_query;
    rewritten_query = user_query;
    resolved_entities = [];
    rewrite_reason = no_rewrite;
    confidence = confidence;
  }

  -- The `try` around the model's call, whose answer may be None.
  abbrev pub resolved_or_verbatim :
      String → Py (Option (RewrittenQuery C)) → Option (RewrittenQuery C)
  resolved_or_verbatim user_query (ok r) = r
  resolved_or_verbatim user_query (raise e) = some (verbatim user_query fl.zero_point)

  -- The choice by the confidence, an attribute that None lacks.
  abbrev pub effective : C → Option (RewrittenQuery C) → Py (CorefUpdate C)
  effective bound none = raise (attribute_error "'NoneType' object has no attribute 'confidence'")
  effective bound (some r) = ok (record {
    rewritten_query = r;
    user_query_normalized =
        if fl.at_least r.confidence bound then r.rewritten_query else r.original_query;
  })

  pub resolve_query : String → List Message → Py (CorefUpdate C)
  resolve_query user_query history = do
    let r = resolved_or_verbatim user_query (resolve (format_history_for_prompt history user_query))
    bound ← threshold
    effective bound r

  -- The node on the messages of the state; the empty update is `none`.
  unfoldable pub coref_resolver_node : List Message → Py (Option (CorefUpdate C))
  unfolding resolve_query
  coref_resolver_node [] = ok none
  coref_resolver_node (m ∷ ms) =
      let user_query = (last_message m ms).content in
      let history = but_last m ms in
      if needs_coref lx user_query history
      then (do u ← resolve_query user_query history; ok (some u))
      else ok (
          some (record {
            rewritten_query = verbatim user_query fl.one_point;
            user_query_normalized = user_query;
          }))
