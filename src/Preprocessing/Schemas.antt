-- ===== src/Preprocessing/Schemas.antt =====
-- agent-core/preprocessing/schemas.py. The confidence is a float, whose type is a parameter.
use realityai_agents.Prelude.{String, List}

pub data RewriteReason : Type 0 where
  coreference ellipsis context_inject no_rewrite : RewriteReason

pub record RewrittenQuery (C : Type 0) : Type 0 where
  pub original_query : String
  pub rewritten_query : String
  pub resolved_entities : List (String × String)
  pub rewrite_reason : RewriteReason
  pub confidence : C

-- What the code reads of a message of the conversation.
pub record Message : Type 0 where
  pub role : String
  pub content : String
