-- ===== src/Preprocessing/CorefGate.antt =====
-- agent-core/preprocessing/coref_gate.py. `search pattern text` is `re.search`, `words` counts what
-- `str.split` gives.
use realityai_agents.Prelude.{
  ℕ, String, Bool, true, false, ◌&&◌, List, [], ◌∷◌, ◌++◌, if◌then◌else◌, any, is_empty, leb,
  length,
}
use realityai_agents.Preprocessing.Schemas.{Message}

pub record Lexer : Type 0 where
  pub search : String → String → Bool
  pub lower : String → String
  pub words : String → ℕ

abbrev pub pronoun_patterns : List String
pronoun_patterns =
    "\\bit\\b" ∷ "\\bits\\b" ∷ "\\bthat\\b" ∷ "\\bthose\\b" ∷ "\\bthese\\b" ∷ "\\bthis\\b"
    ∷ "\\bthey\\b" ∷ "\\bthem\\b" ∷ "\\btheir\\b" ∷ "它" ∷ "那个" ∷ "那门" ∷ "这个" ∷ "这门" ∷ "那些" ∷ "这些"
    ∷ []

abbrev pub ellipsis_patterns : List String
ellipsis_patterns =
    "^(再查|再看|那|然后|接着)" ∷ "^(check|look|find|show)\\s+(again|more|those|that)"
    ∷ "^(what about|how about)\\s+" ∷ []

abbrev pub definite_reference_patterns : List String
definite_reference_patterns =
    "\\bthe (course|class|requirement|professor|instructor)\\b" ∷ "那门课" ∷ "那个老师" ∷ "那个 ?requirement"
    ∷ []

abbrev pub all_patterns : List String
all_patterns = pronoun_patterns ++ (definite_reference_patterns ++ ellipsis_patterns)

module _ (lx : Lexer) where
  unfoldable pub needs_coref : String → List Message → Bool
  needs_coref user_query history =
      if is_empty history
      then false
      else if any (λ p. lx.search p (lx.lower user_query)) all_patterns
      then true
      else if leb 2 (length history) && leb (lx.words user_query) 3
      then true
      else false
