-- ===== src/Preprocessing/CorefResolver/Effective.antt =====
-- What the resolver puts into `rewritten_query` and `user_query_normalized`, and how much of the
-- conversation its prompt holds. Of the agents only the planning agent reads `user_query_normalized`.
use Prim.Native.Nat.{min}
use realityai_agents.Prelude.{
  ltb→lt, not_ltb→le, if◌then◌else◌, ℕ, String, ◌≡◌, refl, ◌⊎◌, inl, inr, arith, true, false,
  Option, some, List, [], ◌∷◌, ◌++◌, length, join, map, ◌+++◌, ltb, ◌-◌, suc, zero, Bool-cases,
}
use realityai_agents.Python.{Py, ok, Raises}
use realityai_agents.Preprocessing.Schemas.{RewrittenQuery, no_rewrite, Message}
use realityai_agents.Preprocessing.CorefGate.{Lexer, needs_coref}
use realityai_agents.Preprocessing.CorefResolver.{
  drop, recent_turns, max_history_turns, format_history_for_prompt, last_message, but_last,
  Confidence, CorefUpdate, coref_resolver_node,
}

length-drop : (n : ℕ) (ms : List Message) → length (drop n ms) ≡ length ms - n
length-drop zero ms = omega arith
length-drop (suc n) [] = omega arith
length-drop (suc n) (m ∷ ms) = omega (arith, length-drop n ms)

drop-suffix : (n : ℕ) (ms : List Message) → (front : List Message) × (ms ≡ front ++ drop n ms)
drop-suffix zero ms = ([], refl)
drop-suffix (suc n) [] = ([], refl)
drop-suffix (suc n) (m ∷ ms) = let (front, e) = drop-suffix n ms in (m ∷ front, cc e)

recent_turns-suffix :
    (history : List Message)
    → ((front : List Message) × (history ≡ front ++ recent_turns history))
      × (length (recent_turns history) ≡ min max_history_turns (length history))
unfolding recent_turns
recent_turns-suffix history = elim (Bool-cases (ltb 6 (length history))) [
  | inl long ↦
      rw long (
        drop-suffix _ history,
        omega (arith, ltb→lt, length-drop (length history - 6) history, long),
      )
  | inr short ↦ rw short (([], refl), omega (arith, not_ltb→le 6 (length history) short))
]

-- The prompt of the resolver is a line for each of the last turns of the conversation, with the turn's
-- role and content, and a last line with the query. The turns are six, or all of them where there are
-- not more than six.
pub format_history_for_prompt-recent_turns :
    (turns : List Message) (q : String)
    → (front : List Message) × (recent : List Message) × (turns ≡ front ++ recent)
      × (length recent ≡ min 6 (length turns))
      × (format_history_for_prompt turns q
          ≡ join "\n" (
              map (λ m. "[" +++ (m.role +++ ("] " +++ m.content))) recent
              ++ ("[user_new] " +++ q) ∷ []))
unfolding format_history_for_prompt
format_history_for_prompt-recent_turns turns q =
    let ((front, e), size) = recent_turns-suffix turns in (front, recent_turns turns, e, size, refl)

module _ {C : Type 0} (fl : Confidence C) (lx : Lexer) (threshold : Py C)
    (resolve : String → Py (Option (RewrittenQuery C))) (m : Message) (ms : List Message) where
  abbrev query : String
  query = (last_message m ms).content

  abbrev history : List Message
  history = but_last m ms

  abbrev answer : Py (Option (RewrittenQuery C))
  answer = resolve (format_history_for_prompt history query)

  abbrev node : Py (Option (CorefUpdate C))
  node = coref_resolver_node fl lx threshold resolve (m ∷ ms)

  -- The rewriting of a query as it stands.
  abbrev Verbatim : RewrittenQuery C → C → Type 0
  Verbatim r confidence =
      (r.original_query ≡ query)
      × (r.rewritten_query ≡ query)
      × (r.resolved_entities ≡ [])
      × (r.rewrite_reason ≡ no_rewrite)
      × (r.confidence ≡ confidence)

  abbrev Effective : CorefUpdate C → Type 0
  Effective u =
      ((needs_coref lx query history ≡ false)
        × Verbatim u.rewritten_query fl.one_point
        × (u.user_query_normalized ≡ query))
      ⊎ ((needs_coref lx query history ≡ true)
          × Raises answer
          × Verbatim u.rewritten_query fl.zero_point
          × (u.user_query_normalized ≡ query))
      ⊎ ((r : RewrittenQuery C) × (bound : C) × (needs_coref lx query history ≡ true)
          × (answer ≡ ok (some r))
          × (threshold ≡ ok bound)
          × (u.rewritten_query ≡ r)
          × (u.user_query_normalized
              ≡ (if fl.at_least r.confidence bound then r.rewritten_query else r.original_query)))
