-- ===== src/Planning/Params.antt =====
-- agent-core/agents/query_agent.py: what a query takes from the dict of its parameters, whose values are
-- those of the plan or what steps have put out.
use realityai_agents.Prelude.{
  String, Bool, true, false, not, Option, none, some, List, [], ◌∷◌, map, all, if◌then◌else◌,
  is_empty, lookup, ◌==◌,
}
use realityai_agents.Python.{
  null, str, strings, Py, ok, raise, ◌>>=◌, type_error, truthy, is_hashable,
}
use realityai_agents.Planning.Outputs.{
  sections, chunks, unsatisfied, options, text, action_result, failed, Param, plain, typed, StepEnv,
}

abbrev pub Params : Type 0 → Type 0
Params R = List (String × Param R)

abbrev pub is_text : Option String → String → Bool
is_text none t = false
is_text (some u) t = u == t

module _ {R : Type 0} where
  -- `bool(p)`
  abbrev pub is_true : Param R → Bool
  is_true (plain v) = truthy v
  is_true (typed (sections l)) = not (is_empty l)
  is_true (typed (chunks l)) = not (is_empty l)
  is_true (typed (unsatisfied l)) = not (is_empty l)
  is_true (typed (options l)) = not (is_empty l)
  is_true (typed (text t)) = not (t == "")
  is_true (typed (action_result args)) = not (is_empty args)
  is_true (typed o) = true

  abbrev pub text_in : Param R → Option String
  text_in (plain (str t)) = some t
  text_in (typed (text t)) = some t
  text_in p = none

  abbrev pub can_hash : Param R → Bool
  can_hash (plain v) = is_hashable v
  can_hash (typed (text t)) = true
  can_hash (typed (failed e)) = true
  can_hash p = false

  -- `params.get(k)`
  abbrev pub param : Params R → String → Param R
  param ps k = elim (lookup k ps) [ none ↦ plain null | some p ↦ p ]

  -- `params.get(k, "")`
  abbrev pub param_or_blank : Params R → String → Param R
  param_or_blank ps k = elim (lookup k ps) [ none ↦ plain (str "") | some p ↦ p ]

  abbrev pub texts_in : List (Param R) → List String
  texts_in [] = []
  texts_in (p ∷ ps) = elim (text_in p) [ none ↦ texts_in ps | some t ↦ t ∷ texts_in ps ]

module _ {R : Type 0} (env : StepEnv R) where
  -- Iteration over a value.
  abbrev pub items : Param R → Py (List (Param R))
  items (plain (strings l)) = ok (map (λ t. plain (str t)) l)
  items p = env.items_of p

  -- The texts in `set(p)`.
  abbrev pub text_set : Param R → Py (List String)
  text_set p = do
    l ← items p
    if all can_hash l then ok (texts_in l) else raise (type_error "unhashable type")
