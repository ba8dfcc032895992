-- ===== src/Planning/Plan/Layers.antt =====
-- `Plan.topological_layers` of agent-core/schemas/plan.py. `remaining`, a dict of sets, is a list of
-- pairs, and `by_id` is a search from the end, as a later entry of a dict comprehension wins.
pub mod Counts
pub mod Inversion
pub mod Rounds
pub mod NextLayer
pub mod Sound
use realityai_agents.Prelude.{
  ℕ, zero, suc, ◌+◌, Bool, true, false, not, Option, none, some, List, [], ◌∷◌, ◌++◌, if◌then◌else◌,
  eqb, leb, length, keep, is_empty, decimal,
}
use realityai_agents.Python.{Py, ok, raise, ◌>>=◌, value_error, key_error}
use realityai_agents.Planning.Plan.{PlanStep, Plan, has}

abbrev pub Remaining : Type 0
Remaining = List (ℕ × List ℕ)

abbrev pub start_remaining : List PlanStep → Remaining
start_remaining [] = []
start_remaining (s ∷ ss) = (s.step_id, s.depends_on) ∷ start_remaining ss

abbrev pub ready_ids : Remaining → List ℕ
ready_ids [] = []
ready_ids ((id, deps) ∷ rest) =
    let ready = ready_ids rest in if is_empty deps then id ∷ ready else ready

abbrev pub place : ℕ → List ℕ → List ℕ
place n [] = n ∷ []
place n (m ∷ ms) = let rest = place n ms in if leb n m then n ∷ m ∷ ms else m ∷ rest

-- `ready_ids.sort()`
abbrev pub sorted_ids : List ℕ → List ℕ
sorted_ids [] = []
sorted_ids (n ∷ ns) = place n (sorted_ids ns)

-- The two loops over `remaining` at the end of a round.
abbrev pub clear : List ℕ → Remaining → Remaining
clear ready [] = []
clear ready ((id, deps) ∷ rest) =
    let cleared = clear ready rest in
    if has id ready then cleared else (id, keep (λ d. not (has d ready)) deps) ∷ cleared

abbrev pub by_id : List PlanStep → ℕ → Option PlanStep
by_id [] id = none
by_id (s ∷ ss) id = elim (by_id ss id) [
  | some t ↦ some t
  | none ↦ if eqb s.step_id id then some s else none
]

abbrev found : ℕ → Option PlanStep → Py PlanStep
found id none = raise (key_error (decimal id))
found id (some s) = ok s

abbrev pub steps_of : List PlanStep → List ℕ → Py (List PlanStep)
steps_of ss [] = ok []
steps_of ss (id ∷ ids) = do s ← found id (by_id ss id); rest ← steps_of ss ids; ok (s ∷ rest)

-- The end of a round: nothing ready, or the layer and those of the rounds to come.
abbrev pub next_layer :
    Bool → Py (List PlanStep) → Py (List (List PlanStep)) → Py (List (List PlanStep))
next_layer true layer later = raise (value_error "unreachable: cycle in topological_layers")
next_layer false layer later = do l ← layer; rest ← later; ok (l ∷ rest)

-- `while remaining`. Each round takes a step, so that their number is fuel enough.
pub layers_from : ℕ → List PlanStep → Remaining → Py (List (List PlanStep))
layers_from fuel ss [] = ok []
layers_from zero ss (r ∷ remaining) = raise (value_error "out of fuel")
layers_from (suc fuel) ss (r ∷ remaining) =
    next_layer (is_empty (ready_ids (r ∷ remaining)))
      (steps_of ss (sorted_ids (ready_ids (r ∷ remaining))))
      (layers_from fuel ss (clear (sorted_ids (ready_ids (r ∷ remaining))) (r ∷ remaining)))

unfoldable pub topological_layers : Plan → Py (List (List PlanStep))
unfolding layers_from
topological_layers p = layers_from (length p.steps) p.steps (start_remaining p.steps)
