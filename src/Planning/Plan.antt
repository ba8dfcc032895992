-- ===== src/Planning/Plan.antt =====
-- agent-core/schemas/plan.py. Step ids are natural numbers, as `Field(ge=0)` has it, and so are the ids
-- in `depends_on` and `reasoning_inputs`, where the code would take a negative number too, which names
-- no step: a plan with one is left out. A dict from step
-- ids is a function with its keys listed beside it; a set is a list, in the order of the steps.
pub mod Graph
pub mod Kahn
pub mod Acyclic
pub mod Edges
pub mod Valid
pub mod Layers
use realityai_agents.Prelude.{
  ℕ, zero, suc, ◌+◌, ◌-◌, String, ◌≡◌, refl, Bool, true, false, ◌&&◌, ◌||◌, not, Option, none, some,
  List, [], ◌∷◌, ◌++◌, map, if◌then◌else◌, eqb, leb, length, all, keep, is_empty, decimal, ◌==◌,
  ◌+++◌,
}
use realityai_agents.Python.{Args, Py, ok, raise, ◌>>=◌, value_error, key_error}

pub data AgentType : Type 0 where
  query reasoning action constraint_solver : AgentType

pub data QuerySource : Type 0 where
  canvas degree_db catalog_db syllabus_rag : QuerySource

pub data SolverType : Type 0 where
  schedule_csp prereq_check : SolverType

pub record PlanStep : Type 0 where
  pub step_id : ℕ
  pub description : String
  pub depends_on : List ℕ
  pub agent_type : AgentType
  pub query_source : Option QuerySource
  pub query_params : Option Args
  pub reasoning_inputs : Option (List ℕ)
  pub reasoning_template : Option String
  pub action_tool : Option String
  pub action_args : Option Args
  pub solver_type : Option SolverType
  pub solver_inputs : Option Args
  pub semantic_query : Option String
  pub query_expansion : Option (List String)

pub record Plan : Type 0 where
  pub steps : List PlanStep
  pub reasoning : String

-- `n in ns`
abbrev pub has : ℕ → List ℕ → Bool
has n [] = false
has n (m ∷ ms) = eqb m n || has n ms

abbrev pub is_set {ℓ} : {A : Type ℓ} → Option A → Bool
is_set none = false
is_set (some a) = true

-- `bool(inputs)`, for a list or `None`
abbrev filled_list : Option (List ℕ) → Bool
filled_list none = false
filled_list (some ns) = not (is_empty ns)

abbrev pub filled_text : Option String → Bool
filled_text none = false
filled_text (some t) = not (t == "")

abbrev said_of : ℕ → String → String
said_of id what = "Step " +++ (decimal id +++ (": " +++ what))

abbrev requires : Bool → ℕ → String → Py (Unit {0})
requires true id what = ok tt
requires false id what = raise (value_error (said_of id what))

pub check_required_fields : AgentType → PlanStep → Py (Unit {0})
check_required_fields query s =
    requires (is_set s.query_source && is_set s.query_params) s.step_id
      "query agent_type requires query_source + query_params"
check_required_fields reasoning s =
    requires (filled_list s.reasoning_inputs && filled_text s.reasoning_template) s.step_id
      "reasoning agent_type requires reasoning_inputs + reasoning_template"
check_required_fields action s =
    requires (filled_text s.action_tool) s.step_id "action agent_type requires action_tool"
check_required_fields constraint_solver s =
    requires (is_set s.solver_type && is_set s.solver_inputs) s.step_id
      "constraint_solver agent_type requires solver_type + solver_inputs"

pub no_self_dependency : PlanStep → Py (Unit {0})
no_self_dependency s =
    requires (not (has s.step_id s.depends_on)) s.step_id "cannot depend on itself"

-- The validators of a step, in their order.
unfoldable pub validate_step : PlanStep → Py PlanStep
unfolding check_required_fields no_self_dependency
validate_step s = do
  checked ← check_required_fields s.agent_type s
  apart ← no_self_dependency s
  ok s

abbrev pub ids_of : List PlanStep → List ℕ
ids_of [] = []
ids_of (s ∷ ss) = s.step_id ∷ ids_of ss

-- `len(ids) != len(self.steps)`: some id comes twice.
abbrev pub has_duplicate : List ℕ → Bool
has_duplicate [] = false
has_duplicate (n ∷ ns) = has n ns || has_duplicate ns

-- The first `depends_on` entry that names no step, with the step that has it.
abbrev pub missing_in : List ℕ → List ℕ → Option ℕ
missing_in ids [] = none
missing_in ids (d ∷ ds) = let rest = missing_in ids ds in if has d ids then rest else some d

abbrev pub first_missing : List ℕ → List PlanStep → Option (ℕ × ℕ)
first_missing ids [] = none
first_missing ids (s ∷ ss) =
    let rest = first_missing ids ss in
    elim (missing_in ids s.depends_on) [ some d ↦ some (s.step_id, d) | none ↦ rest ]

-- The pairs that the loop over the steps and their dependencies goes through: a step's dependency,
-- and the step.
abbrev pub edges_to : ℕ → List ℕ → List (ℕ × ℕ)
edges_to id [] = []
edges_to id (d ∷ ds) = (d, id) ∷ edges_to id ds

abbrev pub edges_of : List PlanStep → List (ℕ × ℕ)
edges_of [] = []
edges_of (s ∷ ss) = edges_to s.step_id s.depends_on ++ edges_of ss

-- `indeg` and `adj`.
pub record Degrees : Type 0 where
  pub indeg : ℕ → ℕ
  pub adj : ℕ → List ℕ

abbrev pub bump : ℕ → (ℕ → ℕ) → ℕ → ℕ
bump k f j = if eqb k j then suc (f j) else f j

abbrev pub append_at : ℕ → ℕ → (ℕ → List ℕ) → ℕ → List ℕ
append_at k v f j = if eqb k j then f j ++ v ∷ [] else f j

abbrev pub no_edges : Degrees
no_edges = record { indeg = λ n. 0; adj = λ n. [] }

pub add_edges : List (ℕ × ℕ) → Degrees → Degrees
add_edges [] g = g
add_edges ((dep, id) ∷ es) g =
    add_edges es (record { indeg = bump id g.indeg; adj = append_at dep id g.adj })

-- `indeg[n] -= 1`. No count is below one where this is done.
abbrev pub decrement : ℕ → (ℕ → ℕ) → ℕ → ℕ
decrement k f j = if eqb k j then f j - 1 else f j

-- The loop over `adj[sid]`; `ready` is kept with its last element first.
pub release : List ℕ → (ℕ → ℕ) → List ℕ → (ℕ → ℕ) × List ℕ
release [] indeg ready = (indeg, ready)
release (n ∷ ns) indeg ready =
    release ns (decrement n indeg) (if eqb (decrement n indeg n) 0 then n ∷ ready else ready)

-- `while ready`: how many steps it visits. Fuel stands for the loop.
pub visit : ℕ → (ℕ → List ℕ) → List ℕ → (ℕ → ℕ) → ℕ → ℕ
visit zero adj ready indeg visited = visited
visit (suc fuel) adj [] indeg visited = visited
visit (suc fuel) adj (sid ∷ ready) indeg visited =
    visit fuel adj (release (adj sid) indeg ready).1 (release (adj sid) indeg ready).0 (suc visited)

abbrev pub reversed : List ℕ → List ℕ
reversed [] = []
reversed (n ∷ ns) = reversed ns ++ n ∷ []

abbrev pub roots : List ℕ → (ℕ → ℕ) → List ℕ
roots ids indeg = reversed (keep (λ n. eqb (indeg n) 0) ids)

-- Kahn's algorithm: the number of visited steps.
unfoldable pub kahn : List ℕ → List (ℕ × ℕ) → ℕ
unfolding add_edges visit release
kahn ids edges =
    let g = add_edges edges no_edges in visit (suc (length ids)) g.adj (roots ids g.indeg) g.indeg 0

abbrev missing_text : ℕ → ℕ → String
missing_text id d = "Step " +++ (decimal id +++ (" depends_on missing step " +++ decimal d))

-- The checks of the plan, the last one first.
unfoldable pub check_cycle : Plan → Py Plan
check_cycle p =
    if eqb (kahn (ids_of p.steps) (edges_of p.steps)) (length (ids_of p.steps))
    then ok p
    else raise (value_error "plan contains a cycle")

unfoldable pub check_missing : Plan → Option (ℕ × ℕ) → Py Plan
unfolding check_cycle
check_missing p (some (id, d)) = raise (value_error (missing_text id d))
check_missing p none = check_cycle p

unfoldable pub validate_dag : Plan → Py Plan
unfolding check_missing
validate_dag p =
    if has_duplicate (ids_of p.steps)
    then raise (value_error "duplicate step_id in plan")
    else check_missing p (first_missing (ids_of p.steps) p.steps)

-- `Plan.step`
abbrev pub find_step : ℕ → List PlanStep → Py PlanStep
find_step id [] = raise (key_error ("no step " +++ decimal id))
find_step id (s ∷ ss) = let rest = find_step id ss in if eqb s.step_id id then ok s else rest
