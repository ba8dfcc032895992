-- ===== src/Planning/Agent/Markers.antt =====
-- The recorded call that the planning agent finds for a step.
use mathlib.Core.List.{Memᴰ}
use mathlib.Core.List.Memᴰ.{head, tail}
use realityai_agents.Prelude.{
  ℕ, ◌≤◌, ◌≡◌, refl, sym, ap, subst, ◌∙◌, arith, String, true, eq_iff, inl, inr, List, [], ◌∷◌, map,
  All, length, Bool-cases, Option-cases, eqb, Option, none, some, false, ◌++◌,
}
use realityai_agents.Python.{Runtime, ok}
use realityai_agents.Outer.Schemas.{SessionContext}
use realityai_agents.Action.Step.{Effects}
use realityai_agents.Planning.Plan.{PlanStep, Plan, ids_of, has, validate_dag}
use realityai_agents.Planning.Plan.Graph.{NoDup}
use realityai_agents.Planning.Plan.Valid.{validate_dag-ok_iff}
use realityai_agents.Planning.Plan.Layers.Counts.{has-mult_iff}
use realityai_agents.Planning.Plan.Layers.{topological_layers}
use realityai_agents.Planning.Outputs.{StepEnv}
use realityai_agents.Planning.Node.{StepArgs, StepCall, step_label, step_args}
use realityai_agents.Planning.Run.{run_plan}
use realityai_agents.Planning.Run.Complete.{named, name_of, run_plan_complete}
use realityai_agents.Planning.Agent.{is_call_of, find_call}

-- Members of lists.
module _ {A : Type 0} where
  All-Memᴰ_elim : (P : A → Type 0) (xs : List A) (x : A) → All P xs → Memᴰ x xs → P x
  All-Memᴰ_elim P [] x h m = elim m [ ]
  All-Memᴰ_elim P (y ∷ xs) x h (head e) = subst P (sym e) h.0
  All-Memᴰ_elim P (y ∷ xs) x h (tail m) = All-Memᴰ_elim P xs x h.1 m

  Memᴰ-map : {B : Type 0} (f : A → B) {x : A} {xs : List A} → Memᴰ x xs → Memᴰ (f x) (map f xs)
  Memᴰ-map f (head e) = head (ap f e)
  Memᴰ-map f (tail m) = tail (Memᴰ-map f m)

has-Memᴰ :
    (id : ℕ) (ss : List PlanStep)
    → has id (ids_of ss) ≡ true
    → (t : PlanStep) × Memᴰ t ss × (t.step_id ≡ id)
has-Memᴰ id [] h = cc
has-Memᴰ id (s ∷ ss) h = elim (Bool-cases (eqb s.step_id id)) [
  | inl e ↦ (s, head refl, ground arith)
  | inr e ↦ let (t, m, q) = has-Memᴰ id ss (ground arith) in (t, tail m, q)
]

Memᴰ-has : {s : PlanStep} {ss : List PlanStep} → Memᴰ s ss → has s.step_id (ids_of ss) ≡ true
Memᴰ-has {s} (head {x = t} e) = let q = ap (λ (x : PlanStep). x.step_id) e in ground arith
Memᴰ-has {s} (tail {x = t} m) = ground (arith, Memᴰ-has m)

same_step :
    (ss : List PlanStep) (s t : PlanStep)
    → NoDup (ids_of ss)
    → Memᴰ s ss
    → Memᴰ t ss
    → t.step_id ≡ s.step_id
    → t ≡ s
same_step [] s t h m n q = elim m [ ]
same_step (x ∷ ss) s t h (head e) (head f) q = f ∙ sym e
same_step (x ∷ ss) s t h (head e) (tail n) q =
    let r = ap (λ (y : PlanStep). y.step_id) e in ground (arith, Memᴰ-has n, h.0)
same_step (x ∷ ss) s t h (tail m) (head f) q =
    let r = ap (λ (y : PlanStep). y.step_id) f in ground (arith, Memᴰ-has m, h.0)
same_step (x ∷ ss) s t h (tail m) (tail n) q = same_step ss s t h.1 m n q

module _ {R : Type 0} (rt : Runtime) (json_of : StepArgs → String) (s : PlanStep) where
  is_call_of-named : (c : StepCall R) → name_of s ≡ named c → is_call_of rt json_of s c ≡ true
  is_call_of-named c e =
      rw
        (
          (eq_iff c.tool_name (step_label s.agent_type s)).1 (sym (ap (λ x. x.0) e)),
          (eq_iff (json_of c.arguments) (json_of (step_args s.agent_type s))).1
              (ap (λ x. json_of x.1) (sym e)),
        )
        refl

  -- The call found for a step is one that was recorded under the step's key.
  abbrev pub Found : List (StepCall R) → Type 0
  Found cs =
      (c : StepCall R) × (find_call rt json_of s cs ≡ some c)
      × Memᴰ c cs
      × (is_call_of rt json_of s c ≡ true)

  find_call-is_call_of :
      (cs : List (StepCall R)) (c : StepCall R)
      → find_call rt json_of s cs ≡ some c
      → Memᴰ c cs × (is_call_of rt json_of s c ≡ true)
  find_call-is_call_of [] c e = cc
  find_call-is_call_of (d ∷ cs) c e = elim (Option-cases (find_call rt json_of s cs)) [
    | inl nothing ↦ elim (Bool-cases (is_call_of rt json_of s d)) [
      | inl h ↦
          let same : d ≡ c = ground arith in
          (head (sym same), subst (λ x. is_call_of rt json_of s x ≡ true) same h)
      | inr h ↦ ground arith
    ]
    | inr (x, k) ↦ let (m, h) = find_call-is_call_of cs c (ground arith) in (tail m, h)
  ]

  find_call-none :
      (cs : List (StepCall R))
      → find_call rt json_of s cs ≡ none
      → All (λ d. is_call_of rt json_of s d ≡ false) cs
  find_call-none [] e = tt
  find_call-none (d ∷ cs) e = elim (Option-cases (find_call rt json_of s cs)) [
    | inl nothing ↦ elim (Bool-cases (is_call_of rt json_of s d)) [
      | inl h ↦ ground arith
      | inr h ↦ (h, find_call-none cs nothing)
    ]
    | inr (x, k) ↦ ground arith
  ]

  -- It is the last of those.
  pub find_call-last :
      (cs : List (StepCall R)) (c : StepCall R)
      → find_call rt json_of s cs ≡ some c
      → (front : List (StepCall R)) × (back : List (StepCall R)) × (cs ≡ front ++ c ∷ back)
        × All (λ d. is_call_of rt json_of s d ≡ false) back
  find_call-last [] c e = cc
  find_call-last (d ∷ cs) c e = elim (Option-cases (find_call rt json_of s cs)) [
    | inl nothing ↦ elim (Bool-cases (is_call_of rt json_of s d)) [
      | inl h ↦
          let same : d ≡ c = ground arith in
          ([], cs, ap (λ x. x ∷ cs) same, find_call-none cs nothing)
      | inr h ↦ ground arith
    ]
    | inr (x, k) ↦
        let (front, back, split, later) = find_call-last cs c (ground arith) in
        (d ∷ front, back, ap (λ l. d ∷ l) split, later)
  ]

  find_call-Found : (cs : List (StepCall R)) → Memᴰ (name_of s) (map named cs) → Found cs
  find_call-Found [] m = elim m [ ]
  find_call-Found (c ∷ cs) m = elim (Option-cases (find_call rt json_of s cs)) [
    | inl nothing ↦ elim m [
      | head e ↦ let here = is_call_of-named c e in (c, rw (nothing, here) refl, head refl, here)
      | tail n ↦ let (d, e, k, h) = find_call-Found cs n in cc
    ]
    | inr (d, e) ↦ let (k, h) = find_call-is_call_of cs d e in (d, rw e refl, tail k, h)
  ]

-- Every step of an accepted plan that runs within the limit has a recorded call among those found.
pub Found-step :
    {R : Type 0} (rt : Runtime) (json_of : StepArgs → String) (env : StepEnv R)
    (session : Option SessionContext) (limit : ℕ) (p : Plan) (layers : List (List PlanStep))
    (w : Effects) (s : PlanStep)
    → validate_dag p ≡ ok p
    → topological_layers p ≡ ok layers
    → length layers ≤ limit
    → Memᴰ s p.steps
    → Found rt json_of s (run_plan env session limit p w).1.tool_calls
Found-step rt json_of env session limit p layers w s accepted laid within m =
    let (ends, (ran, members, counts, calls, outputs)) =
      run_plan_complete env session limit p layers w accepted laid within in
    let (t, n, q) = has-Memᴰ s.step_id ran (
      ground (
        arith,
        Memᴰ-has m,
        counts s.step_id,
        has-mult_iff s.step_id (ids_of ran),
        has-mult_iff s.step_id (ids_of p.steps),
      )) in
    let same : t ≡ s =
      same_step p.steps s t ((validate_dag-ok_iff p).0 accepted).0 m
        (All-Memᴰ_elim (λ x. Memᴰ x p.steps) ran t members n) q in
    find_call-Found rt json_of s (run_plan env session limit p w).1.tool_calls (
      subst (Memᴰ (name_of s)) (sym calls)
        (subst (λ x. Memᴰ (name_of x) (map name_of ran)) same (Memᴰ-map name_of n)))
