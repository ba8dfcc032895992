-- ===== src/Planning/Plan/Layers/Inversion.antt =====
-- What the rounds of `topological_layers` went through, from their result.
use realityai_agents.Prelude.{
  ℕ, zero, suc, ◌≡◌, refl, sym, inl, inr, ◌⊎◌, Bool, true, false, List, [], ◌∷◌, is_empty,
}
use realityai_agents.Python.{Py, ok, ◌>>=◌, >>=-ok, ok_inj}
use realityai_agents.Planning.Plan.{PlanStep}
use realityai_agents.Planning.Plan.Layers.{
  Remaining, ready_ids, sorted_ids, clear, steps_of, next_layer, layers_from,
}

next_layer-ok :
    (b : Bool) (layer : Py (List PlanStep)) (later : Py (List (List PlanStep)))
    {layers : List (List PlanStep)}
    → next_layer b layer later ≡ ok layers
    → (b ≡ false)
      × ((l : List PlanStep) × (rest : List (List PlanStep)) × (layers ≡ l ∷ rest)
          × (later ≡ ok rest))
next_layer-ok true layer later e = cc
next_layer-ok false layer later e =
    let (l, el, e') = >>=-ok layer (λ l. later >>= λ rest. ok (l ∷ rest)) e in
    let (rest, er, e'') = >>=-ok later (λ rest. ok (l ∷ rest)) e' in
    (refl, (l, rest, sym (ok_inj e''), er))

pub ready_none :
    (remaining : Remaining) → is_empty remaining ≡ true → is_empty (ready_ids remaining) ≡ true
ready_none [] e = refl
ready_none (r ∷ remaining) e = cc

pub layers_from-ok_zero :
    (ss : List PlanStep) (remaining : Remaining) (layers : List (List PlanStep))
    → layers_from zero ss remaining ≡ ok layers
    → (is_empty remaining ≡ true) × (layers ≡ [])
unfolding layers_from
layers_from-ok_zero ss [] layers e = (refl, sym (ok_inj e))
layers_from-ok_zero ss (r ∷ remaining) layers e = cc

pub layers_from-ok_suc :
    (fuel : ℕ) (ss : List PlanStep) (remaining : Remaining) (layers : List (List PlanStep))
    → layers_from (suc fuel) ss remaining ≡ ok layers
    → ((is_empty remaining ≡ true) × (layers ≡ []))
      ⊎ ((is_empty (ready_ids remaining) ≡ false)
          × ((l : List PlanStep) × (rest : List (List PlanStep)) × (layers ≡ l ∷ rest)
              × (layers_from fuel ss (clear (sorted_ids (ready_ids remaining)) remaining)
                  ≡ ok rest)))
unfolding layers_from
layers_from-ok_suc fuel ss [] layers e = inl (refl, sym (ok_inj e))
layers_from-ok_suc fuel ss (r ∷ remaining) layers e = inr (
    next_layer-ok (is_empty (ready_ids (r ∷ remaining)))
      (steps_of ss (sorted_ids (ready_ids (r ∷ remaining))))
      (layers_from fuel ss (clear (sorted_ids (ready_ids (r ∷ remaining))) (r ∷ remaining))) e)
