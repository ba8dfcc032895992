-- ===== src/Planning/Plan/Layers/Counts.antt =====
-- Counting in lists of step ids.
use realityai_agents.Prelude.{
  ℕ, ◌+◌, ◌≤◌, ◌≡◌, refl, ◌↔◌, arith, true, false, List, [], ◌∷◌, ◌++◌, is_empty, length,
}
use realityai_agents.Planning.Plan.{has}
use realityai_agents.Planning.Plan.Graph.{mult, NoDup}
use realityai_agents.Planning.Plan.Layers.{place, sorted_ids}

mult-place : (w n : ℕ) (ms : List ℕ) → mult w (place n ms) ≡ mult w (n ∷ ms)
mult-place w n [] = refl
mult-place w n (m ∷ ms) = ground (arith, mult-place w n ms)

pub mult-sorted_ids : (w : ℕ) (ns : List ℕ) → mult w (sorted_ids ns) ≡ mult w ns
mult-sorted_ids w [] = refl
mult-sorted_ids w (n ∷ ns) = omega (arith, mult-place w n (sorted_ids ns), mult-sorted_ids w ns)

pub has-mult_iff : (w : ℕ) (ns : List ℕ) → (has w ns ≡ true) ↔ (1 ≤ mult w ns)
has-mult_iff w [] = ground arith
has-mult_iff w (n ∷ ns) = ground (arith, has-mult_iff w ns)

pub mult_unique : (w : ℕ) (ns : List ℕ) → NoDup ns → mult w ns ≤ 1
mult_unique w [] h = omega arith
mult_unique w (n ∷ ns) h = ground (arith, mult_unique w ns h.1, has-mult_iff w ns, h.0)

pub mult-append : (w : ℕ) (ms ns : List ℕ) → mult w (ms ++ ns) ≡ mult w ms + mult w ns
mult-append w [] ns = omega arith
mult-append w (m ∷ ms) ns = omega (arith, mult-append w ms ns)

pub is_empty_eq {ℓ} : {A : Type ℓ} (xs : List A) → is_empty xs ≡ true → xs ≡ []
is_empty_eq [] h = refl
is_empty_eq (x ∷ xs) h = cc

pub empty_eq {ℓ} : {A : Type ℓ} (xs : List A) → length xs ≡ 0 → xs ≡ []
empty_eq [] h = refl
empty_eq (x ∷ xs) h = absurd (omega arith)

pub length_empty {ℓ} : {A : Type ℓ} (xs : List A) → is_empty xs ≡ true → length xs ≡ 0
length_empty [] h = refl
length_empty (x ∷ xs) h = cc

pub length_left {ℓ} : {A : Type ℓ} (xs : List A) → is_empty xs ≡ false → 1 ≤ length xs
length_left [] h = cc
length_left (x ∷ xs) h = omega arith

pub has-left : (w : ℕ) (ns : List ℕ) → has w ns ≡ true → is_empty ns ≡ false
has-left w [] h = cc
has-left w (n ∷ ns) h = refl
