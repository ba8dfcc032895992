-- ===== src/Prelude/Lists.antt =====
-- Lists with native lengths, tests over lists, and association lists for Python's `dict`.
use Prim.Native.Nat.{ℕ, suc, ◌+◌}
use Prim.Native.String.{String}
use mathlib.Core.Path.{◌≡◌, refl, ap}
use mathlib.Core.Logic.{◌⊎◌, inl, inr, ◌↔◌}
use mathlib.Core.Bool.{Bool, true, false, ◌&&◌, ◌||◌}
use mathlib.Core.List.{List, [], ◌∷◌, ◌++◌, map}
use mathlib.Core.Option.{Option, none, some}
use native.Mathlib.Omega.{arith}
use text.Mathlib.Text.{◌==◌}
use realityai_agents.Prelude.Tests.{if◌then◌else◌, if_elim}

module _ {ℓ} {A : Type ℓ} where
  abbrev pub length : List A → ℕ
  length [] = 0
  length (x ∷ xs) = suc (length xs)

  pub length-append : (xs ys : List A) → length (xs ++ ys) ≡ length xs + length ys
  length-append [] ys = omega arith
  length-append (x ∷ xs) ys = omega (arith, length-append xs ys)

  pub append_nil : (xs : List A) → xs ++ [] ≡ xs
  append_nil [] = refl
  append_nil (x ∷ xs) = ap (λ r. x ∷ r) (append_nil xs)

  pub append_assoc : (xs ys zs : List A) → (xs ++ ys) ++ zs ≡ xs ++ (ys ++ zs)
  append_assoc [] ys zs = refl
  append_assoc (x ∷ xs) ys zs = ap (λ r. x ∷ r) (append_assoc xs ys zs)

  abbrev pub all : (A → Bool) → List A → Bool
  all p [] = true
  all p (x ∷ xs) = p x && all p xs

  abbrev pub any : (A → Bool) → List A → Bool
  any p [] = false
  any p (x ∷ xs) = p x || any p xs

  -- A Python comprehension `[x for x in xs if p(x)]`.
  abbrev pub keep : (A → Bool) → List A → List A
  keep p [] = []
  keep p (x ∷ xs) = let rest = keep p xs in if p x then x ∷ rest else rest

  abbrev pub is_empty : List A → Bool
  is_empty [] = true
  is_empty (x ∷ xs) = false

module _ {ℓ κ} {A : Type ℓ} (P : A → Type κ) where
  abbrev pub All : List A → Type κ
  All [] = Unit
  All (x ∷ xs) = P x × All xs

module _ {ℓ κ} {A : Type ℓ} (P : A → Type κ) where
  pub All-append : (xs ys : List A) → All P xs → All P ys → All P (xs ++ ys)
  All-append [] ys h k = k
  All-append (x ∷ xs) ys h k = (h.0, All-append xs ys h.1 k)

  pub All-map {μ} :
      {B : Type μ} (f : B → A) (xs : List B) → All (λ x. P (f x)) xs → All P (map f xs)
  All-map f [] h = tt
  All-map f (x ∷ xs) h = (h.0, All-map f xs h.1)

  pub All-imp {μ} : (Q : A → Type μ) → ((x : A) → P x → Q x) → (xs : List A) → All P xs → All Q xs
  All-imp Q f [] h = tt
  All-imp Q f (x ∷ xs) h = (f x h.0, All-imp Q f xs h.1)

  pub All-both {μ} : (Q : A → Type μ) (xs : List A) → All P xs → All Q xs → All (λ x. P x × Q x) xs
  All-both Q [] h k = tt
  All-both Q (x ∷ xs) h k = ((h.0, k.0), All-both Q xs h.1 k.1)

  pub All-keep : (p : A → Bool) (xs : List A) → All P xs → All P (keep p xs)
  All-keep p [] h = tt
  All-keep p (x ∷ xs) h = if_elim (All P) (p x) _ _ (h.0, All-keep p xs h.1) (All-keep p xs h.1)

-- A test that no element passes.
pub any-All_iff {ℓ κ} :
    {A : Type ℓ} {p : A → Bool} {P : A → Type κ}
    → ((x : A) → (p x ≡ false) ↔ P x)
    → (xs : List A) → (any p xs ≡ false) ↔ All P xs
any-All_iff h [] = (λ e. tt, λ e. refl)
any-All_iff h (x ∷ xs) = ground (arith, h x, any-All_iff h xs)

module _ {ℓ} {A : Type ℓ} (P : A → Type 0) where
  -- Some element has the property.
  abbrev pub Any : List A → Type 0
  Any [] = ⊥
  Any (x ∷ xs) = P x ⊎ Any xs

  pub Any-append_left : (xs ys : List A) → Any xs → Any (xs ++ ys)
  Any-append_left [] ys h = absurd h
  Any-append_left (x ∷ xs) ys (inl h) = inl h
  Any-append_left (x ∷ xs) ys (inr h) = inr (Any-append_left xs ys h)

  pub Any-append_right : (xs ys : List A) → Any ys → Any (xs ++ ys)
  Any-append_right [] ys h = h
  Any-append_right (x ∷ xs) ys h = inr (Any-append_right xs ys h)

module _ {ℓ} {A : Type ℓ} (P : A → Type 0) where
  pub Any-map {μ} :
      {B : Type μ} (f : B → A) (xs : List B) → Any (λ x. P (f x)) xs → Any P (map f xs)
  Any-map f [] h = absurd h
  Any-map f (x ∷ xs) (inl h) = inl h
  Any-map f (x ∷ xs) (inr h) = inr (Any-map f xs h)

  pub Any-imp : (Q : A → Type 0) → ((x : A) → P x → Q x) → (xs : List A) → Any P xs → Any Q xs
  Any-imp Q f [] h = absurd h
  Any-imp Q f (x ∷ xs) (inl h) = inl (f x h)
  Any-imp Q f (x ∷ xs) (inr h) = inr (Any-imp Q f xs h)

-- `k in keys`, for a list or a set of texts.
abbrev pub contains : String → List String → Bool
contains k [] = false
contains k (j ∷ js) = j == k || contains k js

module _ {ℓ} {V : Type ℓ} where
  -- `d.get(k)`; the first entry of a key is the one that counts.
  abbrev pub lookup : String → List (String × V) → Option V
  lookup k [] = none
  lookup k ((j, v) ∷ d) = if j == k then some v else lookup k d

  -- `d.keys()`
  abbrev pub keys : List (String × V) → List String
  keys [] = []
  keys ((j, v) ∷ d) = j ∷ keys d
