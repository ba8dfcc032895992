-- ===== src/Inner/Pattern.antt =====
-- The regular expressions of agent-core/safety/inner/parameter_validation.py (lines 100 to 102):
-- character classes with a least and a greatest number of repeats, between `^` and `$`.
-- `$` also holds in front of a newline that ends the text.
pub mod Language
use realityai_agents.Prelude.{
  ℕ, zero, suc, ◌≤◌, ◌≡◌, refl, ◌⊎◌, inl, inr, ◌↔◌, Bool, true, false, ◌&&◌, ◌||◌, List, [], ◌∷◌,
  ◌++◌, arith, eqb, all, length, ap,
}

pub record Piece : Type 0 where
  pub cls : ℕ → Bool
  pub lo : ℕ
  pub hi : ℕ

-- `cls{lo,hi}` and then the rest of the pattern, with the engine's choice of the count.
pub repeat : (ℕ → Bool) → ℕ → ℕ → (List ℕ → Bool) → List ℕ → Bool
repeat cls zero zero k cs = k cs
repeat cls zero (suc hi) k [] = k []
repeat cls zero (suc hi) k (c ∷ cs) = cls c && repeat cls zero hi k cs || k (c ∷ cs)
repeat cls (suc lo) zero k cs = false
repeat cls (suc lo) (suc hi) k [] = false
repeat cls (suc lo) (suc hi) k (c ∷ cs) = cls c && repeat cls lo hi k cs

abbrev pub at_end : List ℕ → Bool
at_end [] = true
at_end (c ∷ []) = eqb c 10
at_end (c ∷ d ∷ cs) = false

unfoldable pub match_pieces : List Piece → List ℕ → Bool
unfolding repeat
match_pieces [] cs = at_end cs
match_pieces (p ∷ ps) cs = repeat p.cls p.lo p.hi (match_pieces ps) cs

-- A text that a pattern describes: one stretch for each piece, and at most a newline behind them.
abbrev pub Reads : List Piece → List ℕ → Type 0
Reads [] cs = (cs ≡ []) ⊎ (cs ≡ 10 ∷ [])
Reads (p ∷ ps) cs =
    (front : List ℕ) × (back : List ℕ) × (cs ≡ front ++ back)
    × (all p.cls front ≡ true)
    × (p.lo ≤ length front)
    × (length front ≤ p.hi)
    × Reads ps back
