-- ===== src/Inner/Pattern/Language.antt =====
-- The matcher of Inner/Pattern.antt against its description.
use realityai_agents.Prelude.{
  ℕ, zero, suc, ◌≤◌, ◌≡◌, refl, ap, ◌⊎◌, inl, inr, ◌↔◌, Bool, true, List, [], ◌∷◌, ◌++◌, arith, all,
  length, Bool-cases,
}
use realityai_agents.Inner.Pattern.{Piece, repeat, match_pieces, Reads, at_end}

-- A split of a text into a stretch of the class, of a length in the bounds, and what `k` accepts.
abbrev Split : (ℕ → Bool) → ℕ → ℕ → (List ℕ → Bool) → List ℕ → Type 0
Split cls lo hi k cs =
    (front : List ℕ) × (back : List ℕ) × (cs ≡ front ++ back)
    × (all cls front ≡ true)
    × (lo ≤ length front)
    × (length front ≤ hi)
    × (k back ≡ true)

Split-cons :
    (cls : ℕ → Bool) (lo lo' hi : ℕ) (k : List ℕ → Bool) (c : ℕ) (cs : List ℕ)
    → lo' ≤ suc lo
    → cls c ≡ true
    → Split cls lo hi k cs
    → Split cls lo' (suc hi) k (c ∷ cs)
Split-cons cls lo lo' hi k c cs low h (front, back, e, a, l, u, r) =
    (c ∷ front, back, ap (◌∷◌ c) e, rw h a, omega arith, omega arith, r)

repeat-Split :
    (cls : ℕ → Bool) (lo hi : ℕ) (k : List ℕ → Bool) (cs : List ℕ)
    → repeat cls lo hi k cs ≡ true
    → Split cls lo hi k cs
unfolding repeat
repeat-Split cls zero zero k cs h = ([], cs, refl, refl, omega arith, omega arith, h)
repeat-Split cls zero (suc hi) k [] h = ([], [], refl, refl, omega arith, omega arith, h)
repeat-Split cls zero (suc hi) k (c ∷ cs) h = elim (Bool-cases (k (c ∷ cs))) [
  | inl stop ↦ ([], c ∷ cs, refl, refl, omega arith, omega arith, stop)
  | inr go ↦
      Split-cons cls zero zero hi k c cs (omega arith) (ground arith)
        (repeat-Split cls zero hi k cs (ground arith))
]
repeat-Split cls (suc lo) zero k cs h = cc
repeat-Split cls (suc lo) (suc hi) k [] h = cc
repeat-Split cls (suc lo) (suc hi) k (c ∷ cs) h =
    Split-cons cls lo (suc lo) hi k c cs (omega arith) (ground arith)
      (repeat-Split cls lo hi k cs (ground arith))

repeat-append :
    (cls : ℕ → Bool) (lo hi : ℕ) (k : List ℕ → Bool) (front back : List ℕ)
    → all cls front ≡ true
    → lo ≤ length front
    → length front ≤ hi
    → k back ≡ true
    → repeat cls lo hi k (front ++ back) ≡ true
unfolding repeat
repeat-append cls zero zero k [] back a l u h = h
repeat-append cls zero zero k (c ∷ front) back a l u h = absurd (omega arith)
repeat-append cls zero (suc hi) k [] [] a l u h = h
repeat-append cls zero (suc hi) k [] (c ∷ back) a l u h = ground arith
repeat-append cls zero (suc hi) k (c ∷ front) back a l u h =
    ground (arith, repeat-append cls zero hi k front back)
repeat-append cls (suc lo) zero k [] back a l u h = absurd (omega arith)
repeat-append cls (suc lo) zero k (c ∷ front) back a l u h = absurd (omega arith)
repeat-append cls (suc lo) (suc hi) k [] back a l u h = absurd (omega arith)
repeat-append cls (suc lo) (suc hi) k (c ∷ front) back a l u h =
    ground (arith, repeat-append cls lo hi k front back)

at_end_iff : (cs : List ℕ) → (at_end cs ≡ true) ↔ ((cs ≡ []) ⊎ (cs ≡ 10 ∷ []))
at_end_iff [] = (λ _. inl refl, λ _. refl)
at_end_iff (c ∷ []) = (
  λ h. inr (let e : c ≡ 10 = ground arith in rw e),
  λ s. elim s [ inl e ↦ cc | inr e ↦ ground arith ],
)
at_end_iff (c ∷ d ∷ cs) = (λ h. cc, λ s. elim s [ inl e ↦ cc | inr e ↦ cc ])

match_pieces-Reads : (ps : List Piece) (cs : List ℕ) → match_pieces ps cs ≡ true → Reads ps cs
unfolding match_pieces
match_pieces-Reads [] cs h = (at_end_iff cs).0 h
match_pieces-Reads (p ∷ ps) cs h =
    let (front, back, e, a, l, u, r) = repeat-Split p.cls p.lo p.hi (match_pieces ps) cs h in
    (front, back, e, a, l, u, match_pieces-Reads ps back r)

Reads-match_pieces : (ps : List Piece) (cs : List ℕ) → Reads ps cs → match_pieces ps cs ≡ true
unfolding match_pieces
Reads-match_pieces [] cs h = (at_end_iff cs).1 h
Reads-match_pieces (p ∷ ps) cs (front, back, e, a, l, u, r) = rw e (
    repeat-append p.cls p.lo p.hi (match_pieces ps) front back a l u (Reads-match_pieces ps back r))

-- The matcher accepts exactly the texts that fall into one stretch for each piece of the pattern, of
-- its class and with a length in its bounds, followed by nothing or by a single newline.
pub match_pieces_iff : (ps : List Piece) (cs : List ℕ) → (match_pieces ps cs ≡ true) ↔ Reads ps cs
match_pieces_iff ps cs = (match_pieces-Reads ps cs, Reads-match_pieces ps cs)
