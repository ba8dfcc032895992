-- ===== src/Service/RateLimit/History.antt =====
-- The limiter, which forgets old requests, against a reference that keeps them all.
use realityai_agents.Prelude.{
  ℕ, String, ◌≡◌, refl, sym, ap, ◌∙◌, ◌≤◌, ◌==◌, eq_iff, Bool, true, false, List, [], ◌∷◌, ◌++◌,
  arith, leb, length, append_nil, lookup, keep, Bool-cases, inl, inr, if◌then◌else◌,
}
use realityai_agents.Service.Cache.{store_at}
use realityai_agents.Service.Cache.Index.{lookup-store_at}
use realityai_agents.Service.RateLimit.{Limiter, new_limiter, times_of, recent, is_rate_limited}

module _ {A : Type 0} (p q : A → Bool) where
  keep-append : (xs ys : List A) → keep p (xs ++ ys) ≡ keep p xs ++ keep p ys
  keep-append [] ys = refl
  keep-append (x ∷ xs) ys = ground (arith, keep-append xs ys)

  keep-keep : ((x : A) → p x ≡ true → q x ≡ true) → (xs : List A) → keep p (keep q xs) ≡ keep p xs
  keep-keep h [] = refl
  keep-keep h (x ∷ xs) = ground (arith, h x, keep-keep h xs)

-- Every accepted request, with its key and its time.
abbrev pub History : Type 0
History = List (String × ℕ)

abbrev pub times : String → History → List ℕ
times key [] = []
times key ((k, t) ∷ h) = let rest = times key h in if k == key then t ∷ rest else rest

-- The reference: limited if so many requests of the key were accepted in the window.
abbrev pub over_limit : ℕ → ℕ → ℕ → String → History → Bool
over_limit rpm window now key h = leb rpm (length (keep (recent window now) (times key h)))

abbrev pub record_request : ℕ → ℕ → ℕ → String → History → History
record_request rpm window now key h =
    if over_limit rpm window now key h then h else h ++ (key, now) ∷ []

-- The answers of the two, on requests in the order of their times.
abbrev pub answers : List (ℕ × String) → Limiter → List Bool
answers [] l = []
answers ((now, key) ∷ rs) l =
    let (limited, l') = is_rate_limited now key l in limited ∷ answers rs l'

abbrev pub reference : ℕ → ℕ → List (ℕ × String) → History → List Bool
reference rpm window [] h = []
reference rpm window ((now, key) ∷ rs) h =
    over_limit rpm window now key h ∷ reference rpm window rs (record_request rpm window now key h)

abbrev pub InOrder : ℕ → List (ℕ × String) → Type 0
InOrder start [] = Unit
InOrder start ((now, key) ∷ rs) = (start ≤ now) × InOrder now rs

times-snoc :
    (key k : String) (t : ℕ) (h : History)
    → times key (h ++ (k, t) ∷ []) ≡ times key h ++ (if k == key then t ∷ [] else [])
times-snoc key k t [] = ground arith
times-snoc key k t ((j, u) ∷ h) = ground (arith, times-snoc key k t h)

-- The limiter has of each key the accepted times that lie in the window.
abbrev Tracks : ℕ → Limiter → History → Type 0
Tracks now l h =
    (key : String)
    → keep (recent l.window now) (times_of (lookup key l.requests))
      ≡ keep (recent l.window now) (times key h)

module _ (window now later : ℕ) (le : now ≤ later) where
  recent_later : (t : ℕ) → recent window later t ≡ true → recent window now t ≡ true
  recent_later t h = ground arith

  -- What agrees in a window agrees in a later one.
  keep_later :
      (xs ys : List ℕ)
      → keep (recent window now) xs ≡ keep (recent window now) ys
      → keep (recent window later) xs ≡ keep (recent window later) ys
  keep_later xs ys e =
      sym (keep-keep (recent window later) (recent window now) recent_later xs)
      ∙ ap (keep (recent window later)) e
      ∙ keep-keep (recent window later) (recent window now) recent_later ys

-- The limiter after an answer, where `ts` is what it keeps of the key.
abbrev kept_at : String → List ℕ → Limiter → Limiter
kept_at key ts l = record l { requests = store_at key ts l.requests }

module _ (now : ℕ) (key : String) (l : Limiter) (h : History) (tracks : Tracks now l h) where
  is_rate_limited-over :
      over_limit l.rpm l.window now key h ≡ true
      → is_rate_limited now key l ≡ (true, kept_at key (keep (recent l.window now) (times key h)) l)
  unfolding is_rate_limited
  is_rate_limited-over over = rw (tracks key, over) refl

  is_rate_limited-under :
      over_limit l.rpm l.window now key h ≡ false
      → is_rate_limited now key l
        ≡ (false, kept_at key (keep (recent l.window now) (times key h) ++ now ∷ []) l)
  unfolding is_rate_limited
  is_rate_limited-under under = rw (tracks key, under) refl

  over-Tracks : Tracks now (kept_at key (keep (recent l.window now) (times key h)) l) h
  over-Tracks = λ j.
      rw (lookup-store_at key j (keep (recent l.window now) (times key h)) l.requests)
        (elim (Bool-cases (key == j)) [
          | inl same ↦
              rw (same, ← (eq_iff key j).0 same)
                (keep-keep (recent l.window now) (recent l.window now) (λ t h. h) (times key h))
          | inr other ↦ rw other (tracks j)
        ])

  under-Tracks :
      Tracks now
        (kept_at key (keep (recent l.window now) (times key h) ++ now ∷ []) l)
        (h ++ (key, now) ∷ [])
  under-Tracks = λ j.
      rw
        (
          lookup-store_at key j (keep (recent l.window now) (times key h) ++ now ∷ []) l.requests,
          times-snoc j key now h,
        )
        (elim (Bool-cases (key == j)) [
          | inl same ↦
              rw
                (
                  same,
                  ← (eq_iff key j).0 same,
                  keep-append (recent l.window now) (recent l.window now)
                      (keep (recent l.window now) (times key h)) (now ∷ []),
                  keep-append (recent l.window now) (recent l.window now) (times key h) (now ∷ []),
                  keep-keep (recent l.window now) (recent l.window now) (λ t h. h) (times key h),
                )
                refl
          | inr other ↦ rw (other, append_nil (times j h)) (tracks j)
        ])

answers-reference_from :
    (rs : List (ℕ × String)) (start : ℕ) (l : Limiter) (h : History)
    → InOrder start rs
    → Tracks start l h
    → answers rs l ≡ reference l.rpm l.window rs h
answers-reference_from [] start l h order tracks = refl
answers-reference_from ((now, key) ∷ rs) start l h (le, order) tracks =
    let here : Tracks now l h = λ j. keep_later l.window start now le _ _ (tracks j) in
    elim (Bool-cases (over_limit l.rpm l.window now key h)) [
      | inl over ↦
          rw (is_rate_limited-over now key l h here over, over)
            (ap (λ r. true ∷ r)
              (answers-reference_from rs now _ h order (over-Tracks now key l h here)))
      | inr under ↦
          rw (is_rate_limited-under now key l h here under, under)
            (ap (λ r. false ∷ r)
              (answers-reference_from rs now _ _ order (under-Tracks now key l h here)))
    ]

-- On any requests in the order of their times, a new limiter answers each one as the reference
-- that never forgets does: the request is limited if and only if at least `rpm` requests of the
-- same key were let through in the window before it. Limited requests do not count.
pub answers-reference :
    (rpm window start : ℕ) (rs : List (ℕ × String))
    → InOrder start rs
    → answers rs (new_limiter rpm window) ≡ reference rpm window rs []
answers-reference rpm window start rs order =
    answers-reference_from rs start (new_limiter rpm window) [] order (λ j. refl)
