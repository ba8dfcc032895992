-- ===== src/Planning/Syllabus/Dedup.antt =====
-- The documents that `_query_syllabus_rag` keeps of all queries.
use mathlib.Core.List.{Memᴰ}
use mathlib.Core.List.Memᴰ.{head, tail}
use realityai_agents.Prelude.{
  ℕ, ◌≡◌, refl, sym, ap, subst, ◌∙◌, arith, String, Bool, true, false, ◌&&◌, ◌==◌, eq_iff, inl, inr,
  Option, List, [], ◌∷◌, if_elim, eqb, Bool-cases, All, All-imp,
}
use realityai_agents.Python.{ok, >>=-ok, ok_inj}
use realityai_agents.Planning.Outputs.{Param, Document, StepEnv}
use realityai_agents.Planning.Syllabus.{doc_key, same_doc, put_best, put_all, retrieve_all}

-- What the scores' comparison is relied on for: no two scores are below each other, and "not below" is
-- transitive, as for floats that are numbers.
pub record IsRanking {R : Type 0} (below : R → R → Bool) : Type 0 where
  pub asym : (x y : R) → below x y ≡ true → below y x ≡ false
  pub trans : (x y z : R) → below x y ≡ false → below y z ≡ false → below x z ≡ false

eqb-eq : (m n : ℕ) → eqb m n ≡ true → m ≡ n
eqb-eq m n h = ground arith

both_true : (a b : Bool) → (a && b) ≡ true → (a ≡ true) × (b ≡ true)
both_true a b h = ground arith

pub pair_eq : (k l : String × ℕ) → k.0 ≡ l.0 → k.1 ≡ l.1 → k ≡ l
pair_eq (a, m) (b, n) p q = ap (λ x. (x, m)) p ∙ ap (λ x. (b, x)) q

module _ {R : Type 0} where
  pub same_doc-eq : (d e : Document R) → same_doc d e ≡ true → doc_key d ≡ doc_key e
  same_doc-eq d e h =
      let (p, q) = both_true _ _ h in
      pair_eq (doc_key d) (doc_key e) ((eq_iff (doc_key d).0 (doc_key e).0).0 p) (eqb-eq _ _ q)

  pub same_doc_refl : (d : Document R) → same_doc d d ≡ true
  same_doc_refl d = rw ((eq_iff (doc_key d).0 (doc_key d).0).1 refl) (itself (doc_key d).1)
    where
      itself : (n : ℕ) → (true && eqb n n) ≡ true
      itself n = ground arith

  pub same_doc-left : (d e f : Document R) → doc_key d ≡ doc_key e → same_doc d f ≡ same_doc e f
  same_doc-left d e f p = ap (λ k. (k.0 == (doc_key f).0) && eqb k.1 (doc_key f).1) p

  -- No two documents have one key.
  abbrev pub Distinct : List (Document R) → Type 0
  Distinct [] = Unit
  Distinct (d ∷ ds) = All (λ e. same_doc d e ≡ false) ds × Distinct ds

module _ {R : Type 0} (env : StepEnv R) where
  All-put_best :
      (P : Document R → Type 0) (d : Document R) (ds : List (Document R))
      → P d
      → All P ds
      → All P (put_best env d ds)
  All-put_best P d [] h k = (h, tt)
  All-put_best P d (e ∷ es) h k =
      if_elim (All P) (same_doc e d) _ _
        (if_elim (All P) (env.rank_below e.score d.score) _ _ (h, k.1) k)
        (k.0, All-put_best P d es h k.1)

  put_best-Distinct :
      (d : Document R) (ds : List (Document R)) → Distinct ds → Distinct (put_best env d ds)
  put_best-Distinct d [] h = (tt, tt)
  put_best-Distinct d (e ∷ es) h = elim (Bool-cases (same_doc e d)) [
    | inl same ↦
        let keys = same_doc-eq e d same in
        rw same (
          if_elim Distinct (env.rank_below e.score d.score) (d ∷ es) (e ∷ es)
            (
              All-imp (λ f. same_doc e f ≡ false) (λ f. same_doc d f ≡ false)
                  (λ f k. same_doc-left d e f (sym keys) ∙ k) es h.0,
              h.1,
            )
            h)
    | inr other ↦
        rw other
          (All-put_best (λ f. same_doc e f ≡ false) d es other h.0, put_best-Distinct d es h.1)
  ]

  -- A document that is kept has the key of `d`, and no lower score.
  abbrev pub Kept : List (Document R) → Document R → Type 0
  Kept best d =
      (e : Document R) × Memᴰ e best
      × (same_doc e d ≡ true)
      × (env.rank_below e.score d.score ≡ false)

  Kept-tail :
      (f : Document R) (ds : List (Document R)) (d : Document R) → Kept ds d → Kept (f ∷ ds) d
  Kept-tail f ds d (e, m, k, h) = (e, tail m, k, h)

  module _ (ranking : IsRanking env.rank_below) where
    irrefl : (x : R) → env.rank_below x x ≡ false
    irrefl x = elim (Bool-cases (env.rank_below x x)) [ inl h ↦ ranking.asym x x h | inr h ↦ h ]

    put_best-Kept_self : (d : Document R) (ds : List (Document R)) → Kept (put_best env d ds) d
    put_best-Kept_self d [] = (d, head refl, same_doc_refl d, irrefl d.score)
    put_best-Kept_self d (e ∷ es) = elim (Bool-cases (same_doc e d)) [
      | inl same ↦ elim (Bool-cases (env.rank_below e.score d.score)) [
        | inl less ↦ rw (same, less) (d, head refl, same_doc_refl d, irrefl d.score)
        | inr enough ↦ rw (same, enough) (e, head refl, same, enough)
      ]
      | inr other ↦ rw other (Kept-tail e _ d (put_best-Kept_self d es))
    ]

    put_best-Kept :
        (d : Document R) (ds : List (Document R)) (x : Document R)
        → Kept ds x
        → Kept (put_best env d ds) x
    put_best-Kept d [] x (e, m, k, h) = elim m [ ]
    put_best-Kept d (e ∷ es) x (f, tail m, k, h) = elim (Bool-cases (same_doc e d)) [
      | inl same ↦ rw same (
          if_elim (λ l. Kept l x) (env.rank_below e.score d.score) (d ∷ es) (e ∷ es)
            (f, tail m, k, h) (f, tail m, k, h))
      | inr other ↦ rw other (Kept-tail e _ x (put_best-Kept d es x (f, m, k, h)))
    ]
    put_best-Kept d (e ∷ es) x (f, head q, k, h) = elim (Bool-cases (same_doc e d)) [
      | inl same ↦ elim (Bool-cases (env.rank_below e.score d.score)) [
        | inl less ↦
            rw (same, less)
              (
                d,
                head refl,
                same_doc-left d e x (sym (same_doc-eq e d same))
                    ∙ subst (λ y. same_doc y x ≡ true) q k,
                ranking.trans d.score e.score x.score (ranking.asym e.score d.score less)
                    (subst (λ (y : Document R). env.rank_below y.score x.score ≡ false) q h),
              )
        | inr enough ↦ rw (same, enough) (f, head q, k, h)
      ]
      | inr other ↦ rw other (f, head q, k, h)
    ]

    put_all-Distinct :
        (ds best : List (Document R)) → Distinct best → Distinct (put_all env ds best)
    put_all-Distinct [] best h = h
    put_all-Distinct (d ∷ ds) best h =
        put_all-Distinct ds (put_best env d best) (put_best-Distinct d best h)

    put_all-Kept :
        (ds best : List (Document R)) (x : Document R) → Kept best x → Kept (put_all env ds best) x
    put_all-Kept [] best x h = h
    put_all-Kept (d ∷ ds) best x h =
        put_all-Kept ds (put_best env d best) x (put_best-Kept d best x h)

    put_all-Kept_each : (ds best : List (Document R)) → All (Kept (put_all env ds best)) ds
    put_all-Kept_each [] best = tt
    put_all-Kept_each (d ∷ ds) best = (
      put_all-Kept ds (put_best env d best) d (put_best-Kept_self d best),
      put_all-Kept_each ds (put_best env d best),
    )

    pub retrieve_all-Kept :
        (course : Option String) (qs : List (Param R)) (best out : List (Document R))
        → retrieve_all env course qs best ≡ ok out
        → Distinct best
        → Distinct out
          × ((x : Document R) → Kept best x → Kept out x)
          × ((q : Param R) (ds : List (Document R))
              → Memᴰ q qs
              → env.retrieve q course ≡ ok ds
              → All (Kept out) ds)
    retrieve_all-Kept course [] best out e h =
        subst
          (λ o.
            Distinct o
            × ((x : Document R) → Kept best x → Kept o x)
            × ((q : Param R) (ds : List (Document R))
                → Memᴰ q []
                → env.retrieve q course ≡ ok ds
                → All (Kept o) ds))
          (ok_inj e) (h, (λ x k. k), λ q ds m k. elim m [ ])
    retrieve_all-Kept course (p ∷ qs) best out e h =
        let (ds, found, later) = >>=-ok (env.retrieve p course) _ e in
        let (distinct, kept, each) =
          retrieve_all-Kept course qs (put_all env ds best) out later
            (put_all-Distinct ds best h) in
        (
          distinct,
          (λ x k. kept x (put_all-Kept ds best x k)),
          λ q es m k. elim m [
            | head same ↦
                subst (All (Kept out))
                  (ok_inj (sym found ∙ ap (λ y. env.retrieve y course) (sym same) ∙ k))
                  (All-imp (Kept (put_all env ds best)) (Kept out) kept ds
                    (put_all-Kept_each ds best))
            | tail n ↦ each q es n k
          ],
        )

  -- What holds of all that is found holds of all that is kept.
  All-put_all :
      (P : Document R → Type 0) (ds best : List (Document R))
      → All P ds
      → All P best
      → All P (put_all env ds best)
  All-put_all P [] best h k = k
  All-put_all P (d ∷ ds) best h k =
      All-put_all P ds (put_best env d best) h.1 (All-put_best P d best h.0 k)

  pub All-retrieve_all :
      (P : Document R → Type 0) (course : Option String) (qs : List (Param R))
      (best out : List (Document R))
      → retrieve_all env course qs best ≡ ok out
      → ((q : Param R) (ds : List (Document R))
          → Memᴰ q qs
          → env.retrieve q course ≡ ok ds
          → All P ds)
      → All P best
      → All P out
  All-retrieve_all P course [] best out e h k = subst (All P) (ok_inj e) k
  All-retrieve_all P course (q ∷ qs) best out e h k =
      let (ds, found, later) = >>=-ok (env.retrieve q course) _ e in
      All-retrieve_all P course qs (put_all env ds best) out later (λ r es m. h r es (tail m))
        (All-put_all P ds best (h q ds (head refl) found) k)
