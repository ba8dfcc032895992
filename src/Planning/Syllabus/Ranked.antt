-- ===== src/Planning/Syllabus/Ranked.antt =====
-- What `_query_syllabus_rag` returns: the kept documents, ranked.
use mathlib.Core.List.{Memᴰ}
use mathlib.Core.List.Memᴰ.{head, tail}
use realityai_agents.Prelude.{
  ◌≡◌, refl, sym, ap, subst, ◌∙◌, String, ◌==◌, eq_iff, none, some, false, inl, inr, Option, List,
  [], ◌∷◌, map, if_elim, Bool-cases, All, All-imp,
}
use mathlib.Core.Bool.{false≢true}
use realityai_agents.Python.{ok, >>=-ok, ok_inj}
use realityai_agents.Planning.Outputs.{SyllabusChunk, Output, chunks, Param, Document, StepEnv}
use realityai_agents.Planning.Params.{Params, param_or_blank}
use realityai_agents.Planning.Syllabus.{
  doc_key, same_doc, retrieve_all, insert_by_score, by_score, chunk_of, primary_query, expansions,
  upper_or_none, query_syllabus_rag,
}
use realityai_agents.Planning.Syllabus.Dedup.{
  IsRanking, Distinct, Kept, same_doc-eq, same_doc_refl, same_doc-left, pair_eq, retrieve_all-Kept,
  All-retrieve_all,
}

module _ {R : Type 0} where
  same_doc_sym : (d e : Document R) → same_doc d e ≡ false → same_doc e d ≡ false
  same_doc_sym d e h = elim (Bool-cases (same_doc e d)) [
    | inl same ↦
        absurd
          (false≢true (sym h ∙ same_doc-left d e e (sym (same_doc-eq e d same)) ∙ same_doc_refl e))
    | inr other ↦ other
  ]

  -- Two documents are the same where they have one id that is not empty, or are one object.
  abbrev pub IsSame : Document R → Document R → Type 0
  IsSame d e = (d.doc_id ≡ e.doc_id) × (d.doc_id ≡ "" → d.identity ≡ e.identity)

  abbrev pub Once : List (Document R) → Type 0
  Once [] = Unit
  Once (d ∷ ds) = All (λ e. ¬ IsSame d e) ds × Once ds

  identity_of-blank : (d : Document R) → d.doc_id ≡ "" → (doc_key d).1 ≡ d.identity
  identity_of-blank d blank = rw ((eq_iff d.doc_id "").1 blank) refl

  identity_of-named : (d : Document R) → (d.doc_id == "") ≡ false → (doc_key d).1 ≡ 0
  identity_of-named d named = rw named refl

  identity_eq :
      (d e : Document R)
      → d.doc_id ≡ e.doc_id
      → (d.doc_id ≡ "" → d.identity ≡ e.identity)
      → (doc_key d).1 ≡ (doc_key e).1
  identity_eq d e p q = elim (Bool-cases (d.doc_id == "")) [
    | inl empty ↦
        let blank = (eq_iff d.doc_id "").0 empty in
        identity_of-blank d blank ∙ q blank ∙ sym (identity_of-blank e (sym p ∙ blank))
    | inr named ↦
        identity_of-named d named
        ∙ sym (identity_of-named e (subst (λ t. (t == "") ≡ false) p named))
  ]

  key-IsSame : (d e : Document R) → doc_key d ≡ doc_key e → IsSame d e
  key-IsSame d e p = (
    ap (λ k. k.0) p,
    λ blank.
        let other = sym (ap (λ k. k.0) p) ∙ blank in
        sym (identity_of-blank d blank) ∙ ap (λ k. k.1) p ∙ identity_of-blank e other,
  )

  IsSame-key : (d e : Document R) → IsSame d e → doc_key d ≡ doc_key e
  IsSame-key d e (p, q) = pair_eq (doc_key d) (doc_key e) p (identity_eq d e p q)

  Distinct-Once : (ds : List (Document R)) → Distinct ds → Once ds
  Distinct-Once [] h = tt
  Distinct-Once (d ∷ ds) h = (
    All-imp (λ e. same_doc d e ≡ false) _
        (λ e apart same.
          false≢true (sym apart ∙ same_doc-left d e e (IsSame-key d e same) ∙ same_doc_refl e))
        ds h.0,
    Distinct-Once ds h.1,
  )

  All-self : (ds : List (Document R)) → All (λ d. Memᴰ d ds) ds
  All-self [] = tt
  All-self (d ∷ ds) = (head refl, All-imp _ _ (λ e m. tail m) ds (All-self ds))

  -- The chunk of a document, in a course that is empty where none was asked for.
  abbrev pub chunk_for : Option String → Document R → SyllabusChunk R
  chunk_for course d = record {
    chunk_id = d.doc_id;
    course_id = elim course [ none ↦ "" | some c ↦ c ];
    content = d.content;
    score = d.score;
    source = "syllabus_rag";
  }

  chunk_of-chunk_for : (course : Option String) → chunk_of course ≡ chunk_for course
  chunk_of-chunk_for none = refl
  chunk_of-chunk_for (some c) = refl

module _ {R : Type 0} (env : StepEnv R) where
  All-insert_by_score :
      (P : Document R → Type 0) (d : Document R) (es : List (Document R))
      → P d
      → All P es
      → All P (insert_by_score env d es)
  All-insert_by_score P d [] h k = (h, tt)
  All-insert_by_score P d (e ∷ es) h k =
      if_elim (All P) (env.rank_below d.score e.score) _ _ (k.0, All-insert_by_score P d es h k.1)
        (h, k)

  insert_by_score-Distinct :
      (d : Document R) (es : List (Document R))
      → All (λ e. same_doc d e ≡ false) es
      → Distinct es
      → Distinct (insert_by_score env d es)
  insert_by_score-Distinct d [] h k = (tt, tt)
  insert_by_score-Distinct d (e ∷ es) h k =
      if_elim Distinct (env.rank_below d.score e.score) _ _
        (
          All-insert_by_score (λ f. same_doc e f ≡ false) d es (same_doc_sym d e h.0) k.0,
          insert_by_score-Distinct d es h.1 k.1,
        )
        (h, k)

  All-by_score :
      (P : Document R → Type 0) (ds : List (Document R)) → All P ds → All P (by_score env ds)
  All-by_score P [] h = tt
  All-by_score P (d ∷ ds) h = All-insert_by_score P d (by_score env ds) h.0 (All-by_score P ds h.1)

  by_score-Distinct : (ds : List (Document R)) → Distinct ds → Distinct (by_score env ds)
  by_score-Distinct [] h = tt
  by_score-Distinct (d ∷ ds) h =
      insert_by_score-Distinct d (by_score env ds) (All-by_score (λ e. same_doc d e ≡ false) ds h.0)
        (by_score-Distinct ds h.1)

  insert_by_score-Memᴰ_self :
      (d : Document R) (es : List (Document R)) → Memᴰ d (insert_by_score env d es)
  insert_by_score-Memᴰ_self d [] = head refl
  insert_by_score-Memᴰ_self d (e ∷ es) =
      if_elim (Memᴰ d) (env.rank_below d.score e.score) _ _ (tail (insert_by_score-Memᴰ_self d es))
        (head refl)

  insert_by_score-Memᴰ :
      (d : Document R) (es : List (Document R)) (x : Document R)
      → Memᴰ x es
      → Memᴰ x (insert_by_score env d es)
  insert_by_score-Memᴰ d [] x m = elim m [ ]
  insert_by_score-Memᴰ d (e ∷ es) x (head q) =
      if_elim (Memᴰ x) (env.rank_below d.score e.score) _ _ (head q) (tail (head q))
  insert_by_score-Memᴰ d (e ∷ es) x (tail m) =
      if_elim (Memᴰ x) (env.rank_below d.score e.score) _ _ (tail (insert_by_score-Memᴰ d es x m))
        (tail (tail m))

  by_score-Memᴰ : (ds : List (Document R)) (x : Document R) → Memᴰ x ds → Memᴰ x (by_score env ds)
  by_score-Memᴰ [] x m = elim m [ ]
  by_score-Memᴰ (d ∷ ds) x (head q) =
      subst (λ y. Memᴰ y (insert_by_score env d (by_score env ds))) (sym q)
        (insert_by_score-Memᴰ_self d (by_score env ds))
  by_score-Memᴰ (d ∷ ds) x (tail m) =
      insert_by_score-Memᴰ d (by_score env ds) x (by_score-Memᴰ ds x m)

  -- Each score is not below the one after it.
  abbrev pub Descending : List (Document R) → Type 0
  Descending [] = Unit
  Descending (d ∷ []) = Unit
  Descending (d ∷ e ∷ es) = (env.rank_below d.score e.score ≡ false) × Descending (e ∷ es)

  -- The first of `l`, if there is one, is not above `e`.
  abbrev Under : Document R → List (Document R) → Type 0
  Under e [] = Unit
  Under e (x ∷ l) = env.rank_below e.score x.score ≡ false

  Descending-cons :
      (e : Document R) (l : List (Document R)) → Under e l → Descending l → Descending (e ∷ l)
  Descending-cons e [] h k = tt
  Descending-cons e (x ∷ l) h k = (h, k)

  Descending-split :
      (e : Document R) (l : List (Document R)) → Descending (e ∷ l) → Under e l × Descending l
  Descending-split e [] h = (tt, tt)
  Descending-split e (x ∷ l) h = h

  insert_by_score-Under :
      (e d : Document R) (l : List (Document R))
      → env.rank_below e.score d.score ≡ false
      → Under e l
      → Under e (insert_by_score env d l)
  insert_by_score-Under e d [] h k = h
  insert_by_score-Under e d (x ∷ l) h k = if_elim (Under e) (env.rank_below d.score x.score) _ _ k h

  abbrev pub IsFound : Option String → List (Param R) → Document R → Type 0
  IsFound course queries d =
      (q : Param R) × (ds : List (Document R)) × Memᴰ q queries
      × (env.retrieve q course ≡ ok ds)
      × Memᴰ d ds

  -- The best of what the queries find.
  pub record IsBest (course : Option String) (queries : List (Param R)) (docs : List (Document R))
      : Type 0 where
    pub found : All (IsFound course queries) docs
    pub once : Once docs
    pub falling : Descending docs
    pub all_there :
        (q : Param R) (ds : List (Document R))
        → Memᴰ q queries
        → env.retrieve q course ≡ ok ds
        → All
            (λ d.
              (e : Document R) × Memᴰ e docs
              × IsSame e d
              × (env.rank_below e.score d.score ≡ false))
            ds

  module _ (ranking : IsRanking env.rank_below) where
    insert_by_score-Descending :
        (d : Document R) (es : List (Document R))
        → Descending es
        → Descending (insert_by_score env d es)
    insert_by_score-Descending d [] h = tt
    insert_by_score-Descending d (e ∷ es) h =
        let (under, rest) = Descending-split e es h in
        elim (Bool-cases (env.rank_below d.score e.score)) [
          | inl less ↦ rw less (
              Descending-cons e (insert_by_score env d es)
                (insert_by_score-Under e d es (ranking.asym d.score e.score less) under)
                (insert_by_score-Descending d es rest))
          | inr enough ↦ rw enough (enough, h)
        ]

    by_score-Descending : (ds : List (Document R)) → Descending (by_score env ds)
    by_score-Descending [] = tt
    by_score-Descending (d ∷ ds) =
        insert_by_score-Descending d (by_score env ds) (by_score-Descending ds)

    -- Provided that the order of the scores is asymmetric and its negation transitive, a syllabus query
    -- that returns has the chunks of a list of documents: each with the id, the content and the score
    -- of its document, and with the course that was asked for. Each of these documents is one that a
    -- query has found, no two have one id, and they stand in the order of falling scores. Every
    -- document that a query has found is there itself, or another one with its id and a score that is
    -- not lower. Documents whose id is empty are told apart by their identity.
    pub query_syllabus_rag-IsBest :
        (ps : Params R) {out : Output R}
        → query_syllabus_rag env ps ≡ ok out
        → (course : Option String) × (more : List (Param R)) × (docs : List (Document R))
          × (upper_or_none env (param_or_blank ps "course_id") ≡ ok course)
          × (expansions env ps ≡ ok more)
          × (out ≡ chunks (map (chunk_for course) docs))
          × IsBest course (primary_query env ps ∷ more) docs
    unfolding query_syllabus_rag
    query_syllabus_rag-IsBest ps e =
        let (course, c, e1) = >>=-ok (upper_or_none env (param_or_blank ps "course_id")) _ e in
        let (more, m, e2) = >>=-ok (expansions env ps) _ e1 in
        let queries = primary_query env ps ∷ more in
        let (best, b, e3) = >>=-ok (retrieve_all env course queries []) _ e2 in
        let (distinct, kept, each) = retrieve_all-Kept env ranking course queries [] best b tt in
        (
          course,
          more,
          by_score env best,
          c,
          m,
          sym (ok_inj e3)
              ∙ ap (λ f. chunks (map f (by_score env best))) (chunk_of-chunk_for course),
          record {
            found = All-by_score (IsFound course queries) best (
                All-retrieve_all env (IsFound course queries) course queries [] best b
                  (λ q ds n k.
                    All-imp (λ d. Memᴰ d ds) _ (λ d i. (q, ds, n, k, i)) ds (All-self ds))
                  tt);
            once = Distinct-Once (by_score env best) (by_score-Distinct best distinct);
            falling = by_score-Descending best;
            all_there = λ q ds n k.
                All-imp (Kept env best) _
                  (λ x (y, i, s, h).
                    (y, by_score-Memᴰ best y i, key-IsSame y x (same_doc-eq y x s), h))
                  ds (each q ds n k);
          },
        )
