-- ===== src/Outer/InjectionGuard/Verdicts.antt =====
-- What tier 3 decides, on every outcome of the classifier.
use realityai_agents.Prelude.{
  refl, subst, sym, String, true, ◌≡◌, ◌↔◌, inl, inr, arith, List, Bool-cases,
}
use realityai_agents.Python.{
  Runtime, key_error, value_error, type_error, attribute_error, rpc_error, other_error, Py, ok,
  raise, Exn, timeout_error,
}
use realityai_agents.Outer.Schemas.{allow, deny, flag_for_review, OuterSafetyInput}
use realityai_agents.Outer.InjectionGuard.{
  Scores, PromptGuardResult, score_well_formed, on_outcome, is_injection, check_injection,
  result_from_score, on_failure,
}

-- A classifier that fails sends the request to review.
on_failure-review :
    (rt : Runtime) (t : String) (e : Exn) → (on_failure rt t e).decision ≡ flag_for_review
unfolding on_failure
on_failure-review rt t (timeout_error m) = refl
on_failure-review rt t (key_error m) = refl
on_failure-review rt t (value_error m) = refl
on_failure-review rt t (type_error m) = refl
on_failure-review rt t (attribute_error m) = refl
on_failure-review rt t (rpc_error m) = refl
on_failure-review rt t (other_error m) = refl

module _ (rt : Runtime) (fl : Scores) where
  -- An answer of the classifier with a score in range.
  abbrev pub Answers : Py (PromptGuardResult fl.Score) → PromptGuardResult fl.Score → Type 0
  Answers outcome r = (outcome ≡ ok r) × (score_well_formed rt fl r.score ≡ true)

  -- The answer says so with a score from the threshold on.
  abbrev pub Suspects : fl.Score → PromptGuardResult fl.Score → Type 0
  Suspects threshold r = (is_injection r.label ≡ true) × (fl.float_le threshold r.score ≡ true)

  module _ (t : String) where
    on_outcome-answer :
        (r : PromptGuardResult fl.Score)
        → (((on_outcome rt fl t (ok r)).decision ≡ deny)
            ↔ ((score_well_formed rt fl r.score ≡ true) × Suspects fl.deny_threshold r))
          × (((on_outcome rt fl t (ok r)).decision ≡ allow) ↔ (
              (score_well_formed rt fl r.score ≡ true)
              × ((¬ Suspects fl.deny_threshold r) × (¬ Suspects fl.flag_threshold r))))
    unfolding on_outcome result_from_score
    on_outcome-answer r =
        let a = Bool-cases (is_injection r.label) in
        let b = Bool-cases (fl.float_le fl.deny_threshold r.score) in
        let c = Bool-cases (fl.float_le fl.flag_threshold r.score) in
        elim (Bool-cases (score_well_formed rt fl r.score)) [
          | inr bad ↦ rw bad (ground arith)
          | inl good ↦ rw good elim a [
            | inr plain ↦ rw plain (ground arith)
            | inl suspect ↦ rw suspect (elim b [
              | inl high ↦ rw high (ground arith)
              | inr low ↦
                  rw low (elim c [
                    | inl high ↦ rw high (ground arith)
                    | inr less ↦ rw less (ground arith)
                  ])
            ])
          ]
        ]

    on_outcome-failure-not : (e : Exn) → ((on_outcome rt fl t (raise e)).decision ≡ flag_for_review)
    unfolding on_outcome
    on_outcome-failure-not e = on_failure-review rt t e

    on_outcome-deny_iff :
        (o : Py (PromptGuardResult fl.Score))
        → ((on_outcome rt fl t o).decision ≡ deny)
          ↔ ((r : PromptGuardResult fl.Score) × (Answers o r × Suspects fl.deny_threshold r))
    on_outcome-deny_iff (ok r) =
        let (there, back) = (on_outcome-answer r).0 in
        (
          λ h. (r, ((refl, (there h).0), (there h).1)),
          λ (s, ((e, good), high)).
              subst (λ x. (on_outcome rt fl t x).decision ≡ deny) (sym e)
                ((on_outcome-answer s).0.1 (good, high)),
        )
    on_outcome-deny_iff (raise e) =
        (λ h. ground (arith, on_outcome-failure-not e), λ (s, ((o, good), high)). cc)

    on_outcome-allow_iff :
        (o : Py (PromptGuardResult fl.Score))
        → ((on_outcome rt fl t o).decision ≡ allow) ↔ (
            (r : PromptGuardResult fl.Score) × (Answers o r
              × ((¬ Suspects fl.deny_threshold r) × (¬ Suspects fl.flag_threshold r))))
    on_outcome-allow_iff (ok r) =
        let (there, back) = (on_outcome-answer r).1 in
        (
          λ h. (r, ((refl, (there h).0), (there h).1)),
          λ (s, ((e, good), low)).
              subst (λ x. (on_outcome rt fl t x).decision ≡ allow) (sym e)
                ((on_outcome-answer s).1.1 (good, low)),
        )
    on_outcome-allow_iff (raise e) =
        (λ h. ground (arith, on_outcome-failure-not e), λ (s, ((o, good), low)). cc)

  module _ (classify : String → List String → Py (PromptGuardResult fl.Score)) where
    pub check_injection-verdicts :
        (t : String) (i : OuterSafetyInput)
        → let o = classify i.user_query_raw i.conversation_history in
          (((check_injection rt fl classify t i).decision ≡ deny)
            ↔ ((r : PromptGuardResult fl.Score) × (Answers o r × Suspects fl.deny_threshold r)))
          × (((check_injection rt fl classify t i).decision ≡ allow) ↔ (
              (r : PromptGuardResult fl.Score) × (Answers o r
                × ((¬ Suspects fl.deny_threshold r) × (¬ Suspects fl.flag_threshold r)))))
    unfolding check_injection
    check_injection-verdicts t i =
        let o = classify i.user_query_raw i.conversation_history in
        (on_outcome-deny_iff t o, on_outcome-allow_iff t o)
