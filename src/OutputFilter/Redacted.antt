-- ===== src/OutputFilter/Redacted.antt =====
-- What the filter does with a text that is one of the codes in its list.
use realityai_agents.Prelude.{
  ℕ, String, ◌≡◌, refl, subst, arith, Bool, true, false, inl, inr, Bool-cases, ◌&&◌, ◌||◌, not,
  ◌==◌, eq_iff, List, [], ◌∷◌, ◌+++◌, All, all, contains, codes, join, leb, eqb,
}
use realityai_agents.Python.{Runtime, ok}
use realityai_agents.Inner.Schemas.{InnerSafetyInput}
use realityai_agents.Inner.Audit.{Stamp, AuditStore}
use realityai_agents.Inner.LiveState.{Read}
use realityai_agents.Inner.Node.{Outcome, inner_safety_check}
use realityai_agents.OutputFilter.{
  OutputFinding, reason_code, OutputFilterFindingDetail, Pattern, registry, reason_code_terms,
  Matcher, detail, sub_patterns, sub_registry, filter_response,
}
use realityai_agents.OutputFilter.Known.{IsKnown}
use realityai_agents.OutputFilter.InnerCodes.{inner_safety_check-IsKnown}

-- The letters a to z, and `_`.
abbrev is_lower : ℕ → Bool
is_lower n = (leb 97 n && leb n 122) || eqb n 95

abbrev pub is_word : String → Bool
is_word t = not (t == "") && all is_lower (codes t)

-- What `re` is relied on for. An alternative of words between word boundaries matches a text that is one
-- of them as a whole; the pattern of the markers, which begins with a bracket, matches nothing in a
-- word; and no pattern of the registry matches anything in the token that takes a match's place.
pub record IsRegex (m : Matcher) : Type 0 where
  pub words :
      (terms : List String) (t : String)
      → all is_word terms ≡ true
      → contains t terms ≡ true
      → m.matches_in
          (record { source = "\\b(?:" +++ (join "|" terms +++ ")\\b"); ignore_case = false })
          t
        ≡ (("", t) ∷ [], "")
  pub markers :
      (t : String)
      → is_word t ≡ true
      → m.matches_in
          (record { source = "\\[(?:BEGIN|END)-DATA:[0-9a-fA-F]+\\]"; ignore_case = false })
          t
        ≡ ([], t)
  pub token :
      All (λ entry. All (λ p. m.matches_in p "[REDACTED]" ≡ ([], "[REDACTED]")) entry.1) registry

both_true : (a b : Bool) → (a && b) ≡ true → (a ≡ true) × (b ≡ true)
both_true a b h = ground arith

or_right : (a b : Bool) → (a || b) ≡ true → a ≡ false → b ≡ true
or_right a b h k = ground arith

pub contains-all :
    (t : String) (ts : List String)
    → contains t ts ≡ true
    → all is_word ts ≡ true
    → is_word t ≡ true
contains-all t [] h k = ground arith
contains-all t (s ∷ ts) h k =
    let (first, rest) = both_true (is_word s) (all is_word ts) k in
    elim (Bool-cases (s == t)) [
      | inl same ↦ subst (λ u. is_word u ≡ true) ((eq_iff s t).0 same) first
      | inr other ↦ contains-all t ts (or_right (s == t) (contains t ts) h other) rest
    ]

-- The list without its first entry.
abbrev behind {ℓ} : {A : Type ℓ} → List A → List A
behind [] = []
behind (x ∷ xs) = xs

terms-all : all is_word reason_code_terms ≡ true
terms-all = refl

filled : (t : String) → is_word t ≡ true → (t == "") ≡ false
filled t h = ground (arith, both_true (not (t == "")) (all is_lower (codes t)) h)

module _ (m : Matcher) where
  -- The one finding is the code, and the token stands in its place.
  abbrev pub Redacted : String → Type 0
  Redacted t =
      ((filter_response m t).findings
        ≡ record { category = reason_code; match_hash = m.short_hash t } ∷ [])
      × ((filter_response m t).redacted_text ≡ "[REDACTED]")

  sub_patterns-token :
      (c : OutputFinding) (ps : List Pattern) (found : List OutputFilterFindingDetail)
      → All (λ p. m.matches_in p "[REDACTED]" ≡ ([], "[REDACTED]")) ps
      → sub_patterns m c ps ("[REDACTED]", found) ≡ ("[REDACTED]", found)
  unfolding sub_patterns
  sub_patterns-token c [] found h = refl
  sub_patterns-token c (p ∷ ps) found h = rw h.0 (sub_patterns-token c ps found h.1)

  sub_registry-token :
      (r : List (OutputFinding × List Pattern)) (found : List OutputFilterFindingDetail)
      → All (λ entry. All (λ p. m.matches_in p "[REDACTED]" ≡ ([], "[REDACTED]")) entry.1) r
      → sub_registry m r ("[REDACTED]", found) ≡ ("[REDACTED]", found)
  unfolding sub_registry
  sub_registry-token [] found h = refl
  sub_registry-token ((c, ps) ∷ r) found h =
      rw (sub_patterns-token c ps found h.0) (sub_registry-token r found h.1)

  module _ (re : IsRegex m) where
    code-sub_registry :
        (t : String)
        → IsKnown t
        → sub_registry m registry (t, []) ≡ ("[REDACTED]", detail m reason_code t ∷ [])
    unfolding sub_registry
    code-sub_registry t known =
        rw (re.markers t (contains-all t reason_code_terms known.listed terms-all)) (
          rw (re.words reason_code_terms t terms-all known.listed) (
            sub_registry-token (behind (behind registry)) (detail m reason_code t ∷ [])
              re.token.1.1))

    code-Redacted : (t : String) → IsKnown t → Redacted t
    unfolding filter_response
    code-Redacted t known =
        rw (filled t (contains-all t reason_code_terms known.listed terms-all))
          (rw (code-sub_registry t known) (refl, refl))

    -- Provided that `re` finds a word among words, no marker in a word and nothing in the token, as
    -- documented, the filter redacts each code with which
    -- the inner gate can end: it turns a text that is the code into the token, with one finding, the
    -- reason code with its hash.
    pub inner_safety_check-Redacted :
        (rt : Runtime) (read : Read) (budget : String) (stamp : Stamp) (i : InnerSafetyInput)
        (store : AuditStore) {o : Outcome}
        → inner_safety_check rt read budget stamp i store ≡ ok o
        → Redacted o.0.final_reason_code
    inner_safety_check-Redacted rt read budget stamp i store h =
        code-Redacted _ (inner_safety_check-IsKnown stamp i store rt read budget h)
