-- ===== src/OutputFilter/Scrub.antt =====
-- What the filter leaves alone, and what its findings record.
use realityai_agents.Prelude.{
  Bool, true, false, String, ◌≡◌, refl, sym, ◌∙◌, ◌+◌, List, [], ◌∷◌, ◌++◌, ◌==◌, eq_iff, arith,
  length, length-append, ◌≤◌,
}
use realityai_agents.OutputFilter.{
  OutputFinding, OutputFilterFindingDetail, Pattern, registry, rejoin, Matcher, Scrubbed, detail,
  redact, sub, sub_patterns, sub_registry, filter_response, result_of, filter_unless_empty,
  OutputFilterResult,
}

module _ (m : Matcher) where
  -- The findings of one pass: what was found before, then a detail for each match, in order.
  redact-findings :
      (c : OutputFinding) (pieces : List (String × String)) (tail : String)
      (found : List OutputFilterFindingDetail)
      → length (redact m c pieces tail found).1 ≡ length found + length pieces
  unfolding redact
  redact-findings c [] tail found = omega arith
  redact-findings c ((before, matched) ∷ rest) tail found = omega (
    arith,
    redact-findings c rest tail (found ++ detail m c matched ∷ []),
    length-append found (detail m c matched ∷ []),
  )

  -- A pass that records nothing has changed nothing; no pass forgets a finding.
  redact_unchanged :
      (c : OutputFinding) (pieces : List (String × String)) (tail : String)
      (found : List OutputFilterFindingDetail)
      → length (redact m c pieces tail found).1 ≤ length found
      → (redact m c pieces tail found).0 ≡ rejoin pieces tail
  unfolding redact
  redact_unchanged c [] tail found h = refl
  redact_unchanged c ((before, matched) ∷ rest) tail found h = absurd (
      omega (
        arith,
        redact-findings c rest tail (found ++ detail m c matched ∷ []),
        length-append found (detail m c matched ∷ []),
      ))

  sub-grows : (c : OutputFinding) (p : Pattern) (s : Scrubbed) → length s.1 ≤ length (sub m c p s).1
  unfolding sub
  sub-grows c p (text, found) =
      omega (arith, redact-findings c (m.matches_in p text).0 (m.matches_in p text).1 found)

  sub_unchanged :
      (c : OutputFinding) (p : Pattern) (s : Scrubbed)
      → length (sub m c p s).1 ≤ length s.1
      → (sub m c p s).0 ≡ s.0
  unfolding sub
  sub_unchanged c p (text, found) h =
      redact_unchanged c (m.matches_in p text).0 (m.matches_in p text).1 found h
      ∙ m.matches_in-rejoin p text

  sub_patterns-grows :
      (c : OutputFinding) (ps : List Pattern) (s : Scrubbed)
      → length s.1 ≤ length (sub_patterns m c ps s).1
  unfolding sub_patterns
  sub_patterns-grows c [] s = omega arith
  sub_patterns-grows c (p ∷ ps) s =
      omega (arith, sub_patterns-grows c ps (sub m c p s), sub-grows c p s)

  sub_patterns_unchanged :
      (c : OutputFinding) (ps : List Pattern) (s : Scrubbed)
      → length (sub_patterns m c ps s).1 ≤ length s.1
      → (sub_patterns m c ps s).0 ≡ s.0
  unfolding sub_patterns
  sub_patterns_unchanged c [] s h = refl
  sub_patterns_unchanged c (p ∷ ps) s h =
      let grows = sub_patterns-grows c ps (sub m c p s) in
      let grew = sub-grows c p s in
      sub_patterns_unchanged c ps (sub m c p s) (omega arith) ∙ sub_unchanged c p s (omega arith)

  sub_registry-grows :
      (r : List (OutputFinding × List Pattern)) (s : Scrubbed)
      → length s.1 ≤ length (sub_registry m r s).1
  unfolding sub_registry
  sub_registry-grows [] s = omega arith
  sub_registry-grows ((c, ps) ∷ r) s =
      omega (arith, sub_registry-grows r (sub_patterns m c ps s), sub_patterns-grows c ps s)

  sub_registry_unchanged :
      (r : List (OutputFinding × List Pattern)) (s : Scrubbed)
      → length (sub_registry m r s).1 ≤ length s.1
      → (sub_registry m r s).0 ≡ s.0
  unfolding sub_registry
  sub_registry_unchanged [] s h = refl
  sub_registry_unchanged ((c, ps) ∷ r) s h =
      let grows = sub_registry-grows r (sub_patterns m c ps s) in
      let grew = sub_patterns-grows c ps s in
      sub_registry_unchanged r (sub_patterns m c ps s) (omega arith)
      ∙ sub_patterns_unchanged c ps s (omega arith)

  abbrev Unchanged : String → OutputFilterResult → Type 0
  Unchanged text r = r.redactions_count ≡ 0 → r.redacted_text ≡ text

  result_of-Unchanged :
      (text : String) → Unchanged text (result_of m text (sub_registry m registry (text, [])))
  unfolding result_of
  result_of-Unchanged text h = sub_registry_unchanged registry (text, []) (omega (arith, h))

  -- A response in which the filter finds nothing passes it unchanged.
  pub filter_response_unchanged :
      (text : String)
      → (filter_response m text).redactions_count ≡ 0
      → (filter_response m text).redacted_text ≡ text
  unfolding filter_response
  filter_response_unchanged text = go (text == "") refl
    where
      go : (b : Bool) → (text == "") ≡ b → Unchanged text (filter_unless_empty m b text)
      go true e h = sym ((eq_iff text "").0 e)
      go false e h = result_of-Unchanged text h
