-- ===== src/Duplicate/DecisionLaws.antt =====
-- The decision follows the best of the candidates.
use product_intelligence.Base.{
  suc, ◌≡◌, refl, sym, ap, ◌∙◌, Bool, false, Option, List, [], ◌∷◌, map, length, All, arith, any_by,
  Bool-cases, inl, inr, is_some,
}
use product_intelligence.Float.Interface.{Float, IsOrdered, ◌≼◌}
use product_intelligence.Float.Ranking.{
  ranked, length-ranked, All-ranked, All-unranked, any_by-ranked, IsRanked, ranked-IsRanked,
}
use product_intelligence.Text.Strings.{Text, Unicode}
use product_intelligence.Search.Results.{HybridSearchResult}
use product_intelligence.Duplicate.Models.{ProductAttributes, DuplicateResult}
use product_intelligence.Duplicate.Similarity.{Fuzzy, SimilarityScorer, score, score_bounds}
use product_intelligence.Duplicate.Decision.{to_candidate, decide, build_decision, decide_on}

module _ {F : Type 0} ⦃f : Float F⦄ (laws : IsOrdered F) where
  abbrev pub Below : F → List (DuplicateResult F) → Type 0
  Below x results = All (λ r. r.overall_similarity ≼ x) results

  abbrev pub at_least : F → List (DuplicateResult F) → Bool
  at_least threshold results = any_by (λ r. f.le threshold r.overall_similarity) results

  -- No candidate below the threshold at the head, none at all.
  none_above :
      (threshold x : F) (rs : List (DuplicateResult F))
      → f.le threshold x ≡ false
      → Below x rs
      → at_least threshold rs ≡ false
  none_above threshold x [] h below = refl
  none_above threshold x (r ∷ rs) h (b, bs) =
      ground (arith, none_above threshold x rs h bs, laws.le_trans threshold r.overall_similarity x)

  decide_lem :
      (threshold : F) (rs : List (DuplicateResult F))
      → All (λ r. r.overall_similarity ≼ r.overall_similarity) rs
      → IsRanked (λ (r : DuplicateResult F). r.overall_similarity) rs
      → let d = decide threshold rs in
        (d.is_duplicate ≡ at_least threshold rs)
        × (is_some d.matched_product ≡ d.is_duplicate)
        × Below d.confidence rs
        × (length d.top_candidates ≡ length rs)
  decide_lem threshold [] nums ranking = (refl, refl, tt, refl)
  decide_lem threshold (r ∷ rs) (hr, nums) (below, ranking) = (
    elim (Bool-cases (f.le threshold r.overall_similarity)) [
      | inl e ↦ rw e
      | inr e ↦ rw e (sym (none_above threshold r.overall_similarity rs e below))
    ],
    ground arith,
    (hr, below),
    ap suc (length-map rs),
  )
    where
      length-map : (xs : List (DuplicateResult F)) → length (map to_candidate xs) ≡ length xs
      length-map [] = refl
      length-map (x ∷ xs) = ap suc (length-map xs)

  build_decision_lem :
      (results : List (DuplicateResult F)) (threshold : F)
      → All (λ r. r.overall_similarity ≼ r.overall_similarity) results
      → let d = build_decision results threshold in
        (d.is_duplicate ≡ at_least threshold results)
        × (is_some d.matched_product ≡ d.is_duplicate)
        × Below d.confidence results
        × (length d.top_candidates ≡ length results)
  unfolding build_decision
  build_decision_lem results threshold nums =
      let key : DuplicateResult F → F = λ r. r.overall_similarity in
      let (is_dup, matched, below, counted) =
        decide_lem threshold (ranked key results)
          (All-ranked key (λ r. r.overall_similarity ≼ r.overall_similarity) results nums)
          (ranked-IsRanked key laws results nums) in
      (
        is_dup ∙ any_by-ranked key (λ r. f.le threshold r.overall_similarity) results,
        matched,
        All-unranked key (λ r. r.overall_similarity ≼ _) results below,
        counted ∙ length-ranked key results,
      )

  module _ ⦃u : Unicode⦄ ⦃z : Fuzzy F⦄ (scorer : SimilarityScorer F) (name : Text)
      (brand category : Option Text) (attributes : ProductAttributes F) where
    abbrev pub results_of : List (HybridSearchResult F) → List (DuplicateResult F)
    results_of candidates = map (λ c. score scorer name brand category attributes c) candidates

    results_of-nums :
        (candidates : List (HybridSearchResult F))
        → All (λ r. r.overall_similarity ≼ r.overall_similarity) (results_of candidates)
    results_of-nums [] = tt
    results_of-nums (c ∷ cs) = (
      (laws.refl_of_le _ _ (score_bounds scorer laws name brand category attributes c).1).0,
      results_of-nums cs,
    )

    length-results_of :
        (candidates : List (HybridSearchResult F))
        → length (results_of candidates) ≡ length candidates
    length-results_of [] = refl
    length-results_of (c ∷ cs) = ap suc (length-results_of cs)

    -- A product is called a duplicate exactly if the overall similarity of some candidate reaches the
    -- threshold, and then, and only then, a candidate is named as the match; the confidence is at
    -- least the similarity of every candidate, and no candidate is left out of the report.
    pub decide_on_lem :
        (threshold : F) (candidates : List (HybridSearchResult F))
        → let results = results_of candidates in
          let d = decide_on scorer name brand category attributes threshold candidates in
          (d.is_duplicate ≡ at_least threshold results)
          × (is_some d.matched_product ≡ d.is_duplicate)
          × Below d.confidence results
          × (length d.top_candidates ≡ length candidates)
    unfolding decide_on
    decide_on_lem threshold candidates =
        let (is_dup, matched, below, counted) =
          build_decision_lem (results_of candidates) threshold (results_of-nums candidates) in
        (is_dup, matched, below, counted ∙ length-results_of candidates)
