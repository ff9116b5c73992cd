-- ===== src/Duplicate/DetectionLaws.antt =====
-- Duplicate detection of a product that is stored already.
use product_intelligence.Base.{
  ℕ, ◌≡◌, ◌≢◌, refl, Bool, Option, none, some, List, [], ◌∷◌, map, All, arith, Bool-cases, inl, inr,
  ◌==◌, or_default,
}
use product_intelligence.Base.Result.{
  Result, ok, err, Ensures, returns, raises, Ensures->>=, Ensures-after, Ensures-ok, Ensures-if,
}
use product_intelligence.Float.Interface.{Float}
use product_intelligence.Float.Ranking.{All-ranked}
use product_intelligence.Text.Strings.{Text, Unicode}
use product_intelligence.Text.Represent.{build_text_representation_from_metadata}
use product_intelligence.Search.Results.{HybridSearchResult}
use product_intelligence.Search.Rerank.{SearchError, RerankedCandidate}
use product_intelligence.Search.Hybrid.{Reranker, find_by_id, or_key_error, look_up}
use product_intelligence.Search.ByProduct.{Others, search_by_product_id-Others}
use product_intelligence.Duplicate.Models.{ProductAttributes, DuplicateResult, DuplicateDecision}
use product_intelligence.Duplicate.Similarity.{Fuzzy, SimilarityScorer, score}
use product_intelligence.Duplicate.Decision.{to_candidate, decide, build_decision, decide_on}
use product_intelligence.Duplicate.Detection.{
  DuplicateDetectionService, with_text_score, rerank_candidates, rerank_if, retrieval_top_k,
  stored_metadata, stored_attributes, detect_by_product_id,
}

module _ {F : Type 0} (product_id : ℕ) where
  -- No result is the product.
  abbrev pub Differ : List (HybridSearchResult F) → Type 0
  Differ rs = All (λ r. r.product_id ≢ product_id) rs

  abbrev pub DecidesForOthers : DuplicateDecision F → Type 0
  DecidesForOthers d =
      (d.matched_product ≢ some product_id) × All (λ c. c.product_id ≢ product_id) d.top_candidates

module _ {F : Type 0} (product_id : ℕ) where
  find_by_id-Differ :
      (i : ℕ) (results : List (HybridSearchResult F)) (otherwise : Option (HybridSearchResult F))
      → Differ product_id results
      → ((r : HybridSearchResult F) → otherwise ≡ some r → r.product_id ≢ product_id)
      → Ensures (λ r. r.product_id ≢ product_id) (or_key_error (find_by_id i results otherwise))
  find_by_id-Differ i [] none h rule = raises
  find_by_id-Differ i [] (some r) h rule = returns (rule r refl)
  find_by_id-Differ i (x ∷ results) otherwise (h, hs) rule = elim (Bool-cases (x.product_id == i)) [
    | inl e ↦ rw e (
        find_by_id-Differ i results (some x) hs
          (λ r same. λ (bad : r.product_id ≡ product_id). h (cc)))
    | inr e ↦ rw e (find_by_id-Differ i results otherwise hs rule)
  ]

  look_up-Differ :
      (results : List (HybridSearchResult F)) (candidates : List (RerankedCandidate F))
      → Differ product_id results
      → Ensures (Differ product_id) (look_up with_text_score results candidates)
  look_up-Differ results [] h = returns tt
  look_up-Differ results (c ∷ cs) h =
      Ensures->>= (find_by_id-Differ c.product_id results none h (λ r bad. absurd (cc))) (λ r apart.
        Ensures->>= (look_up-Differ results cs h) (λ rest others. returns (apart, others)))

  rerank_if-Differ :
      (reranker : Reranker F) (active : Bool) (query : Text)
      (candidates : List (HybridSearchResult F)) (top_k : ℕ)
      → Differ product_id candidates
      → Ensures (Differ product_id) (rerank_if reranker active query candidates top_k)
  unfolding rerank_if rerank_candidates
  rerank_if-Differ reranker active query [] top_k h = returns tt
  rerank_if-Differ reranker active query (c ∷ cs) top_k h =
      Ensures-if active
        (Ensures-after (reranker query (c ∷ cs) (some top_k))
          (λ found. look_up-Differ (c ∷ cs) found h))
        (returns h)

module _ {F : Type 0} ⦃f : Float F⦄ (product_id : ℕ) where
  decide-DecidesForOthers :
      (threshold : F) (results : List (DuplicateResult F))
      → All (λ r. r.product_id ≢ product_id) results
      → DecidesForOthers product_id (decide threshold results)
  decide-DecidesForOthers threshold [] h = ((λ e. cc), tt)
  decide-DecidesForOthers threshold (best ∷ rest) (h, hs) = (
    (λ e. elim (Bool-cases (f.le threshold best.overall_similarity)) [
      | inl above ↦ h (ground arith)
      | inr below ↦ ground arith
    ]),
    (h, candidates rest hs),
  )
    where
      candidates :
          (rs : List (DuplicateResult F))
          → All (λ r. r.product_id ≢ product_id) rs
          → All (λ c. c.product_id ≢ product_id) (map to_candidate rs)
      candidates [] hs = tt
      candidates (r ∷ rs) (h, hs) = (h, candidates rs hs)

  module _ ⦃u : Unicode⦄ ⦃z : Fuzzy F⦄ (scorer : SimilarityScorer F) (name : Text)
      (brand category : Option Text) (attributes : ProductAttributes F) where
    map-score-Differ :
        (candidates : List (HybridSearchResult F))
        → Differ product_id candidates
        → All
            (λ r. r.product_id ≢ product_id)
            (map (λ c. score scorer name brand category attributes c) candidates)
    unfolding score
    map-score-Differ [] h = tt
    map-score-Differ (c ∷ cs) (h, hs) = (h, map-score-Differ cs hs)

    decide_on-DecidesForOthers :
        (threshold : F) (candidates : List (HybridSearchResult F))
        → Differ product_id candidates
        → DecidesForOthers product_id
            (decide_on scorer name brand category attributes threshold candidates)
    unfolding decide_on build_decision
    decide_on-DecidesForOthers threshold candidates h = decide-DecidesForOthers threshold _ (
        All-ranked (λ (r : DuplicateResult F). r.overall_similarity)
          (λ r. r.product_id ≢ product_id) _ (map-score-Differ candidates h))

module _ {F I V Q : Type 0} ⦃f : Float F⦄ ⦃u : Unicode⦄ ⦃z : Fuzzy F⦄
    (service : DuplicateDetectionService F I V Q) where
  Others-Ensures :
      (product_id k : ℕ) (m : Result SearchError (List (HybridSearchResult F)))
      → Others service.hybrid_search_service product_id k m
      → Ensures (Differ product_id) m
  Others-Ensures product_id k (ok rs) h = returns h.1
  Others-Ensures product_id k (err e) h = raises

  -- Whatever the indexes and the reranker answer, a stored product is never reported as a duplicate of
  -- itself: neither the match nor any candidate of the report is the product that was asked for.
  pub detect_by_product_id-DecidesForOthers :
      (product_id : ℕ) (top_k : Option ℕ) (threshold : Option F) (reranking_enabled : Option Bool)
      (decision : DuplicateDecision F)
      → detect_by_product_id service product_id top_k threshold reranking_enabled ≡ ok decision
      → DecidesForOthers product_id decision
  unfolding detect_by_product_id
  detect_by_product_id-DecidesForOthers product_id top_k threshold reranking_enabled decision e =
      let k = or_default top_k service.top_k in
      let active = or_default reranking_enabled service.reranking_enabled in
      Ensures-ok {P = DecidesForOthers product_id}
        (Ensures-after (stored_metadata service product_id) (λ m.
          Ensures->>=
            (Others-Ensures product_id _ _ (
              search_by_product_id-Others service.hybrid_search_service product_id
                (some (retrieval_top_k service active k)) none none))
            (λ candidates differ.
              Ensures->>=
                (rerank_if-Differ product_id service.reranker active
                  (build_text_representation_from_metadata m) candidates k differ)
                (λ refined others. returns (
                  decide_on-DecidesForOthers product_id service.similarity_scorer _ _ _
                    (stored_attributes service m) _ refined others)))))
        e
