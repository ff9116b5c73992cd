-- ===== src/Recommendation/Engine.antt =====
-- backend/app/services/recommendation/recommendation_engine_service.py. Scoring raises nothing, so no
-- RecommendationException is modelled; nor is the sentence that explains a recommendation.
use product_intelligence.Base.{
  ℕ, ◌*◌, max, Bool, true, false, Option, none, some, List, [], ◌∷◌, map, take, if◌then◌else◌,
  or_default,
}
use product_intelligence.Base.Result.{Result, ok, err, ◌>>=◌}
use product_intelligence.Float.Interface.{Float}
use product_intelligence.Float.Ranking.{ranked}
use product_intelligence.Text.Strings.{Text, Unicode, strip, is_empty, codes}
use product_intelligence.Text.Metadata.{Metadata, get, as_text}
use product_intelligence.Text.Represent.{build_text_representation_from_metadata}
use product_intelligence.Search.Results.{SearchModality, text, HybridSearchResult}
use product_intelligence.Search.Rerank.{SearchError, not_found}
use product_intelligence.Search.Hybrid.{
  StoredPoint, HybridSearchService, look_up, with_score, search_by_product_id,
}
use product_intelligence.Recommendation.Scorer.{
  RecommendationScorer, RecommendationCandidate, score,
}
use product_intelligence.Recommendation.Diversify.{diversify}

pub data RecommendationType : Type 0 where
  similar related complementary : RecommendationType

-- The service with its settings; its vector store is that of the hybrid search.
pub record RecommendationEngineService (F I V Q : Type 0) : Type 0 where
  pub hybrid_search_service : HybridSearchService F I V Q
  pub recommendation_scorer : RecommendationScorer F
  pub top_k : ℕ
  pub diversity_enabled : Bool
  pub reranking_enabled : Bool

abbrev pub modality_of : RecommendationType → Option SearchModality
modality_of similar = none
modality_of _ = some text

abbrev pub diversity_overfetch_multiplier : ℕ
diversity_overfetch_multiplier = 3

-- The brand, if it is a text that is not blank.
abbrev pub brand_key : ⦃u : Unicode⦄ → Option Text → Text
brand_key none = codes "_unknown"
brand_key (some brand) = if is_empty (strip brand) then codes "_unknown" else brand

module _ {F I V Q : Type 0} ⦃f : Float F⦄ ⦃u : Unicode⦄
    (engine : RecommendationEngineService F I V Q) where
  abbrev pub metadata_or_raise : ℕ → Option (StoredPoint F V) → Result SearchError (Metadata F)
  metadata_or_raise product_id none = err (not_found product_id)
  metadata_or_raise product_id (some point) = ok point.metadata

  abbrev pub point_or_image :
      ℕ → Option (StoredPoint F V) → Result SearchError (Option (StoredPoint F V))
  point_or_image product_id none = engine.hybrid_search_service.indexes.retrieve_image product_id
  point_or_image product_id (some point) = ok (some point)

  -- `_target_metadata`
  unfoldable pub target_metadata : ℕ → Result SearchError (Metadata F)
  target_metadata product_id = do
    text_point ← engine.hybrid_search_service.indexes.retrieve_text product_id
    point ← point_or_image product_id text_point
    metadata_or_raise product_id point

  unfoldable pub reranked :
      (rerank_active : Bool)
      → Metadata F
      → List (HybridSearchResult F)
      → Result SearchError (List (HybridSearchResult F))
  reranked false target candidates = ok candidates
  reranked true target [] = ok []
  reranked true target (c ∷ cs) = do
    found ←
        engine.hybrid_search_service.reranker (build_text_representation_from_metadata target)
          (c ∷ cs) none
    look_up with_score (c ∷ cs) found

  abbrev pub final_score : HybridSearchResult F × RecommendationCandidate F → F
  final_score pair = pair.1.final_score

  abbrev pub brand_of : HybridSearchResult F × RecommendationCandidate F → Text
  brand_of pair = brand_key (as_text (get "brand" pair.0.metadata))

  -- Score, sort, and diversify or cut.
  unfoldable pub recommend_from :
      (resolved_top_k : ℕ)
      → Metadata F
      → List (HybridSearchResult F)
      → List (RecommendationCandidate F)
  unfolding ranked score diversify
  recommend_from k target candidates =
      let scored_pairs =
        ranked final_score
          (map (λ c. (c, score engine.recommendation_scorer target c)) candidates) in
      map (λ (pair : HybridSearchResult F × RecommendationCandidate F). pair.1)
        (if engine.diversity_enabled
          then diversify brand_of scored_pairs k
          else take k scored_pairs)

  abbrev pub overfetch_top_k : (resolved_top_k : ℕ) → (rerank_active : Bool) → ℕ
  overfetch_top_k k active =
      let wanted = if engine.diversity_enabled then k * diversity_overfetch_multiplier else k in
      if active then max wanted engine.hybrid_search_service.rerank_top_n else wanted

  unfoldable pub recommend :
      ℕ
      → RecommendationType
      → (top_k : Option ℕ) → (reranking_enabled : Option Bool)
      → Result SearchError (List (RecommendationCandidate F))
  unfolding target_metadata reranked recommend_from
  recommend product_id recommendation_type top_k reranking_enabled = do
    let k = or_default top_k engine.top_k
    let active = or_default reranking_enabled engine.reranking_enabled
    target ← target_metadata product_id
    candidates ←
        search_by_product_id engine.hybrid_search_service product_id
          (some (overfetch_top_k k active)) none (modality_of recommendation_type)
    refined ← reranked active target candidates
    ok (recommend_from k target refined)
