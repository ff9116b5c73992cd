-- ===== src/Duplicate/Detection.antt =====
-- backend/app/services/duplicate/duplicate_detection_service.py: the service. Its vector store is that
-- of the hybrid search. Scoring raises nothing, so no DuplicateDetectionException is modelled; nor are
-- traces and metrics.
use product_intelligence.Base.{
  ℕ, max, Bool, true, false, not, ◌&&◌, Option, none, some, List, [], ◌∷◌, if◌then◌else◌,
  or_default,
}
use product_intelligence.Base.Result.{Result, ok, err, ◌>>=◌}
use product_intelligence.Float.Interface.{Float}
use product_intelligence.Text.Strings.{Text, Unicode, is_empty}
use product_intelligence.Text.Metadata.{
  Metadata, Value, get, as_text, null, bool, number, text, texts,
}
use product_intelligence.Text.Represent.{
  build_text_representation, build_text_representation_from_metadata,
}
use product_intelligence.Search.Results.{HybridSearchResult}
use product_intelligence.Search.Rerank.{SearchError, not_found, RerankedCandidate}
use product_intelligence.Search.Hybrid.{
  StoredPoint, HybridSearchService, Reranker, look_up, search, search_by_product_id,
}
use product_intelligence.Duplicate.Models.{ProductAttributes, DuplicateDecision}
use product_intelligence.Duplicate.Similarity.{Fuzzy, SimilarityScorer}
use product_intelligence.Duplicate.Decision.{decide_on}

-- The service with its settings; `str` is Python's `str` of a value that is no text.
pub record DuplicateDetectionService (F I V Q : Type 0) : Type 0 where
  pub hybrid_search_service : HybridSearchService F I V Q
  pub similarity_scorer : SimilarityScorer F
  pub reranker : Reranker F
  pub top_k : ℕ
  pub threshold : F
  pub reranking_enabled : Bool
  pub rerank_top_n : ℕ
  pub str : Value F → Text

module _ {F : Type 0} where
  -- `model_copy(update={"text_score": reranked.rerank_score})`
  abbrev pub with_text_score : HybridSearchResult F → RerankedCandidate F → HybridSearchResult F
  with_text_score r c = record r { text_score = c.rerank_score }

  unfoldable pub rerank_candidates :
      Reranker F
      → (query : Text) → List (HybridSearchResult F)
      → (top_k : ℕ) → Result SearchError (List (HybridSearchResult F))
  rerank_candidates reranker query candidates top_k = do
    found ← reranker query candidates (some top_k)
    look_up with_text_score candidates found

  -- `if rerank_active and candidates`
  unfoldable pub rerank_if :
      Reranker F
      → (rerank_active : Bool) (query : Text) → List (HybridSearchResult F)
      → (top_k : ℕ) → Result SearchError (List (HybridSearchResult F))
  unfolding rerank_candidates
  rerank_if reranker active query [] top_k = ok []
  rerank_if reranker active query (c ∷ cs) top_k =
      if active then rerank_candidates reranker query (c ∷ cs) top_k else ok (c ∷ cs)

  -- `bool(value)`
  abbrev pub truthy : ⦃f : Float F⦄ → Value F → Bool
  truthy null = false
  truthy (bool b) = b
  truthy ⦃f⦄ (number x) = not (f.le x f.nought && f.le f.nought x)
  truthy (text t) = not (is_empty t)
  truthy (texts []) = false
  truthy (texts (t ∷ ts)) = true

  abbrev pub str_of : (Value F → Text) → Value F → Text
  str_of str (text t) = t
  str_of str value = str value

module _ {F I V Q : Type 0} ⦃f : Float F⦄ ⦃u : Unicode⦄ ⦃z : Fuzzy F⦄
    (service : DuplicateDetectionService F I V Q) where
  abbrev pub retrieval_top_k : (rerank_active : Bool) (resolved_top_k : ℕ) → ℕ
  retrieval_top_k active k = if active then max service.rerank_top_n k else k

  unfoldable pub detect :
      (name : Text) (brand category description : Option Text)
      → ProductAttributes F
      → I
      → (top_k : Option ℕ) (threshold : Option F) (reranking_enabled : Option Bool)
      → Result SearchError (DuplicateDecision F)
  unfolding rerank_if search decide_on build_text_representation
  detect name brand category description attributes picture top_k threshold reranking_enabled = do
    let k = or_default top_k service.top_k
    let active = or_default reranking_enabled service.reranking_enabled
    let query = build_text_representation name brand category description
    candidates ←
        search service.hybrid_search_service (some picture) (some query)
          (some (retrieval_top_k active k)) none (some false)
    refined ← rerank_if service.reranker active query candidates k
    ok (
        decide_on service.similarity_scorer name brand category attributes
          (or_default threshold service.threshold) refined)

  -- The stored product: its text point, or its image point.
  abbrev pub image_if_none :
      ℕ → Option (StoredPoint F V) → Result SearchError (Option (StoredPoint F V))
  image_if_none product_id none = service.hybrid_search_service.indexes.retrieve_image product_id
  image_if_none product_id (some point) = ok (some point)

  abbrev pub metadata_or_not_found : ℕ → Option (StoredPoint F V) → Result SearchError (Metadata F)
  metadata_or_not_found product_id none = err (not_found product_id)
  metadata_or_not_found product_id (some point) = ok point.metadata

  unfoldable pub stored_metadata : ℕ → Result SearchError (Metadata F)
  stored_metadata product_id = do
    text_point ← service.hybrid_search_service.indexes.retrieve_text product_id
    point ← image_if_none product_id text_point
    metadata_or_not_found product_id point

  -- `str(metadata.get("name") or "")`
  abbrev pub stored_name : Metadata F → Text
  stored_name m = if truthy (get "name" m) then str_of service.str (get "name" m) else []

  abbrev pub stored_attributes : Metadata F → ProductAttributes F
  stored_attributes m = record {
    brand = as_text (get "brand" m);
    category = as_text (get "category" m);
    subcategory = none;
    color = as_text (get "color" m);
    material = as_text (get "material" m);
    pattern = none;
    gender = as_text (get "gender" m);
    age_group = none;
    style = as_text (get "style" m);
    season = none;
    occasion = none;
    confidence = f.nought;
  }

  unfoldable pub detect_by_product_id :
      ℕ
      → (top_k : Option ℕ) (threshold : Option F) (reranking_enabled : Option Bool)
      → Result SearchError (DuplicateDecision F)
  unfolding rerank_if stored_metadata search_by_product_id decide_on
      build_text_representation_from_metadata
  detect_by_product_id product_id top_k threshold reranking_enabled = do
    let k = or_default top_k service.top_k
    let active = or_default reranking_enabled service.reranking_enabled
    m ← stored_metadata product_id
    candidates ←
        search_by_product_id service.hybrid_search_service product_id
          (some (retrieval_top_k active k)) none none
    refined ←
        rerank_if service.reranker active (build_text_representation_from_metadata m) candidates k
    ok (
        decide_on service.similarity_scorer (stored_name m) (as_text (get "brand" m))
          (as_text (get "category" m)) (stored_attributes m)
          (or_default threshold service.threshold) refined)
