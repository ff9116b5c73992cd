-- ===== src/Search/Hybrid.antt =====
-- backend/app/services/vectorstore/hybrid_search_service.py: the service. The two indexes and the
-- reranker are parameters. `_fuse` raises nothing, so no HybridSearchException is modelled.
use product_intelligence.Base.{
  ℕ, ◌+◌, max, Bool, true, false, not, Option, none, some, List, [], ◌∷◌, map, take, filter_by,
  ◌==◌, if◌then◌else◌, or_default,
}
use product_intelligence.Base.Result.{Result, ok, err, ◌>>=◌}
use product_intelligence.Float.Interface.{Float}
use product_intelligence.Float.Ranking.{ranked}
use product_intelligence.Text.Strings.{Text, Unicode, strip, is_empty}
use product_intelligence.Text.Metadata.{Metadata}
use product_intelligence.Search.Results.{
  SearchModality, image, text, NearestNeighbor, HybridSearchResult,
}
use product_intelligence.Search.Fusion.{fuse, single_modality_result}
use product_intelligence.Search.Rerank.{
  SearchError, validation, not_found, key_error, RerankedCandidate,
}

-- A point of an index, with a vector of type `V`.
pub record StoredPoint (F V : Type 0) : Type 0 where
  pub vector : V
  pub metadata : Metadata F

-- SearchService and TextSearchService; `I` is the type of images, `Q` that of filters.
pub record Indexes (F I V Q : Type 0) : Type 0 where
  pub search_by_image : I → (top_k : ℕ) → Option Q → Result SearchError (List (NearestNeighbor F))
  pub search_by_text : Text → (top_k : ℕ) → Option Q → Result SearchError (List (NearestNeighbor F))
  pub image_by_vector : V → (top_k : ℕ) → Option Q → Result SearchError (List (NearestNeighbor F))
  pub text_by_vector : V → (top_k : ℕ) → Option Q → Result SearchError (List (NearestNeighbor F))
  pub retrieve_image : ℕ → Result SearchError (Option (StoredPoint F V))
  pub retrieve_text : ℕ → Result SearchError (Option (StoredPoint F V))

abbrev pub Reranker : Type 0 → Type 0
Reranker F =
    Text
    → List (HybridSearchResult F)
    → (top_k : Option ℕ) → Result SearchError (List (RerankedCandidate F))

-- The service with its settings.
pub record HybridSearchService (F I V Q : Type 0) : Type 0 where
  pub indexes : Indexes F I V Q
  pub reranker : Reranker F
  pub image_weight : F
  pub text_weight : F
  pub reranking_enabled : Bool
  pub rerank_top_n : ℕ
  pub default_top_k : ℕ

-- The text, if there is one that is not blank.
abbrev pub query_of : ⦃u : Unicode⦄ → Option Text → Option Text
query_of none = none
query_of (some t) = if is_empty (strip t) then none else some t

module _ {F : Type 0} where
  -- `by_id[product_id]`, where the last result with the id counts.
  abbrev pub find_by_id :
      ℕ
      → List (HybridSearchResult F)
      → Option (HybridSearchResult F)
      → Option (HybridSearchResult F)
  find_by_id i [] otherwise = otherwise
  find_by_id i (r ∷ rs) otherwise =
      find_by_id i rs (if r.product_id == i then some r else otherwise)

  abbrev pub or_key_error :
      Option (HybridSearchResult F) → Result SearchError (HybridSearchResult F)
  or_key_error none = err key_error
  or_key_error (some r) = ok r

  -- The list comprehension that looks each reranked candidate up, and changes it.
  abbrev pub look_up :
      (HybridSearchResult F → RerankedCandidate F → HybridSearchResult F)
      → List (HybridSearchResult F)
      → List (RerankedCandidate F)
      → Result SearchError (List (HybridSearchResult F))
  look_up change results [] = ok []
  look_up change results (c ∷ cs) = do
    r ← or_key_error (find_by_id c.product_id results none)
    rest ← look_up change results cs
    ok (change r c ∷ rest)

  abbrev pub by_score : HybridSearchResult F → F
  by_score r = r.score

  abbrev pub with_score : HybridSearchResult F → RerankedCandidate F → HybridSearchResult F
  with_score r c = record r { score = c.rerank_score }

module _ {F I V Q : Type 0} ⦃f : Float F⦄ (service : HybridSearchService F I V Q) where
  abbrev singles : SearchModality → List (NearestNeighbor F) → List (HybridSearchResult F)
  unfolding single_modality_result
  singles modality neighbors = map (λ n. single_modality_result n modality) neighbors

  unfoldable pub finalize :
      Text
      → List (HybridSearchResult F)
      → (resolved_top_k : ℕ) → (rerank_active : Bool)
      → Result SearchError (List (HybridSearchResult F))
  finalize query results resolved_top_k false = ok (take resolved_top_k results)
  finalize query results resolved_top_k true = do
    reranked ← service.reranker query results (some resolved_top_k)
    look_up with_score results reranked

  unfoldable pub dispatch :
      Option I
      → (query : Option Text) → (top_k : ℕ) → Option Q
      → (reranking : Bool) → Result SearchError (List (HybridSearchResult F))
  unfolding finalize fuse ranked single_modality_result
  dispatch none none top_k filters reranking = err validation
  dispatch (some picture) none top_k filters reranking = do
    neighbors ← service.indexes.search_by_image picture top_k filters
    ok (singles image neighbors)
  dispatch none (some query) top_k filters reranking = do
    let retrieval_top_k = if reranking then max service.rerank_top_n top_k else top_k
    neighbors ← service.indexes.search_by_text query retrieval_top_k filters
    finalize query (singles text neighbors) top_k reranking
  dispatch (some picture) (some query) top_k filters reranking = do
    let retrieval_top_k = if reranking then max service.rerank_top_n top_k else top_k
    image_neighbors ← service.indexes.search_by_image picture retrieval_top_k filters
    text_neighbors ← service.indexes.search_by_text query retrieval_top_k filters
    finalize query
        (ranked by_score
          (fuse image_neighbors text_neighbors service.image_weight service.text_weight))
        top_k reranking

  unfoldable pub search :
      ⦃u : Unicode⦄
      → Option I
      → Option Text
      → (top_k : Option ℕ) → Option Q
      → (reranking_enabled : Option Bool) → Result SearchError (List (HybridSearchResult F))
  unfolding dispatch
  search picture query top_k filters reranking_enabled =
      dispatch picture (query_of query) (or_default top_k service.default_top_k) filters
        (or_default reranking_enabled service.reranking_enabled)

  abbrev pub metadata_of : Option (StoredPoint F V) → Option (Metadata F)
  metadata_of none = none
  metadata_of (some point) = some point.metadata

  unfoldable pub retrieve_text_if_none :
      ℕ → Option (StoredPoint F V) → Result SearchError (Option (StoredPoint F V))
  retrieve_text_if_none product_id none = service.indexes.retrieve_text product_id
  retrieve_text_if_none product_id (some point) = ok (some point)

  unfoldable pub retrieve_metadata : ℕ → Result SearchError (Option (Metadata F))
  unfolding retrieve_text_if_none
  retrieve_metadata product_id = do
    image_point ← service.indexes.retrieve_image product_id
    point ← retrieve_text_if_none product_id image_point
    ok (metadata_of point)

  abbrev pub want_image : Option SearchModality → Bool
  want_image (some text) = false
  want_image _ = true

  abbrev pub want_text : Option SearchModality → Bool
  want_text (some image) = false
  want_text _ = true

  -- The search from the stored vectors; a vector that is wanted and missing raises.
  unfoldable pub search_by_points :
      ℕ
      → (internal_top_k : ℕ) → Option Q
      → Option SearchModality
      → (image_point text_point : Option (StoredPoint F V))
      → Result SearchError (List (HybridSearchResult F))
  unfolding fuse ranked single_modality_result
  search_by_points product_id k filters (some text) _ (some point) = do
    neighbors ← service.indexes.text_by_vector point.vector k filters
    ok (singles text neighbors)
  search_by_points product_id k filters (some text) _ none = err (not_found product_id)
  search_by_points product_id k filters (some image) (some point) _ = do
    neighbors ← service.indexes.image_by_vector point.vector k filters
    ok (singles image neighbors)
  search_by_points product_id k filters (some image) none _ = err (not_found product_id)
  search_by_points product_id k filters none (some image_point) (some text_point) = do
    image_neighbors ← service.indexes.image_by_vector image_point.vector k filters
    text_neighbors ← service.indexes.text_by_vector text_point.vector k filters
    ok (
        ranked by_score
          (fuse image_neighbors text_neighbors service.image_weight service.text_weight))
  search_by_points product_id k filters none _ _ = err (not_found product_id)

  abbrev pub without : ℕ → List (HybridSearchResult F) → List (HybridSearchResult F)
  without product_id results = filter_by (λ r. not (r.product_id == product_id)) results

  abbrev pub retrieve_if :
      Bool
      → Result SearchError (Option (StoredPoint F V))
      → Result SearchError (Option (StoredPoint F V))
  retrieve_if wanted retrieved = if wanted then retrieved else ok none

  unfoldable pub search_by_product_id :
      ℕ
      → (top_k : Option ℕ) → Option Q
      → Option SearchModality
      → Result SearchError (List (HybridSearchResult F))
  unfolding search_by_points
  search_by_product_id product_id top_k filters modality = do
    let resolved_top_k = or_default top_k service.default_top_k
    image_point ← retrieve_if (want_image modality) (service.indexes.retrieve_image product_id)
    text_point ← retrieve_if (want_text modality) (service.indexes.retrieve_text product_id)
    results ←
        search_by_points product_id (resolved_top_k + 1) filters modality image_point text_point
    ok (take resolved_top_k (without product_id results))
