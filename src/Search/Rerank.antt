-- ===== src/Search/Rerank.antt =====
-- backend/app/services/reranker_service.py. The cross-encoder is a parameter.
use mathlib.Core.Option
use product_intelligence.Base.{
  ℕ, ◌+◌, Option, none, some, List, [], ◌∷◌, map, take, ◌==◌, if◌then◌else◌,
}
use product_intelligence.Base.Result.{Result, ok, err, ◌>>=◌}
use product_intelligence.Float.Interface.{Float, Numerics}
use product_intelligence.Float.Ranking.{ranked}
use product_intelligence.Text.Strings.{Text, Unicode, is_empty}
use product_intelligence.Text.Metadata.{Metadata}
use product_intelligence.Text.Represent.{build_text_representation_from_metadata}
use product_intelligence.Search.Results.{HybridSearchResult}

-- What the search services may raise; `backend` is an exception of a service below them.
pub data SearchError : Type 0 where
  validation : SearchError
  not_found : ℕ → SearchError
  rerank_exception : SearchError
  value_error : SearchError
  key_error : SearchError
  backend : ℕ → SearchError

pub record RerankedCandidate (F : Type 0) : Type 0 where
  pub product_id : ℕ
  pub original_score : F
  pub rerank_score : F
  pub final_rank : ℕ
  pub original_rank : ℕ
  pub metadata : Metadata F

pub record CrossEncoder (F : Type 0) : Type 0 where
  pub score_pairs : List (Text × Text) → Result SearchError (List F)
  pub id_text : ℕ → Text

module _ {F : Type 0} ⦃f : Float F⦄ ⦃n : Numerics F⦄ ⦃u : Unicode⦄ (encoder : CrossEncoder F)
    (top_n : ℕ) where
  -- The document text, or the id where the metadata yields none.
  unfoldable pub document_text : HybridSearchResult F → Text
  document_text candidate =
      let text = build_text_representation_from_metadata candidate.metadata in
      if is_empty text then encoder.id_text candidate.product_id else text

  -- `1.0 / (1.0 + math.exp(-raw_score))`
  abbrev pub normalize : F → F
  normalize raw = f.div f.unity (f.add f.unity (n.exp (f.sub f.nought raw)))

  -- `zip(pool, raw_scores, strict=True)`; `none` if the lengths differ.
  abbrev pub zip_strict :
      List (HybridSearchResult F) → List F → Option (List (HybridSearchResult F × F))
  zip_strict [] [] = some []
  zip_strict (c ∷ cs) (x ∷ xs) = Option.map (λ rest. (c, x) ∷ rest) (zip_strict cs xs)
  zip_strict _ _ = none

  -- `original_ranks`: the last position of the product in the pool, from `rank` on.
  abbrev pub original_rank : (rank : ℕ) → List (HybridSearchResult F) → ℕ → (otherwise : ℕ) → ℕ
  original_rank rank [] i otherwise = otherwise
  original_rank rank (c ∷ cs) i otherwise =
      original_rank (rank + 1) cs i (if c.product_id == i then rank else otherwise)

  abbrev pub to_reranked :
      (pool : List (HybridSearchResult F)) (final_rank : ℕ)
      → List (HybridSearchResult F × F)
      → List (RerankedCandidate F)
  to_reranked pool final_rank [] = []
  to_reranked pool final_rank ((c, raw) ∷ rest) =
      record {
        product_id = c.product_id;
        original_score = c.score;
        rerank_score = normalize raw;
        final_rank = final_rank;
        original_rank = original_rank 1 pool c.product_id 0;
        metadata = c.metadata;
      }
      ∷ to_reranked pool (final_rank + 1) rest

  abbrev pub cut : Option ℕ → List (HybridSearchResult F × F) → List (HybridSearchResult F × F)
  cut none scored = scored
  cut (some top_k) scored = take top_k scored

  -- The part after the `try`: a ValueError of `zip` is not caught.
  unfoldable pub rerank_scored :
      (pool : List (HybridSearchResult F))
      → Option ℕ
      → Option (List (HybridSearchResult F × F))
      → Result SearchError (List (RerankedCandidate F))
  unfolding ranked
  rerank_scored pool top_k none = err value_error
  rerank_scored pool top_k (some pairs) =
      ok (to_reranked pool 1 (cut top_k (ranked (λ (p : HybridSearchResult F × F). p.1) pairs)))

  -- Any exception of the scoring becomes a RerankException.
  abbrev pub or_rerank_exception : Result SearchError (List F) → Result SearchError (List F)
  or_rerank_exception (ok xs) = ok xs
  or_rerank_exception (err e) = err rerank_exception

  unfoldable pub rerank_pool :
      Text
      → Option ℕ
      → List (HybridSearchResult F)
      → Result SearchError (List (RerankedCandidate F))
  unfolding document_text rerank_scored
  rerank_pool query top_k [] = ok []
  rerank_pool query top_k (c ∷ cs) = do
    raw ← or_rerank_exception (encoder.score_pairs (map (λ d. (query, document_text d)) (c ∷ cs)))
    rerank_scored (c ∷ cs) top_k (zip_strict (c ∷ cs) raw)

  unfoldable pub rerank :
      Text
      → List (HybridSearchResult F)
      → Option ℕ
      → Result SearchError (List (RerankedCandidate F))
  unfolding rerank_pool
  rerank query candidates top_k = rerank_pool query top_k (take top_n candidates)
