-- ===== src/Evaluation/Evaluator.antt =====
-- backend/app/services/evaluation/retrieval_evaluator.py: the evaluation of one query. The systems that
-- are measured are those of the model; the exception that a query raised is its error. The clock is a
-- parameter: `clock` gives the time that a query takes in a run.
use product_intelligence.Base.{
  ℕ, Bool, Option, none, some, List, [], map, if◌then◌else◌, or_default,
}
use product_intelligence.Base.Result.{Result, ok, err, ◌>>=◌}
use product_intelligence.Float.Interface.{Float}
use product_intelligence.Text.Strings.{Text, Unicode, strip, is_empty}
use product_intelligence.Search.Results.{HybridSearchResult}
use product_intelligence.Search.Rerank.{SearchError}
use product_intelligence.Search.Hybrid.{HybridSearchService, search}
use product_intelligence.Duplicate.Models.{DuplicateCandidate}
use product_intelligence.Duplicate.Similarity.{Fuzzy}
use product_intelligence.Duplicate.Detection.{DuplicateDetectionService, detect_by_product_id}
use product_intelligence.Recommendation.Scorer.{RecommendationCandidate}
use product_intelligence.Recommendation.Engine.{RecommendationEngineService, similar, recommend}
use product_intelligence.Evaluation.Metrics.{
  to_set, precision_at_k, recall_at_k, hit_rate_at_k, reciprocal_rank, ndcg_at_k,
}

pub data EvaluationTaskType : Type 0 where
  retrieval recommendation duplicate : EvaluationTaskType

pub record EvaluationQuery : Type 0 where
  pub query_id : Text
  pub task_type : EvaluationTaskType
  pub text : Option Text
  pub product_id : Option ℕ
  pub expected_products : List ℕ
  pub top_k : Option ℕ

-- EvaluationException, a failed `assert`, a missing key, or what a system raised.
pub data EvaluationError : Type 0 where
  evaluation_exception assertion_error key_error : EvaluationError
  raised : SearchError → EvaluationError

-- A dict from cutoffs to values.
abbrev pub AtK : Type 0 → Type 0
AtK F = List (ℕ × F)

pub record EvaluationQueryResult (F : Type 0) : Type 0 where
  pub query_id : Text
  pub task_type : EvaluationTaskType
  pub retrieved_products : List ℕ
  pub latency_seconds : F
  pub precision_at_k : AtK F
  pub recall_at_k : AtK F
  pub ndcg_at_k : AtK F
  pub hit_rate_at_k : AtK F
  pub reciprocal_rank : F
  pub error : Option EvaluationError

pub record RetrievalEvaluator (F I V Q : Type 0) : Type 0 where
  pub hybrid_search_service : HybridSearchService F I V Q
  pub duplicate_detection_service : DuplicateDetectionService F I V Q
  pub recommendation_engine_service : RecommendationEngineService F I V Q
  pub k_values : List ℕ
  pub latency_metrics_enabled : Bool
  pub top_k : ℕ
  pub log2 : F → F
  pub clock : EvaluationQuery → (reranking_enabled : Option Bool) → F

-- A call of a measured system, whose exception goes through.
abbrev pub system : {A : Type 0} → Result SearchError A → Result EvaluationError A
system (ok a) = ok a
system (err e) = err (raised e)

abbrev pub asserted : {A : Type 0} → Option A → Result EvaluationError A
asserted none = err assertion_error
asserted (some a) = ok a

-- The text of a retrieval query, unless it is blank.
abbrev pub text_query : ⦃u : Unicode⦄ → Option Text → Result EvaluationError Text
text_query none = err evaluation_exception
text_query (some t) = if is_empty (strip t) then err evaluation_exception else ok t

module _ {F I V Q : Type 0} ⦃f : Float F⦄ ⦃u : Unicode⦄ ⦃z : Fuzzy F⦄
    (evaluator : RetrievalEvaluator F I V Q) where
  abbrev pub retrieve_by :
      EvaluationTaskType
      → EvaluationQuery
      → (top_k : ℕ) → (reranking_enabled : Option Bool) → Result EvaluationError (List ℕ)
  retrieve_by retrieval query k reranking = do
    t ← text_query query.text
    results ← system (search evaluator.hybrid_search_service none (some t) (some k) none reranking)
    ok (map (λ (r : HybridSearchResult F). r.product_id) results)
  retrieve_by recommendation query k reranking = do
    product_id ← asserted query.product_id
    found ←
        system
          (recommend evaluator.recommendation_engine_service product_id similar (some k) reranking)
    ok (map (λ (r : RecommendationCandidate F). r.product_id) found)
  retrieve_by duplicate query k reranking = do
    product_id ← asserted query.product_id
    decision ← system (
        detect_by_product_id evaluator.duplicate_detection_service product_id (some k) none
          reranking)
    ok (map (λ (c : DuplicateCandidate F). c.product_id) decision.top_candidates)

  unfoldable pub retrieve :
      EvaluationQuery → (reranking_enabled : Option Bool) → Result EvaluationError (List ℕ)
  retrieve query reranking =
      retrieve_by query.task_type query (or_default query.top_k evaluator.top_k) reranking

  -- `{k: metric(retrieved, expected, k) for k in self._k_values}`
  abbrev pub at_each : (ℕ → F) → List ℕ → AtK F
  at_each metric ks = map (λ (k : ℕ). (k, metric k)) ks

  unfoldable pub result_of :
      EvaluationQuery → (elapsed : F) → Result EvaluationError (List ℕ) → EvaluationQueryResult F
  unfolding precision_at_k recall_at_k ndcg_at_k hit_rate_at_k reciprocal_rank
  result_of query elapsed (err e) = record {
    query_id = query.query_id;
    task_type = query.task_type;
    retrieved_products = [];
    latency_seconds = f.nought;
    precision_at_k = [];
    recall_at_k = [];
    ndcg_at_k = [];
    hit_rate_at_k = [];
    reciprocal_rank = f.nought;
    error = some e;
  }
  result_of query elapsed (ok retrieved) =
      let expected = to_set query.expected_products in
      record {
        query_id = query.query_id;
        task_type = query.task_type;
        retrieved_products = retrieved;
        latency_seconds = if evaluator.latency_metrics_enabled then elapsed else f.nought;
        precision_at_k = at_each (λ k. precision_at_k retrieved expected k) evaluator.k_values;
        recall_at_k = at_each (λ k. recall_at_k retrieved expected k) evaluator.k_values;
        ndcg_at_k = at_each (λ k. ndcg_at_k evaluator.log2 retrieved expected k) evaluator.k_values;
        hit_rate_at_k = at_each (λ k. hit_rate_at_k retrieved expected k) evaluator.k_values;
        reciprocal_rank = reciprocal_rank retrieved expected;
        error = none;
      }

  unfoldable pub evaluate_one :
      EvaluationQuery → (reranking_enabled : Option Bool) → EvaluationQueryResult F
  unfolding retrieve result_of
  evaluate_one query reranking =
      result_of query (evaluator.clock query reranking) (retrieve query reranking)
