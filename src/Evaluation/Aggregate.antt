-- ===== src/Evaluation/Aggregate.antt =====
-- backend/app/services/evaluation/retrieval_evaluator.py: averaging the results, and the report. Of the
-- report the time stamps and the snapshot of the models are not modelled, nor are traces.
use product_intelligence.Base.{
  ℕ, ◌+◌, Bool, true, false, Option, none, some, List, [], ◌∷◌, ◌++◌, map, length, ◌==◌,
  if◌then◌else◌,
}
use product_intelligence.Base.Result.{Result, ok, err, ◌>>=◌}
use product_intelligence.Float.Interface.{Float, sum}
use product_intelligence.Text.Strings.{Unicode}
use product_intelligence.Duplicate.Similarity.{Fuzzy}
use product_intelligence.Evaluation.Evaluator.{
  EvaluationTaskType, retrieval, recommendation, duplicate, EvaluationQuery, EvaluationError,
  evaluation_exception, key_error, AtK, EvaluationQueryResult, RetrievalEvaluator, evaluate_one,
}

pub record RetrievalMetrics (F : Type 0) : Type 0 where
  pub precision_at_k : AtK F
  pub recall_at_k : AtK F
  pub ndcg_at_k : AtK F
  pub hit_rate_at_k : AtK F
  pub mrr : F
  pub average_latency_seconds : F
  pub query_count : ℕ

pub record BenchmarkReport (F : Type 0) : Type 0 where
  pub dataset_size : ℕ
  pub overall_metrics : List (EvaluationTaskType × RetrievalMetrics F)
  pub query_results : List (EvaluationQueryResult F)
  pub failure_count : ℕ

abbrev pub same_task : EvaluationTaskType → EvaluationTaskType → Bool
same_task retrieval retrieval = true
same_task recommendation recommendation = true
same_task duplicate duplicate = true
same_task _ _ = false

abbrev pub Groups : Type 0 → Type 0
Groups F = List (EvaluationTaskType × List (EvaluationQueryResult F))

-- `1 for result in query_results if result.error is not None`
abbrev pub failed : Option EvaluationError → ℕ
failed none = 0
failed (some e) = 1

module _ {F : Type 0} where
  -- `by_task_type.setdefault(result.task_type, []).append(result)`
  abbrev pub add_result : EvaluationQueryResult F → Groups F → Groups F
  add_result r [] = (r.task_type, r ∷ []) ∷ []
  add_result r ((task, results) ∷ groups) =
      if same_task task r.task_type
      then (task, results ++ (r ∷ [])) ∷ groups
      else (task, results) ∷ add_result r groups

  abbrev pub add_unless_failed :
      Option EvaluationError → EvaluationQueryResult F → Groups F → Groups F
  add_unless_failed none r groups = add_result r groups
  add_unless_failed (some e) r groups = groups

  abbrev pub group_results : List (EvaluationQueryResult F) → Groups F → Groups F
  group_results [] groups = groups
  group_results (r ∷ results) groups = group_results results (add_unless_failed r.error r groups)

  -- `values[k]`
  abbrev pub value_at : ℕ → AtK F → Result EvaluationError F
  value_at k [] = err key_error
  value_at k ((j, x) ∷ values) = if j == k then ok x else value_at k values

  -- `metric[k] for r in results`
  abbrev pub values_at :
      (EvaluationQueryResult F → AtK F)
      → ℕ
      → List (EvaluationQueryResult F)
      → Result EvaluationError (List F)
  values_at metric k [] = ok []
  values_at metric k (r ∷ results) = do
    x ← value_at k (metric r)
    xs ← values_at metric k results
    ok (x ∷ xs)

  abbrev pub failures : List (EvaluationQueryResult F) → ℕ
  failures [] = 0
  failures (r ∷ results) = failed r.error + failures results

module _ {F : Type 0} ⦃f : Float F⦄ where
  abbrev pub mean : List F → F
  mean [] = f.nought
  mean (x ∷ xs) = f.div (sum (x ∷ xs)) (f.of_ℕ (length (x ∷ xs)))

  abbrev pub means :
      (EvaluationQueryResult F → AtK F)
      → List (EvaluationQueryResult F)
      → (k_values : List ℕ) → Result EvaluationError (AtK F)
  means metric results [] = ok []
  means metric results (k ∷ ks) = do
    xs ← values_at metric k results
    rest ← means metric results ks
    ok ((k, mean xs) ∷ rest)

  unfoldable pub metrics_of :
      (k_values : List ℕ)
      → List (EvaluationQueryResult F)
      → Result EvaluationError (RetrievalMetrics F)
  metrics_of ks results = do
    precision ← means (λ r. r.precision_at_k) results ks
    recall ← means (λ r. r.recall_at_k) results ks
    ndcg ← means (λ r. r.ndcg_at_k) results ks
    hit_rate ← means (λ r. r.hit_rate_at_k) results ks
    ok (record {
      precision_at_k = precision;
      recall_at_k = recall;
      ndcg_at_k = ndcg;
      hit_rate_at_k = hit_rate;
      mrr = mean (map (λ (r : EvaluationQueryResult F). r.reciprocal_rank) results);
      average_latency_seconds =
          mean (map (λ (r : EvaluationQueryResult F). r.latency_seconds) results);
      query_count = length results;
    })

  abbrev pub metrics_of_groups :
      (k_values : List ℕ)
      → Groups F
      → Result EvaluationError (List (EvaluationTaskType × RetrievalMetrics F))
  metrics_of_groups ks [] = ok []
  metrics_of_groups ks ((task, results) ∷ groups) = do
    metrics ← metrics_of ks results
    rest ← metrics_of_groups ks groups
    ok ((task, metrics) ∷ rest)

  unfoldable pub aggregate :
      (k_values : List ℕ)
      → List (EvaluationQueryResult F)
      → Result EvaluationError (List (EvaluationTaskType × RetrievalMetrics F))
  aggregate ks results = metrics_of_groups ks (group_results results [])

-- `except Exception`: the failure of the aggregation is wrapped.
abbrev pub or_evaluation_exception :
    {A : Type 0} → Result EvaluationError A → Result EvaluationError A
or_evaluation_exception (ok a) = ok a
or_evaluation_exception (err e) = err evaluation_exception

module _ {F I V Q : Type 0} ⦃f : Float F⦄ ⦃u : Unicode⦄ ⦃z : Fuzzy F⦄
    (evaluator : RetrievalEvaluator F I V Q) where
  unfoldable pub evaluate_all :
      List EvaluationQuery → (reranking_enabled : Option Bool) → List (EvaluationQueryResult F)
  unfolding evaluate_one
  evaluate_all [] reranking = []
  evaluate_all (query ∷ queries) reranking =
      evaluate_one evaluator query reranking ∷ evaluate_all queries reranking

  unfoldable pub evaluate_queries :
      List EvaluationQuery
      → (reranking_enabled : Option Bool) → Result EvaluationError (BenchmarkReport F)
  unfolding evaluate_all aggregate
  evaluate_queries queries reranking = do
    let results = evaluate_all queries reranking
    metrics ← or_evaluation_exception (aggregate evaluator.k_values results)
    ok (record {
      dataset_size = length queries;
      overall_metrics = metrics;
      query_results = results;
      failure_count = failures results;
    })

  -- `compare_reranking`, before the differences are taken.
  unfoldable pub compare_reranking :
      List EvaluationQuery → Result EvaluationError (BenchmarkReport F × BenchmarkReport F)
  unfolding evaluate_queries
  compare_reranking queries = do
    without_reranking ← evaluate_queries queries (some false)
    with_reranking ← evaluate_queries queries (some true)
    ok (without_reranking, with_reranking)
