-- ===== src/Evaluation/AggregateLaws.antt =====
-- Each query of an evaluation is counted once.
use product_intelligence.Base.{
  ℕ, suc, ◌+◌, ◌≡◌, refl, ap, Bool, Option, none, some, List, [], ◌∷◌, length, length-append, arith,
  Bool-cases, inl, inr,
}
use product_intelligence.Base.Result.{
  Result, ok, Ensures, returns, raises, Ensures->>=, Ensures-after, Ensures-ok,
}
use product_intelligence.Float.Interface.{Float}
use product_intelligence.Text.Strings.{Unicode}
use product_intelligence.Duplicate.Similarity.{Fuzzy}
use product_intelligence.Evaluation.Evaluator.{
  EvaluationTaskType, EvaluationQuery, EvaluationError, EvaluationQueryResult, RetrievalEvaluator,
}
use product_intelligence.Evaluation.Aggregate.{
  RetrievalMetrics, BenchmarkReport, Groups, same_task, add_result, add_unless_failed,
  group_results, failed, failures, means, metrics_of, metrics_of_groups, aggregate,
  or_evaluation_exception, evaluate_all, evaluate_queries,
}

module _ {F : Type 0} where
  -- How many results are in the groups, and how many queries the metrics count.
  abbrev pub grouped : Groups F → ℕ
  grouped [] = 0
  grouped ((task, results) ∷ groups) = length results + grouped groups

  abbrev pub counted : List (EvaluationTaskType × RetrievalMetrics F) → ℕ
  counted [] = 0
  counted ((task, metrics) ∷ rest) = metrics.query_count + counted rest

  grouped-add_result :
      (r : EvaluationQueryResult F) (groups : Groups F)
      → grouped (add_result r groups) ≡ suc (grouped groups)
  grouped-add_result r [] = omega arith
  grouped-add_result r ((task, results) ∷ groups) = elim (Bool-cases (same_task task r.task_type)) [
    | inl same ↦ rw same (omega (arith, length-append results (r ∷ [])))
    | inr differ ↦ rw differ (omega (arith, grouped-add_result r groups))
  ]

  grouped-add_unless_failed :
      (e : Option EvaluationError) (r : EvaluationQueryResult F) (groups : Groups F)
      → grouped (add_unless_failed e r groups) + failed e ≡ suc (grouped groups)
  grouped-add_unless_failed none r groups = omega (arith, grouped-add_result r groups)
  grouped-add_unless_failed (some e) r groups = omega arith

  grouped-group_results :
      (results : List (EvaluationQueryResult F)) (groups : Groups F)
      → grouped (group_results results groups) + failures results ≡ grouped groups + length results
  grouped-group_results [] groups = omega arith
  grouped-group_results (r ∷ results) groups = omega (
    arith,
    grouped-group_results results (add_unless_failed r.error r groups),
    grouped-add_unless_failed r.error r groups,
  )

module _ {F : Type 0} ⦃f : Float F⦄ (ks : List ℕ) where
  metrics_of-count :
      (results : List (EvaluationQueryResult F))
      → Ensures (λ m. m.query_count ≡ length results) (metrics_of ks results)
  unfolding metrics_of
  metrics_of-count results =
      Ensures-after (means (λ (r : EvaluationQueryResult F). r.precision_at_k) results ks) (λ p.
        Ensures-after (means (λ (r : EvaluationQueryResult F). r.recall_at_k) results ks) (λ q.
          Ensures-after (means (λ (r : EvaluationQueryResult F). r.ndcg_at_k) results ks) (λ n.
            Ensures-after (means (λ (r : EvaluationQueryResult F). r.hit_rate_at_k) results ks)
              (λ h. returns refl))))

  metrics_of_groups-counted :
      (groups : Groups F)
      → Ensures (λ ms. counted ms ≡ grouped groups) (metrics_of_groups ks groups)
  metrics_of_groups-counted [] = returns refl
  metrics_of_groups-counted ((task, results) ∷ groups) =
      Ensures->>= (metrics_of-count results) (λ metrics e.
        Ensures->>= (metrics_of_groups-counted groups) (λ rest e'. returns (omega arith)))

module _ {F I V Q : Type 0} ⦃f : Float F⦄ ⦃u : Unicode⦄ ⦃z : Fuzzy F⦄
    (evaluator : RetrievalEvaluator F I V Q) where
  length-evaluate_all :
      (queries : List EvaluationQuery) (reranking : Option Bool)
      → length (evaluate_all evaluator queries reranking) ≡ length queries
  unfolding evaluate_all
  length-evaluate_all [] reranking = refl
  length-evaluate_all (query ∷ queries) reranking = ap suc (length-evaluate_all queries reranking)

  or_evaluation_exception-Ensures :
      {A : Type 0} {P : A → Type 0} {m : Result EvaluationError A}
      → Ensures P m
      → Ensures P (or_evaluation_exception m)
  or_evaluation_exception-Ensures (returns h) = returns h
  or_evaluation_exception-Ensures raises = raises

  -- Every query of a report is counted exactly once, as a failure or in the metrics of its task: the
  -- failures and the query counts of all metrics add up to the size of the data set, which is the
  -- number of the queries and that of their results.
  pub evaluate_queries-counted :
      (queries : List EvaluationQuery) (reranking : Option Bool) (report : BenchmarkReport F)
      → evaluate_queries evaluator queries reranking ≡ ok report
      → (report.failure_count + counted report.overall_metrics ≡ report.dataset_size)
        × (report.dataset_size ≡ length queries)
        × (length report.query_results ≡ length queries)
  unfolding evaluate_queries aggregate
  evaluate_queries-counted queries reranking report e =
      let results = evaluate_all evaluator queries reranking in
      Ensures-ok
        {P = λ (r : BenchmarkReport F).
          (r.failure_count + counted r.overall_metrics ≡ r.dataset_size)
          × (r.dataset_size ≡ length queries)
          × (length r.query_results ≡ length queries)}
        (Ensures->>=
          (or_evaluation_exception-Ensures
            (metrics_of_groups-counted evaluator.k_values (group_results results [])))
          (λ metrics counts. returns (
            omega (arith, grouped-group_results results [], length-evaluate_all queries reranking),
            refl,
            length-evaluate_all queries reranking,
          )))
        e
