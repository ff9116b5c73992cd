-- ===== src/Evaluation/Examples.antt =====
-- The theorems on evaluation at a small data set, of which one query fails.
use product_intelligence.Base.{
  ℕ, ◌+◌, ◌≡◌, ◌⊎◌, refl, true, false, none, some, List, [], ◌∷◌, take, All, leb, if◌then◌else◌,
}
use product_intelligence.Base.Result.{ok}
use product_intelligence.Float.Fixed.{ℤ, pos, fixed}
use product_intelligence.Text.Strings.{codes, text_eq}
use product_intelligence.Search.Results.{NearestNeighbor}
use product_intelligence.Search.Hybrid.{Indexes, HybridSearchService, Reranker}
use product_intelligence.Duplicate.Similarity.{Fuzzy}
use product_intelligence.Evaluation.Metrics.{is_expected, reciprocal_rank, hit_rate_at_k}
use product_intelligence.Evaluation.MetricsLaws.{IsFirstHit, reciprocal_rank-hit_rate_at_k}
use product_intelligence.Evaluation.Evaluator.{
  EvaluationQuery, retrieval, duplicate, RetrievalEvaluator,
}

reciprocal_rank-hit_rate_at_k_example :
    (All (λ i. is_expected (9 ∷ []) i ≡ false) (5 ∷ 9 ∷ 7 ∷ [])
      × (reciprocal_rank (5 ∷ 9 ∷ 7 ∷ []) (9 ∷ []) ≡ pos 0)
      × (hit_rate_at_k (5 ∷ 9 ∷ 7 ∷ []) (9 ∷ []) 3 ≡ pos 0))
    ⊎ ((n : ℕ) × IsFirstHit (9 ∷ []) (5 ∷ 9 ∷ 7 ∷ []) n
        × (reciprocal_rank (5 ∷ 9 ∷ 7 ∷ []) (9 ∷ []) ≡ fixed.div (pos 1000) (fixed.of_ℕ (n + 1)))
        × (hit_rate_at_k (5 ∷ 9 ∷ 7 ∷ []) (9 ∷ []) 3 ≡ (if leb (n + 1) 3 then pos 1000 else pos 0)))
reciprocal_rank-hit_rate_at_k_example =
    reciprocal_rank-hit_rate_at_k ℤ (5 ∷ 9 ∷ 7 ∷ []) (9 ∷ []) 3 refl

abbrev exact : Fuzzy ℤ
exact = record { token_sort_ratio = λ a b. if text_eq a b then pos 100000 else pos 0 }

abbrev neighbors : List (NearestNeighbor ℤ)
neighbors =
    record { product_id = 5; score = pos 900; metadata = [] }
    ∷ record { product_id = 9; score = pos 800; metadata = [] }
    ∷ []

abbrev catalog : Indexes ℤ ℕ ℕ ℕ
catalog = record {
  search_by_image = λ picture k filters. ok (take k neighbors);
  search_by_text = λ query k filters. ok (take k neighbors);
  image_by_vector = λ vector k filters. ok (take k neighbors);
  text_by_vector = λ vector k filters. ok (take k neighbors);
  retrieve_image = λ i. ok none;
  retrieve_text = λ i. ok none;
}

abbrev empty_handed : Reranker ℤ
empty_handed query results top_k = ok []

abbrev search_service : HybridSearchService ℤ ℕ ℕ ℕ
search_service = record {
  indexes = catalog;
  reranker = empty_handed;
  image_weight = pos 500;
  text_weight = pos 500;
  reranking_enabled = false;
  rerank_top_n = 20;
  default_top_k = 5;
}

abbrev evaluator : RetrievalEvaluator ℤ ℕ ℕ ℕ
evaluator = record {
  hybrid_search_service = search_service;
  duplicate_detection_service = record {
    hybrid_search_service = search_service;
    similarity_scorer = record {
      image_weight = pos 400;
      text_weight = pos 300;
      metadata_weight = pos 200;
      attribute_weight = pos 100;
    };
    reranker = empty_handed;
    top_k = 5;
    threshold = pos 850;
    reranking_enabled = false;
    rerank_top_n = 20;
    str = λ v. [];
  };
  recommendation_engine_service = record {
    hybrid_search_service = search_service;
    recommendation_scorer = record {
      similarity_weight = pos 500;
      attribute_weight = pos 200;
      tag_weight = pos 200;
      quality_weight = pos 100;
    };
    top_k = 5;
    diversity_enabled = false;
    reranking_enabled = false;
  };
  k_values = 1 ∷ 5 ∷ 10 ∷ [];
  latency_metrics_enabled = true;
  top_k = 10;
  log2 = λ x. x;
  clock = λ query reranking. pos 20;
}

-- A search that finds the expected product second, and a product that is not stored.
abbrev queries : List EvaluationQuery
queries =
    record {
      query_id = codes "q1";
      task_type = retrieval;
      text = some (codes "red shoe");
      product_id = none;
      expected_products = 9 ∷ [];
      top_k = none;
    }
    ∷ record {
      query_id = codes "q2";
      task_type = duplicate;
      text = none;
      product_id = some 3;
      expected_products = 9 ∷ [];
      top_k = none;
    }
    ∷ []
