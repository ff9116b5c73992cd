-- ===== src/Duplicate/ServiceExamples.antt =====
-- The theorems on detection and verification at a small catalog: a reranker that gives every
-- candidate 900 thousandths.
use product_intelligence.Base.{ℕ, ◌≡◌, refl, true, false, none, some, List, [], ◌∷◌, map, take}
use product_intelligence.Base.Result.{Result, ok, err}
use product_intelligence.Float.Fixed.{ℤ, pos, fixed, ◌+ℤ◌, mul_fixed, div_fixed}
use product_intelligence.Text.Strings.{ascii, codes}
use product_intelligence.Text.Metadata.{Metadata, text}
use product_intelligence.Search.Results.{NearestNeighbor, HybridSearchResult}
use product_intelligence.Search.Hybrid.{Indexes, HybridSearchService, Reranker}
use product_intelligence.Duplicate.Models.{DuplicateDecision}
use product_intelligence.Duplicate.Detection.{DuplicateDetectionService, detect_by_product_id}
use product_intelligence.Duplicate.DetectionLaws.{
  DecidesForOthers, detect_by_product_id-DecidesForOthers,
}
use product_intelligence.Duplicate.Verification.{
  DuplicateVerification, DuplicateVerificationService, verify,
}
use product_intelligence.Duplicate.VerificationLaws.{IsReported, verify-IsReported}
use product_intelligence.Duplicate.Examples.{exact, scorer, attributes, evaluator}

abbrev shoe : Metadata ℤ
shoe = ("name", text (codes "Shoe")) ∷ ("brand", text (codes "acme")) ∷ []

abbrev neighbors : List (NearestNeighbor ℤ)
neighbors =
    record { product_id = 1; score = pos 1000; metadata = shoe }
    ∷ record { product_id = 4; score = pos 950; metadata = shoe }
    ∷ []

abbrev catalog : Indexes ℤ ℕ ℕ ℕ
catalog = record {
  search_by_image = λ picture k filters. ok (take k neighbors);
  search_by_text = λ query k filters. ok (take k neighbors);
  image_by_vector = λ vector k filters. ok (take k neighbors);
  text_by_vector = λ vector k filters. ok (take k neighbors);
  retrieve_image = λ i. ok (some (record { vector = 0; metadata = shoe }));
  retrieve_text = λ i. ok (some (record { vector = 0; metadata = shoe }));
}

abbrev lenient : Reranker ℤ
lenient query results top_k = ok (
    map
      (λ (r : HybridSearchResult ℤ). record {
        product_id = r.product_id;
        original_score = r.score;
        rerank_score = pos 900;
        final_rank = 1;
        original_rank = 1;
        metadata = r.metadata;
      })
      results)

abbrev search_service : HybridSearchService ℤ ℕ ℕ ℕ
search_service = record {
  indexes = catalog;
  reranker = lenient;
  image_weight = pos 500;
  text_weight = pos 500;
  reranking_enabled = false;
  rerank_top_n = 20;
  default_top_k = 5;
}

abbrev detection : DuplicateDetectionService ℤ ℕ ℕ ℕ
detection = record {
  hybrid_search_service = search_service;
  similarity_scorer = scorer;
  reranker = lenient;
  top_k = 5;
  threshold = pos 850;
  reranking_enabled = true;
  rerank_top_n = 20;
  str = λ v. [];
}

abbrev verification : DuplicateVerificationService ℤ ℕ ℕ ℕ
verification = record {
  hybrid_search_service = search_service;
  reranker = lenient;
  business_rules_evaluator = evaluator;
  top_k = 5;
  cross_encoder_threshold = pos 850;
  cross_encoder_weight = pos 700;
  business_rules_weight = pos 300;
}

abbrev outcome : {E A : Type 0} → A → Result E A → A
outcome otherwise (ok a) = a
outcome otherwise (err e) = otherwise

abbrev undecided : DuplicateDecision ℤ
undecided = record {
  is_duplicate = false;
  confidence = pos 0;
  matched_product = none;
  top_candidates = [];
}

decision : DuplicateDecision ℤ
unfolding detect_by_product_id
decision =
    outcome undecided (detect_by_product_id ⦃u = ascii⦄ ⦃z = exact⦄ detection 1 none none none)

decision_found :
    detect_by_product_id ⦃u = ascii⦄ ⦃z = exact⦄ detection 1 none none none ≡ ok decision
unfolding decision ◌+ℤ◌ mul_fixed div_fixed
decision_found = refl

decision_is_of_four : decision.matched_product ≡ some 4
unfolding decision ◌+ℤ◌ mul_fixed div_fixed
decision_is_of_four = refl

detect_by_product_id-DecidesForOthers_example : DecidesForOthers 1 decision
detect_by_product_id-DecidesForOthers_example =
    detect_by_product_id-DecidesForOthers ⦃u = ascii⦄ ⦃z = exact⦄ detection 1 none none none
      decision decision_found

abbrev unverified : DuplicateVerification ℤ
unverified = record {
  is_duplicate = false;
  confidence = pos 0;
  cross_encoder_score = none;
  retrieval_similarity = none;
  matched_product = none;
  reasons = [];
  top_candidates = [];
}

-- Another brand is submitted, so that the gate on brands vetoes.
vetoed : DuplicateVerification ℤ
unfolding verify
vetoed = outcome unverified (
    verify ⦃u = ascii⦄ ⦃z = exact⦄ verification (codes "Shoe") (some (codes "Zeta")) none none 3
      none attributes none)

vetoed_found :
    verify ⦃u = ascii⦄ ⦃z = exact⦄ verification
      (codes "Shoe")
      (some (codes "Zeta"))
      none
      none
      3
      none
      attributes
      none
    ≡ ok vetoed
unfolding vetoed ◌+ℤ◌ mul_fixed div_fixed
vetoed_found = refl

vetoed_is_no_duplicate : vetoed.is_duplicate ≡ false
unfolding vetoed ◌+ℤ◌ mul_fixed div_fixed
vetoed_is_no_duplicate = refl

verify-IsReported_example : IsReported ⦃u = ascii⦄ ⦃z = exact⦄ verification vetoed
verify-IsReported_example =
    verify-IsReported ⦃u = ascii⦄ ⦃z = exact⦄ verification (codes "Shoe") (some (codes "Zeta")) none
      none 3 none attributes none vetoed vetoed_found
