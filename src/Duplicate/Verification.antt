-- ===== src/Duplicate/Verification.antt =====
-- backend/app/services/duplicate/duplicate_verification_service.py and duplicate_check_service.py. A
-- reason is its code. Image processing and catalog enrichment are parameters of the check; metrics and
-- logging are not modelled.
use product_intelligence.Base.{
  ℕ, Bool, false, not, ◌&&◌, Option, none, some, List, [], ◌∷◌, map, if◌then◌else◌, or_default,
}
use product_intelligence.Base.Result.{Result, ok, err, ◌>>=◌}
use product_intelligence.Float.Interface.{Float, clamp}
use product_intelligence.Text.Strings.{Text, Unicode}
use product_intelligence.Text.Represent.{build_text_representation}
use product_intelligence.Search.Results.{HybridSearchResult}
use product_intelligence.Search.Rerank.{SearchError, rerank_exception, RerankedCandidate}
use product_intelligence.Search.Hybrid.{HybridSearchService, Reranker, find_by_id, search}
use product_intelligence.Duplicate.Models.{ProductAttributes, DuplicateCandidate, DuplicateDecision}
use product_intelligence.Duplicate.Similarity.{Fuzzy}
use product_intelligence.Duplicate.Rules.{ReasonCode, BusinessRulesEvaluator, evaluate}
use product_intelligence.Duplicate.Detection.{DuplicateDetectionService, detect}

pub data VerificationCode : Type 0 where
  no_candidates cross_encoder weighted_similarity : VerificationCode
  rule : ReasonCode → VerificationCode

pub record DuplicateVerification (F : Type 0) : Type 0 where
  pub is_duplicate : Bool
  pub confidence : F
  pub cross_encoder_score : Option F
  pub retrieval_similarity : Option F
  pub matched_product : Option ℕ
  pub reasons : List VerificationCode
  pub top_candidates : List (DuplicateCandidate F)

-- An exception of a search or reranker that goes through, DuplicateVerificationException, IndexError,
-- pydantic's ValidationError, and an exception of a service that the check calls.
pub data VerificationError : Type 0 where
  raised : SearchError → VerificationError
  duplicate_verification_exception index_error validation_error : VerificationError
  service : ℕ → VerificationError

pub record DuplicateVerificationService (F I V Q : Type 0) : Type 0 where
  pub hybrid_search_service : HybridSearchService F I V Q
  pub reranker : Reranker F
  pub business_rules_evaluator : BusinessRulesEvaluator F
  pub top_k : ℕ
  pub cross_encoder_threshold : F
  pub cross_encoder_weight : F
  pub business_rules_weight : F

-- An exception that propagates as itself.
abbrev pub propagated : {A : Type 0} → Result SearchError A → Result VerificationError A
propagated (ok a) = ok a
propagated (err e) = err (raised e)

-- `except RerankException: raise`, and any other exception is wrapped.
abbrev pub wrapped : {A : Type 0} → Result SearchError A → Result VerificationError A
wrapped (ok a) = ok a
wrapped (err rerank_exception) = err (raised rerank_exception)
wrapped (err _) = err duplicate_verification_exception

module _ {F : Type 0} ⦃f : Float F⦄ where
  -- `original.image_score if original is not None else 0.0`
  abbrev pub score_or_zero : (HybridSearchResult F → F) → Option (HybridSearchResult F) → F
  score_or_zero score none = f.nought
  score_or_zero score (some original) = score original

  abbrev pub verified_candidate :
      RerankedCandidate F → (original : Option (HybridSearchResult F)) → DuplicateCandidate F
  verified_candidate reranked original = record {
    product_id = reranked.product_id;
    image_similarity = clamp (score_or_zero (λ r. r.image_score) original);
    text_similarity = clamp (score_or_zero (λ r. r.text_score) original);
    metadata_similarity = f.nought;
    attribute_similarity = f.nought;
    overall_similarity = clamp reranked.rerank_score;
  }

  -- The model demands a confidence in [0, 1].
  abbrev pub validated_verification :
      DuplicateVerification F → Result VerificationError (DuplicateVerification F)
  validated_verification v =
      if f.le f.nought v.confidence && f.le v.confidence f.unity then ok v else err validation_error

  abbrev pub no_match : DuplicateVerification F
  no_match = record {
    is_duplicate = false;
    confidence = f.nought;
    cross_encoder_score = none;
    retrieval_similarity = none;
    matched_product = none;
    reasons = no_candidates ∷ [];
    top_candidates = [];
  }

  abbrev pub decision_to_verification :
      DuplicateDecision F → Result VerificationError (DuplicateVerification F)
  decision_to_verification decision = validated_verification (record {
    is_duplicate = decision.is_duplicate;
    confidence = decision.confidence;
    cross_encoder_score = none;
    retrieval_similarity = none;
    matched_product = decision.matched_product;
    reasons = weighted_similarity ∷ [];
    top_candidates = decision.top_candidates;
  })

module _ {F I V Q : Type 0} ⦃f : Float F⦄ ⦃u : Unicode⦄ ⦃z : Fuzzy F⦄
    (s : DuplicateVerificationService F I V Q) where
  -- The verdict on the best reranked candidate.
  unfoldable pub conclude :
      (name : Text) (brand category : Option Text) (price : Option F)
      → ProductAttributes F
      → (candidates : List (HybridSearchResult F)) (reranked : List (RerankedCandidate F))
      → Result VerificationError (DuplicateVerification F)
  unfolding evaluate
  conclude name brand category price attributes candidates [] = err index_error
  conclude name brand category price attributes candidates (best ∷ rest) =
      let business =
        evaluate s.business_rules_evaluator name brand category price attributes best.metadata in
      validated_verification (record {
        is_duplicate = f.le s.cross_encoder_threshold best.rerank_score && not business.veto;
        confidence =
            f.add (f.mul s.cross_encoder_weight best.rerank_score)
              (f.mul s.business_rules_weight business.score);
        cross_encoder_score = some best.rerank_score;
        retrieval_similarity = some best.original_score;
        matched_product = some best.product_id;
        reasons = cross_encoder ∷ map (λ (code : ReasonCode). rule code) business.reasons;
        top_candidates =
            map
              (λ (r : RerankedCandidate F).
                verified_candidate r (find_by_id r.product_id candidates none))
              (best ∷ rest);
      })

  unfoldable pub conclude_if_any :
      (query name : Text) (brand category : Option Text) (price : Option F)
      → ProductAttributes F
      → (top_k : ℕ) (candidates : List (HybridSearchResult F))
      → Result VerificationError (DuplicateVerification F)
  unfolding conclude
  conclude_if_any query name brand category price attributes k [] = validated_verification no_match
  conclude_if_any query name brand category price attributes k (c ∷ cs) = do
    reranked ← wrapped (s.reranker query (c ∷ cs) (some k))
    conclude name brand category price attributes (c ∷ cs) reranked

  unfoldable pub verify :
      (name : Text) (brand category description : Option Text)
      → I
      → (price : Option F) → ProductAttributes F
      → (top_k : Option ℕ) → Result VerificationError (DuplicateVerification F)
  unfolding conclude_if_any search build_text_representation
  verify name brand category description picture price attributes top_k = do
    let k = or_default top_k s.top_k
    let query = build_text_representation name brand category description
    candidates ←
        propagated
          (search s.hybrid_search_service (some picture) (some query) (some k) none (some false))
    conclude_if_any query name brand category price attributes k candidates

-- DuplicateCheckService. `P` is the type of paths: `process_image` of the stored file gives the path of
-- the processed one, and `enrich` the resolved attributes.
pub record DuplicateCheckService (F I V Q P : Type 0) : Type 0 where
  pub process_image : I → Result VerificationError P
  pub enrich :
      (name : Text) (brand category description : Option Text)
      → P
      → Result VerificationError (ProductAttributes F)
  pub detection : DuplicateDetectionService F I V Q
  pub verification : DuplicateVerificationService F I V Q
  pub verification_enabled : Bool

module _ {F I V Q P : Type 0} ⦃f : Float F⦄ ⦃u : Unicode⦄ ⦃z : Fuzzy F⦄
    (s : DuplicateCheckService F I V Q P) where
  unfoldable pub check :
      (name : Text) (brand category description : Option Text)
      → I
      → (price : Option F) (top_k : Option ℕ) (threshold : Option F)
      → Result VerificationError (DuplicateVerification F)
  unfolding verify detect
  check name brand category description picture price top_k threshold = do
    path ← s.process_image picture
    attributes ← s.enrich name brand category description path
    if s.verification_enabled
        then verify s.verification name brand category description picture price attributes top_k
        else (propagated (
              detect s.detection name brand category description attributes picture top_k threshold
                none)
            >>= decision_to_verification)
