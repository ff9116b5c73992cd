-- ===== src/Duplicate/Decision.antt =====
-- backend/app/services/duplicate/duplicate_detection_service.py: the scoring of the candidates and
-- the decision.
use product_intelligence.Base.{
  Bool, true, false, Option, none, some, List, [], ◌∷◌, map, if◌then◌else◌,
}
use product_intelligence.Float.Interface.{Float}
use product_intelligence.Float.Ranking.{ranked}
use product_intelligence.Text.Strings.{Text, Unicode}
use product_intelligence.Search.Results.{HybridSearchResult}
use product_intelligence.Duplicate.Models.{
  ProductAttributes, Signal, image, text, metadata, attribute, SimilaritySignal, DuplicateResult,
  DuplicateCandidate, DuplicateDecision,
}
use product_intelligence.Duplicate.Similarity.{Fuzzy, SimilarityScorer, score}

abbrev pub same_signal : Signal → Signal → Bool
same_signal image image = true
same_signal text text = true
same_signal metadata metadata = true
same_signal attribute attribute = true
same_signal _ _ = false

module _ {F : Type 0} ⦃f : Float F⦄ where
  -- `by_name.get(name, 0.0)`; of two signals with one name the last counts.
  abbrev pub score_by_name : Signal → List (SimilaritySignal F) → (otherwise : F) → F
  score_by_name name [] otherwise = otherwise
  score_by_name name (s ∷ signals) otherwise =
      score_by_name name signals (if same_signal s.name name then s.score else otherwise)

  abbrev pub to_candidate : DuplicateResult F → DuplicateCandidate F
  to_candidate r = record {
    product_id = r.product_id;
    image_similarity = score_by_name image r.signals f.nought;
    text_similarity = score_by_name text r.signals f.nought;
    metadata_similarity = score_by_name metadata r.signals f.nought;
    attribute_similarity = score_by_name attribute r.signals f.nought;
    overall_similarity = r.overall_similarity;
  }

  -- The decision on the ranked results.
  abbrev pub decide : (threshold : F) → List (DuplicateResult F) → DuplicateDecision F
  decide threshold [] = record {
    is_duplicate = false;
    confidence = f.nought;
    matched_product = none;
    top_candidates = [];
  }
  decide threshold (best ∷ rest) = record {
    is_duplicate = f.le threshold best.overall_similarity;
    confidence = best.overall_similarity;
    matched_product = if f.le threshold best.overall_similarity then some best.product_id else none;
    top_candidates = map to_candidate (best ∷ rest);
  }

  unfoldable pub build_decision : List (DuplicateResult F) → (threshold : F) → DuplicateDecision F
  unfolding ranked
  build_decision results threshold =
      decide threshold (ranked (λ (r : DuplicateResult F). r.overall_similarity) results)

  module _ ⦃u : Unicode⦄ ⦃z : Fuzzy F⦄ (scorer : SimilarityScorer F) where
    -- The part of `detect` after the retrieval: score each candidate, and decide.
    unfoldable pub decide_on :
        (name : Text) (brand category : Option Text)
        → ProductAttributes F
        → (threshold : F) → List (HybridSearchResult F)
        → DuplicateDecision F
    unfolding build_decision score
    decide_on name brand category attributes threshold candidates =
        build_decision (map (λ c. score scorer name brand category attributes c) candidates)
          threshold
