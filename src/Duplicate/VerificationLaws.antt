-- ===== src/Duplicate/VerificationLaws.antt =====
-- What a verdict of the duplicate verification means.
use product_intelligence.Base.{
  ℕ, ◌≡◌, ◌↔◌, refl, ap, Bool, true, false, not, ◌&&◌, ◌||◌, Option, none, some, List, [], ◌∷◌, map,
  arith, is_some, or_default,
}
use product_intelligence.Base.Result.{
  ok, Ensures, returns, raises, Ensures-after, Ensures-ok, Ensures-unless,
}
use product_intelligence.Float.Interface.{Float, ◌≼◌}
use product_intelligence.Text.Strings.{Text, Unicode}
use product_intelligence.Text.Represent.{build_text_representation}
use product_intelligence.Search.Results.{HybridSearchResult}
use product_intelligence.Search.Rerank.{RerankedCandidate}
use product_intelligence.Search.Hybrid.{search}
use product_intelligence.Duplicate.Models.{ProductAttributes}
use product_intelligence.Duplicate.Similarity.{Fuzzy}
use product_intelligence.Duplicate.Rules.{ReasonCode, evaluate}
use product_intelligence.Duplicate.RulesLaws.{
  has_brand_mismatch, has_category_mismatch, evaluate-veto,
}
use product_intelligence.Duplicate.Verification.{
  VerificationCode, rule, validation_error, DuplicateVerification, DuplicateVerificationService,
  propagated, wrapped, validated_verification, no_match, conclude, conclude_if_any, verify,
}

-- The codes of the business rules among the reasons.
abbrev pub rule_codes : List VerificationCode → List ReasonCode
rule_codes [] = []
rule_codes (rule code ∷ codes) = code ∷ rule_codes codes
rule_codes (_ ∷ codes) = rule_codes codes

rule_codes-map : (codes : List ReasonCode) → rule_codes (map (λ code. rule code) codes) ≡ codes
rule_codes-map [] = refl
rule_codes-map (code ∷ codes) = ap (λ (cs : List ReasonCode). code ∷ cs) (rule_codes-map codes)

module _ {F I V Q : Type 0} ⦃f : Float F⦄ ⦃u : Unicode⦄ ⦃z : Fuzzy F⦄
    (s : DuplicateVerificationService F I V Q) where
  -- `score` reached the threshold, and no rule that is a gate stands among the reasons as a mismatch.
  abbrev pub IsEarned : DuplicateVerification F → (score : F) → Type 0
  IsEarned v score =
      (s.cross_encoder_threshold ≼ score)
      × (s.business_rules_evaluator.require_same_brand && has_brand_mismatch (rule_codes v.reasons)
          ≡ false)
      × (s.business_rules_evaluator.require_same_category
            && has_category_mismatch (rule_codes v.reasons)
          ≡ false)

  -- A verdict: without a match nothing is a duplicate; with one it is exactly if it is earned.
  abbrev pub IsVerdict : DuplicateVerification F → Option F → Type 0
  IsVerdict v none = (v.is_duplicate ≡ false) × (is_some v.matched_product ≡ false)
  IsVerdict v (some score) =
      ((v.is_duplicate ≡ true) ↔ IsEarned v score) × (is_some v.matched_product ≡ true)

  abbrev pub IsReported : DuplicateVerification F → Type 0
  IsReported v =
      (f.nought ≼ v.confidence) × (v.confidence ≼ f.unity) × IsVerdict v v.cross_encoder_score

  and_iff :
      (a b c d e : Bool)
      → b ≡ (c && d || e)
      → ((a && not b) ≡ true) ↔ ((a ≡ true) × ((c && d) ≡ false) × (e ≡ false))
  and_iff a b c d e h = ground arith

  validated_verification-Ensures :
      (v : DuplicateVerification F)
      → IsVerdict v v.cross_encoder_score
      → Ensures IsReported (validated_verification v)
  validated_verification-Ensures v h =
      Ensures-unless (f.le f.nought v.confidence && f.le v.confidence f.unity) validation_error
        (λ within. returns (ground arith, ground arith, h))

  conclude-IsReported :
      (name : Text) (brand category : Option Text) (price : Option F)
      (attributes : ProductAttributes F) (candidates : List (HybridSearchResult F))
      (reranked : List (RerankedCandidate F))
      → Ensures IsReported (conclude s name brand category price attributes candidates reranked)
  unfolding conclude
  conclude-IsReported name brand category price attributes candidates [] = raises
  conclude-IsReported name brand category price attributes candidates (best ∷ rest) =
      let e = s.business_rules_evaluator in
      let business = evaluate e name brand category price attributes best.metadata in
      validated_verification-Ensures _ (
        rw (rule_codes-map business.reasons) (
            and_iff (f.le s.cross_encoder_threshold best.rerank_score) business.veto
              e.require_same_brand (has_brand_mismatch business.reasons)
              (e.require_same_category && has_category_mismatch business.reasons)
              (evaluate-veto e name brand category price attributes best.metadata)),
        refl,
      )

  conclude_if_any-IsReported :
      (query name : Text) (brand category : Option Text) (price : Option F)
      (attributes : ProductAttributes F) (k : ℕ) (candidates : List (HybridSearchResult F))
      → Ensures IsReported
          (conclude_if_any s query name brand category price attributes k candidates)
  unfolding conclude_if_any
  conclude_if_any-IsReported query name brand category price attributes k [] =
      validated_verification-Ensures no_match (refl, refl)
  conclude_if_any-IsReported query name brand category price attributes k (c ∷ cs) =
      Ensures-after (wrapped (s.reranker query (c ∷ cs) (some k)))
        (λ reranked. conclude-IsReported name brand category price attributes (c ∷ cs) reranked)

  -- Whatever `verify` reports: the confidence lies in [0, 1]; where the cross-encoder scored no
  -- candidate nothing is a duplicate and nothing matches; and where it did, a product is matched, and
  -- the verdict is a duplicate exactly if that score reaches the threshold and the reasons show no
  -- mismatch of the brand (of the category) although the brand (the category) is required to agree.
  pub verify-IsReported :
      (name : Text) (brand category description : Option Text) (picture : I) (price : Option F)
      (attributes : ProductAttributes F) (top_k : Option ℕ) (v : DuplicateVerification F)
      → verify s name brand category description picture price attributes top_k ≡ ok v
      → IsReported v
  unfolding verify
  verify-IsReported name brand category description picture price attributes top_k v e =
      Ensures-ok {P = IsReported}
        (Ensures-after
          (propagated (
            search s.hybrid_search_service (some picture)
              (some (build_text_representation name brand category description))
              (some (or_default top_k s.top_k)) none (some false)))
          (λ candidates.
            conclude_if_any-IsReported (build_text_representation name brand category description)
              name brand category price attributes (or_default top_k s.top_k) candidates))
        e
