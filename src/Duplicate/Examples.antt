-- ===== src/Duplicate/Examples.antt =====
-- The theorems on duplicates at concrete inputs, in thousandths, with a ratio that is 100 for equal
-- texts and 0 for others.
use product_intelligence.Base.{
  ◌≡◌, none, some, [], ◌∷◌, if◌then◌else◌, true, false, ◌&&◌, ◌||◌, length, is_some,
}
use product_intelligence.Float.Fixed.{ℤ, pos, fixed, fixed-IsOrdered}
use product_intelligence.Text.Strings.{ascii, codes, text_eq}
use product_intelligence.Text.Metadata.{text}
use product_intelligence.Search.Results.{HybridSearchResult}
use product_intelligence.Duplicate.Models.{ProductAttributes}
use product_intelligence.Duplicate.Similarity.{Fuzzy, SimilarityScorer, score}
use product_intelligence.Duplicate.Decision.{decide_on}
use product_intelligence.Duplicate.DecisionLaws.{at_least, Below, results_of, decide_on_lem}
use product_intelligence.Duplicate.Rules.{BusinessRulesEvaluator, evaluate}
use product_intelligence.Duplicate.RulesLaws.{
  has_brand_mismatch, has_category_mismatch, evaluate-veto,
}

abbrev pub exact : Fuzzy ℤ
exact = record { token_sort_ratio = λ a b. if text_eq a b then pos 100000 else pos 0 }

abbrev pub scorer : SimilarityScorer ℤ
scorer = record {
  image_weight = pos 400;
  text_weight = pos 300;
  metadata_weight = pos 200;
  attribute_weight = pos 100;
}

abbrev pub attributes : ProductAttributes ℤ
attributes = record {
  brand = some (codes "Acme");
  category = none;
  subcategory = none;
  color = none;
  material = none;
  pattern = none;
  gender = none;
  age_group = none;
  style = none;
  season = none;
  occasion = none;
  confidence = pos 900;
}

abbrev candidate : HybridSearchResult ℤ
candidate = record {
  product_id = 4;
  score = pos 950;
  metadata = ("name", text (codes "Shoe")) ∷ ("brand", text (codes "acme")) ∷ [];
  matched_modalities = [];
  image_score = pos 1200;
  text_score = pos 700;
}

decide_on_lem_example :
    let results =
      results_of fixed-IsOrdered ⦃u = ascii⦄ ⦃z = exact⦄ scorer
        (codes "Shoe")
        none
        none
        attributes
        (candidate ∷ []) in
    let d =
      decide_on ⦃u = ascii⦄ ⦃z = exact⦄ scorer
        (codes "Shoe")
        none
        none
        attributes
        (pos 850)
        (candidate ∷ []) in
    (d.is_duplicate ≡ at_least fixed-IsOrdered (pos 850) results)
    × (is_some d.matched_product ≡ d.is_duplicate)
    × Below fixed-IsOrdered d.confidence results
    × (length d.top_candidates ≡ 1)
decide_on_lem_example =
    decide_on_lem fixed-IsOrdered ⦃u = ascii⦄ ⦃z = exact⦄ scorer (codes "Shoe") none none attributes
      (pos 850) (candidate ∷ [])

abbrev pub evaluator : BusinessRulesEvaluator ℤ
evaluator = record {
  require_same_brand = true;
  require_same_category = false;
  max_price_difference_ratio = pos 200;
  title_similarity_threshold = pos 800;
}

evaluate-veto_example :
    let r =
      evaluate ⦃u = ascii⦄ ⦃z = exact⦄ evaluator
        (codes "Shoe")
        (some (codes "Zeta"))
        none
        none
        attributes
        candidate.metadata in
    r.veto ≡ true && has_brand_mismatch r.reasons || false && has_category_mismatch r.reasons
evaluate-veto_example =
    evaluate-veto ⦃u = ascii⦄ ⦃z = exact⦄ evaluator (codes "Shoe") (some (codes "Zeta")) none none
      attributes candidate.metadata
