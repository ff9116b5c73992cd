-- ===== src/Recommendation/Examples.antt =====
-- The theorems on recommendations at concrete inputs, in thousandths and with the tables of ASCII.
use product_intelligence.Base.{ℕ, ◌≤◌, ◌≡◌, if◌then◌else◌, List, [], ◌∷◌, length, min, take, ◌==◌}
use product_intelligence.Float.Fixed.{ℤ, pos, fixed}
use product_intelligence.Text.Strings.{Text, codes}
use product_intelligence.Text.Metadata.{Metadata, Value, number, texts}
use product_intelligence.Search.Results.{HybridSearchResult}
use product_intelligence.Recommendation.Scorer.{RecommendationScorer}
use product_intelligence.Recommendation.Diversify.{group_by, diversify}
use product_intelligence.Recommendation.DiversifyLaws.{columns, diversify_lem}
use product_intelligence.Recommendation.DiversifyCount.{count_by, diversify_counts}

-- Five candidates, as numbers, of two brands.
abbrev candidates : List ℕ
candidates = 1 ∷ 2 ∷ 3 ∷ 14 ∷ 5 ∷ []

abbrev brand : ℕ → Text
brand n = if n == 14 then codes "puma" else codes "nike"

diversify_lem_example :
    diversify brand candidates 3 ≡ take 3 (columns 6 0 (group_by brand candidates []))
diversify_lem_example = diversify_lem brand candidates 3

diversify_counts_example :
    let kept = diversify brand candidates 3 in
    (length kept ≡ min 3 5)
    × (count_by (λ n. n == 2) kept ≤ 1)
    × (5 ≤ 3 → count_by (λ n. n == 2) kept ≡ 1)
diversify_counts_example = diversify_counts brand candidates 3 (λ n. n == 2)

abbrev red : Value ℤ
red = texts (codes "Red" ∷ codes " run " ∷ [])

abbrev blue : Value ℤ
blue = texts (codes "blue" ∷ codes "RUN" ∷ [])

abbrev scorer : RecommendationScorer ℤ
scorer = record {
  similarity_weight = pos 500;
  attribute_weight = pos 200;
  tag_weight = pos 200;
  quality_weight = pos 100;
}

abbrev target : Metadata ℤ
target = ("tags", red) ∷ []

abbrev candidate : HybridSearchResult ℤ
candidate = record {
  product_id = 4;
  score = pos 1200;
  metadata = ("tags", blue) ∷ ("quality_score", number (pos 800)) ∷ [];
  matched_modalities = [];
  image_score = pos 0;
  text_score = pos 0;
}
