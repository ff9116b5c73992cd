-- ===== src/Pricing/Examples.antt =====
-- The theorems on pricing at concrete inputs, in thousandths.
use mathlib.Core.List.{Perm}
use product_intelligence.Base.{ℕ, ◌+◌, ◌≡◌, refl, true, none, some, List, [], ◌∷◌, length, arith}
use product_intelligence.Float.Fixed.{ℤ, pos, fixed, fixed_numerics, fixed-IsOrdered}
use product_intelligence.Text.Strings.{Text, ascii, codes}
use product_intelligence.Pricing.Comparable.{ComparableProduct, weighted_average}
use product_intelligence.Pricing.Filter.{
  ComparableFilter, normalize_category, excluded_total, apply,
}
use product_intelligence.Pricing.FilterLaws.{apply_total}
use product_intelligence.Pricing.Estimate.{PriceEstimator, sorted}
use product_intelligence.Pricing.EstimateLaws.{IsSorted, sorted-IsSorted}

abbrev priced : ℕ → ℕ → Text → ComparableProduct ℤ
priced i price category = record {
  product_id = i;
  price = pos price;
  similarity = pos 800;
  name = none;
  brand = none;
  category = some category;
}

abbrev shoes : List (ComparableProduct ℤ)
shoes =
    priced 1 20000 (codes "Shoes")
    ∷ priced 2 25000 (codes " shoes ")
    ∷ priced 3 90000 (codes "Bags")
    ∷ []

abbrev filter : ComparableFilter ℤ
filter = record { similarity_floor = pos 500; enforce_category = true }

abbrev estimator : PriceEstimator ℤ
estimator = record {
  strategy = weighted_average;
  trim_ratio = pos 100;
  min_comparables = 3;
  outlier_iqr_multiplier = pos 1500;
}

apply_total_example :
    let o = apply ⦃u = ascii⦄ filter shoes (some (codes "SHOES")) in
    length o.kept + excluded_total o ≡ 3
apply_total_example = apply_total ⦃u = ascii⦄ filter shoes (some (codes "SHOES"))

category_of_shoes : normalize_category ⦃u = ascii⦄ (some (codes "SHOES")) ≡ some (codes "shoes")
unfolding normalize_category
category_of_shoes = refl

no_category : normalize_category ⦃u = ascii⦄ none ≡ none
unfolding normalize_category
no_category = refl

sorted-IsSorted_example :
    IsSorted (sorted (pos 3 ∷ pos 1 ∷ pos 2 ∷ []))
    × Perm (sorted (pos 3 ∷ pos 1 ∷ pos 2 ∷ [])) (pos 3 ∷ pos 1 ∷ pos 2 ∷ [])
sorted-IsSorted_example =
    sorted-IsSorted fixed-IsOrdered (pos 3 ∷ pos 1 ∷ pos 2 ∷ []) (ground arith)
