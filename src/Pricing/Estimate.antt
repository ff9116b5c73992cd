-- ===== src/Pricing/Estimate.antt =====
-- backend/app/services/pricing/price_estimator.py. `mean`, `pstdev`, `median` and `quantiles` are
-- Python's statistics, `round` and `int` its built-ins; square root and rounding are operations of
-- the float type.
use product_intelligence.Base.{
  ℕ, zero, suc, ◌+◌, ◌-◌, ◌*◌, ◌/◌, ◌%◌, Bool, ◌&&◌, ◌||◌, Option, none, some, List, [], ◌∷◌, map,
  length, take, drop, filter_by, ltb, ◌==◌, if◌then◌else◌, or_default, max, min,
}
use product_intelligence.Float.Interface.{Float, Numerics, max_of, min_of, sum}
use product_intelligence.Pricing.Comparable.{
  ComparableProduct, PricingStrategy, weighted_average, median, trimmed_mean, estimated,
  no_estimate, PriceConfidence, low, medium, high, PriceEstimate,
}

pub record PriceEstimator (F : Type 0) : Type 0 where
  pub strategy : PricingStrategy
  pub trim_ratio : F
  pub min_comparables : ℕ
  pub outlier_iqr_multiplier : F

abbrev pub min_for_outlier_removal : ℕ
min_for_outlier_removal = 4

module _ {F : Type 0} ⦃f : Float F⦄ where
  -- The literals 0.7 and 0.4.
  abbrev pub high_score : F
  high_score = f.div (f.of_ℕ 7) (f.of_ℕ 10)

  abbrev pub medium_score : F
  medium_score = f.div (f.of_ℕ 4) (f.of_ℕ 10)

  -- `sorted`: stable, by `<` alone.
  abbrev pub insert : F → List F → List F
  insert x [] = x ∷ []
  insert x (y ∷ ys) = if f.lt y x then y ∷ insert x ys else x ∷ y ∷ ys

  unfoldable pub sorted : List F → List F
  sorted [] = []
  sorted (x ∷ xs) = insert x (sorted xs)

  abbrev pub nth : List F → ℕ → F
  nth [] i = f.nought
  nth (x ∷ xs) zero = x
  nth (x ∷ xs) (suc i) = nth xs i

  abbrev pub average : List F → F
  average xs = f.div (sum xs) (f.of_ℕ (length xs))

  -- `statistics.quantiles(data, n=4)` of sorted data, the cut point `k` of 1 to 3.
  unfoldable pub quartile : List F → (k : ℕ) → F
  quartile ordered k =
      let m = length ordered + 1 in
      let j = max 1 (min (k * m / 4) (length ordered - 1)) in
      let delta = k * m - j * 4 in
      f.div
        (f.add (f.mul (nth ordered (j - 1)) (f.of_ℕ (4 - delta)))
          (f.mul (nth ordered j) (f.of_ℕ delta)))
        (f.of_ℕ 4)

  unfoldable pub median_of : List F → F
  unfolding sorted
  median_of prices =
      let ordered = sorted prices in
      let n = length ordered in
      if n % 2 == 1
      then nth ordered (n / 2)
      else f.div (f.add (nth ordered (n / 2 - 1)) (nth ordered (n / 2))) (f.of_ℕ 2)

  abbrev pub prices_of : List (ComparableProduct F) → List F
  prices_of comparables = map (λ c. c.price) comparables

  abbrev pub weight : ComparableProduct F → F
  weight c = max_of c.similarity f.nought

  unfoldable pub weighted_average_of : List (ComparableProduct F) → F
  weighted_average_of comparables =
      let total_weight = sum (map weight comparables) in
      if f.le total_weight f.nought
      then average (prices_of comparables)
      else f.div (sum (map (λ c. f.mul c.price (weight c)) comparables)) total_weight

  -- `ordered[cut : len(ordered) - cut] if cut else ordered`, or all of it if that is empty.
  abbrev pub trim : (cut : ℕ) → List F → List F
  trim cut ordered = drop cut (take (length ordered - cut) ordered)

  abbrev pub unless_trimmed_away : List F → List F → List F
  unless_trimmed_away [] ordered = ordered
  unless_trimmed_away (x ∷ xs) ordered = x ∷ xs

  abbrev pub kept_after_trim : (cut : ℕ) → List F → List F
  kept_after_trim cut ordered = unless_trimmed_away (trim cut ordered) ordered

  module _ ⦃n : Numerics F⦄ where
    unfoldable pub trimmed_mean_of : (trim_ratio : F) → List F → F
    unfolding sorted
    trimmed_mean_of trim_ratio prices =
        let ordered = sorted prices in
        average (kept_after_trim (n.truncate (f.mul (f.of_ℕ (length ordered)) trim_ratio)) ordered)

    unfoldable pub aggregate : (trim_ratio : F) → PricingStrategy → List (ComparableProduct F) → F
    unfolding median_of weighted_average_of trimmed_mean_of
    aggregate trim_ratio median comparables = median_of (prices_of comparables)
    aggregate trim_ratio weighted_average comparables = weighted_average_of comparables
    aggregate trim_ratio trimmed_mean comparables =
        trimmed_mean_of trim_ratio (prices_of comparables)

    module _ (estimator : PriceEstimator F) where
      -- The Tukey fence around the quartiles of the prices.
      unfoldable pub within_fence : List F → ComparableProduct F → Bool
      unfolding quartile
      within_fence prices c =
          let q1 = quartile prices 1 in
          let q3 = quartile prices 3 in
          let reach = f.mul estimator.outlier_iqr_multiplier (f.sub q3 q1) in
          f.le (f.sub q1 reach) c.price && f.le c.price (f.add q3 reach)

      unfoldable pub remove_outliers : List (ComparableProduct F) → List (ComparableProduct F) × ℕ
      unfolding sorted
      remove_outliers comparables =
          let kept = filter_by (within_fence (sorted (prices_of comparables))) comparables in
          if ltb (length comparables) min_for_outlier_removal
            || f.le estimator.outlier_iqr_multiplier f.nought
          then (comparables, 0)
          else (kept, length comparables - length kept)

      unfoldable pub band : (count : ℕ) (score : F) → PriceConfidence
      band count score =
          if ltb count estimator.min_comparables
          then low
          else (if f.le high_score score
              then high
              else (if f.le medium_score score then medium else low))

      unfoldable pub score_of : List (ComparableProduct F) → F
      score_of comparables =
          let count = length comparables in
          let prices = prices_of comparables in
          let mean_price = average prices in
          let variation =
            if ltb 1 count && f.lt f.nought mean_price
            then f.div (n.pstdev prices) mean_price
            else f.nought in
          let count_factor =
            min_of (f.div (f.of_ℕ count) (f.of_ℕ (estimator.min_comparables * 2))) f.unity in
          let spread_factor = max_of f.nought (f.sub f.unity variation) in
          n.round_to 3 (f.mul count_factor spread_factor)

      unfoldable pub declined : PricingStrategy → PriceEstimate F
      declined strategy = record {
        estimated_price = none;
        status = no_estimate;
        confidence = low;
        confidence_score = f.nought;
        strategy = strategy;
        comparable_count = 0;
        comparables = [];
      }

      unfoldable pub estimate_from : PricingStrategy → List (ComparableProduct F) → PriceEstimate F
      unfolding aggregate band score_of
      estimate_from strategy kept = record {
        estimated_price = some (n.round_to 2 (aggregate estimator.trim_ratio strategy kept));
        status = estimated;
        confidence = band (length kept) (score_of kept);
        confidence_score = score_of kept;
        strategy = strategy;
        comparable_count = length kept;
        comparables = kept;
      }

      unfoldable pub estimate :
          List (ComparableProduct F) → (strategy : Option PricingStrategy) → PriceEstimate F
      unfolding remove_outliers estimate_from declined
      estimate [] strategy = declined (or_default strategy estimator.strategy)
      estimate (c ∷ cs) strategy =
          estimate_from (or_default strategy estimator.strategy) (remove_outliers (c ∷ cs)).0
