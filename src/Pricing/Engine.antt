-- ===== src/Pricing/Engine.antt =====
-- backend/app/services/pricing/pricing_engine.py. Retrieval by HybridSearchService is a parameter; an
-- exception of the application passes through, any other becomes a PricingException.
use product_intelligence.Base.{ℕ, Option, none, some, List, or_default}
use product_intelligence.Base.Result.{Result, ok, err, ◌>>=◌}
use product_intelligence.Float.Interface.{Float, Numerics}
use product_intelligence.Text.Strings.{Text, Unicode}
use product_intelligence.Text.Metadata.{Metadata, get, as_text}
use product_intelligence.Text.Represent.{build_text_representation}
use product_intelligence.Search.Results.{HybridSearchResult}
use product_intelligence.Pricing.Comparable.{PriceEstimate}
use product_intelligence.Pricing.Filter.{ComparableFilter, apply}
use product_intelligence.Pricing.Normalize.{to_comparables}
use product_intelligence.Pricing.Estimate.{PriceEstimator, estimate}

-- An exception: one of the application's, or any other.
pub data Raised : Type 0 where
  app : ℕ → Raised
  other : ℕ → Raised

pub data PricingError : Type 0 where
  app_error : ℕ → PricingError
  pricing_exception : PricingError

abbrev pub wrap : {A : Type 0} → Result Raised A → Result PricingError A
wrap (ok a) = ok a
wrap (err (app code)) = err (app_error code)
wrap (err (other code)) = err pricing_exception

pub record Retrieval (F : Type 0) : Type 0 where
  pub search : Text → (top_k : ℕ) → Result Raised (List (HybridSearchResult F))
  pub search_by_product_id : ℕ → (top_k : ℕ) → Result Raised (List (HybridSearchResult F))
  pub retrieve_metadata : ℕ → Result Raised (Option (Metadata F))

pub record PricingEngine (F : Type 0) : Type 0 where
  pub retrieval : Retrieval F
  pub comparable_filter : ComparableFilter F
  pub estimator : PriceEstimator F
  pub top_k : ℕ

module _ {F : Type 0} ⦃f : Float F⦄ ⦃n : Numerics F⦄ ⦃u : Unicode⦄ (engine : PricingEngine F) where
  unfoldable pub estimate_results : List (HybridSearchResult F) → Option Text → PriceEstimate F
  unfolding apply to_comparables estimate
  estimate_results results category =
      estimate engine.estimator
        (apply engine.comparable_filter (to_comparables results) category).kept none

  unfoldable pub estimate_for_request :
      (name : Text) (brand category description : Option Text) (top_k : Option ℕ)
      → Result PricingError (PriceEstimate F)
  unfolding estimate_results
  estimate_for_request name brand category description top_k = do
    results ← wrap (
        engine.retrieval.search (build_text_representation name brand category description)
          (or_default top_k engine.top_k))
    ok (estimate_results results category)

  -- `_category_of`
  abbrev pub category_of : Option (Metadata F) → Option Text
  category_of none = none
  category_of (some point) = as_text (get "category" point)

  unfoldable pub estimate_for_product : ℕ → Result PricingError (PriceEstimate F)
  unfolding estimate_results
  estimate_for_product product_id = wrap (do
    results ← engine.retrieval.search_by_product_id product_id engine.top_k
    point ← engine.retrieval.retrieve_metadata product_id
    ok (estimate_results results (category_of point)))
