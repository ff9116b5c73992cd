-- ===== src/Pricing/Comparable.antt =====
-- backend/app/models: what the pricing services pass to one another.
use product_intelligence.Base.{ℕ, Option, List}
use product_intelligence.Text.Strings.{Text}

pub record ComparableProduct (F : Type 0) : Type 0 where
  pub product_id : ℕ
  pub price : F
  pub similarity : F
  pub name : Option Text
  pub brand : Option Text
  pub category : Option Text

pub data PricingStrategy : Type 0 where
  weighted_average median trimmed_mean : PricingStrategy

pub data PriceStatus : Type 0 where
  estimated no_estimate : PriceStatus

pub data PriceConfidence : Type 0 where
  low medium high : PriceConfidence

-- The human-readable reason is assembled from the other fields and is not modelled.
pub record PriceEstimate (F : Type 0) : Type 0 where
  pub estimated_price : Option F
  pub status : PriceStatus
  pub confidence : PriceConfidence
  pub confidence_score : F
  pub strategy : PricingStrategy
  pub comparable_count : ℕ
  pub comparables : List (ComparableProduct F)
