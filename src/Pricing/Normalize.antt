-- ===== src/Pricing/Normalize.antt =====
-- backend/app/services/pricing/price_normalizer.py.
use product_intelligence.Base.{Option, none, some, List, [], ◌∷◌, if◌then◌else◌}
use product_intelligence.Float.Interface.{Float}
use product_intelligence.Text.Strings.{Text, Unicode, strip, is_empty}
use product_intelligence.Text.Metadata.{Value, get, number, text}
use product_intelligence.Search.Results.{HybridSearchResult}
use product_intelligence.Pricing.Comparable.{ComparableProduct}

module _ {F : Type 0} ⦃f : Float F⦄ ⦃u : Unicode⦄ where
  abbrev pub coerce_price : Value F → Option F
  coerce_price (number price) = if f.lt f.nought price then some price else none
  coerce_price _ = none

  abbrev pub coerce_str : Value F → Option Text
  coerce_str (text t) = if is_empty (strip t) then none else some t
  coerce_str _ = none

  abbrev pub priced : HybridSearchResult F → F → ComparableProduct F
  priced result price = record {
    product_id = result.product_id;
    price = price;
    similarity = result.score;
    name = coerce_str (get "name" result.metadata);
    brand = coerce_str (get "brand" result.metadata);
    category = coerce_str (get "category" result.metadata);
  }

  abbrev pub append_priced :
      HybridSearchResult F → Option F → List (ComparableProduct F) → List (ComparableProduct F)
  append_priced result none rest = rest
  append_priced result (some price) rest = priced result price ∷ rest

  unfoldable pub to_comparables : List (HybridSearchResult F) → List (ComparableProduct F)
  to_comparables [] = []
  to_comparables (result ∷ results) =
      append_priced result (coerce_price (get "price" result.metadata)) (to_comparables results)
