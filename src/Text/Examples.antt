-- ===== src/Text/Examples.antt =====
-- The theorems on facets at concrete inputs, with the tables of ASCII.
use product_intelligence.Base.{◌≡◌, refl, false, some}
use product_intelligence.Text.Strings.{ascii, codes}
use product_intelligence.Text.Facet.{normalize_facet, collapse}
use product_intelligence.Text.FacetLaws.{
  IsSlug, normalize_facet-IsSlug, ascii-IsUnicode, normalize_facet_idempotent,
}

running_shoes :
    normalize_facet ⦃u = ascii⦄ (some (codes " Running  Shoes! ")) ≡ some (codes "running-shoes")
unfolding normalize_facet collapse
running_shoes = refl

normalize_facet-IsSlug_example : IsSlug false (codes "running-shoes")
normalize_facet-IsSlug_example =
    normalize_facet-IsSlug ⦃u = ascii⦄ (some (codes " Running  Shoes! "))
      {key = codes "running-shoes"} running_shoes

normalize_facet_idempotent_example :
    normalize_facet ⦃u = ascii⦄ (normalize_facet ⦃u = ascii⦄ (some (codes " Home & Kitchen")))
    ≡ normalize_facet ⦃u = ascii⦄ (some (codes " Home & Kitchen"))
normalize_facet_idempotent_example =
    normalize_facet_idempotent ⦃u = ascii⦄ ascii-IsUnicode (some (codes " Home & Kitchen"))
