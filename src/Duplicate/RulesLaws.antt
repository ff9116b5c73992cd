-- ===== src/Duplicate/RulesLaws.antt =====
-- A veto is explained by its reason, and the counters of the rules fit.
use product_intelligence.Base.{
  ℕ, ◌+◌, ◌≤◌, ◌≡◌, ◌∙◌, Bool, true, false, not, ◌&&◌, ◌||◌, Option, none, some, List, [], ◌∷◌,
  ◌++◌, length, length-append, arith, any_by,
}
use product_intelligence.Float.Interface.{Float}
use product_intelligence.Text.Strings.{Text, Unicode}
use product_intelligence.Text.Metadata.{Metadata, get, as_text}
use product_intelligence.Duplicate.Models.{ProductAttributes}
use product_intelligence.Duplicate.Similarity.{Fuzzy}
use product_intelligence.Duplicate.Rules.{
  ReasonCode, brand_mismatch, category_mismatch, BusinessRulesEvaluator, Outcome, Tally, tally,
  evaluate_brand, evaluate_category, evaluate_price, evaluate_title, evaluate_attribute_overlap,
  as_number, category_match_ratio, tallied, evaluate,
}

abbrev is_brand_mismatch : ReasonCode → Bool
is_brand_mismatch brand_mismatch = true
is_brand_mismatch _ = false

abbrev is_category_mismatch : ReasonCode → Bool
is_category_mismatch category_mismatch = true
is_category_mismatch _ = false

abbrev pub has_brand_mismatch : List ReasonCode → Bool
has_brand_mismatch reasons = any_by is_brand_mismatch reasons

abbrev pub has_category_mismatch : List ReasonCode → Bool
has_category_mismatch reasons = any_by is_category_mismatch reasons

abbrev gives : (ReasonCode → Bool) → Outcome → Bool
gives p none = false
gives p (some (matched, reason)) = p reason

abbrev mismatched : Outcome → Bool
mismatched none = false
mismatched (some (matched, reason)) = not matched

any_by-snoc :
    (p : ReasonCode → Bool) (rs : List ReasonCode) (r : ReasonCode)
    → any_by p (rs ++ (r ∷ [])) ≡ any_by p rs || p r
any_by-snoc p [] r = ground arith
any_by-snoc p (x ∷ rs) r = ground (arith, any_by-snoc p rs r)

tally_reasons :
    (p : ReasonCode → Bool) (gate : Bool) (o : Outcome) (t : Tally)
    → (any_by p (tally gate o t).reasons ≡ any_by p t.reasons || gives p o)
      × ((tally gate o t).veto ≡ t.veto || gate && mismatched o)
tally_reasons p gate none t = ground arith
tally_reasons p gate (some (matched, reason)) t = ground (arith, any_by-snoc p t.reasons reason)

-- Counters that fit: one reason for each applicable rule, and no more rules satisfied than applicable.
abbrev Fits : ℕ → Tally → Type 0
Fits limit t =
    (length t.reasons ≡ t.applicable) × (t.satisfied ≤ t.applicable) × (t.applicable ≤ limit)

tally-Fits :
    (gate : Bool) (o : Outcome) (t : Tally) (limit : ℕ)
    → Fits limit t
    → Fits (limit + 1) (tally gate o t)
tally-Fits gate none t limit h = omega (arith, h)
tally-Fits gate (some (matched, reason)) t limit h =
    ground (arith, h, length-append t.reasons (reason ∷ []))

-- What becomes of the counters, for any five outcomes.
abbrev five : (gate₁ gate₂ : Bool) (o₁ o₂ o₃ o₄ o₅ : Outcome) → Tally
five gate₁ gate₂ o₁ o₂ o₃ o₄ o₅ = tally false o₅ (
    tally false o₄ (
      tally false o₃ (
        tally gate₂ o₂
          (tally gate₁ o₁ (record { applicable = 0; satisfied = 0; veto = false; reasons = [] })))))

five_reasons :
    (p : ReasonCode → Bool) (gate₁ gate₂ : Bool) (o₁ o₂ o₃ o₄ o₅ : Outcome)
    → let t = five gate₁ gate₂ o₁ o₂ o₃ o₄ o₅ in
      (any_by p t.reasons ≡ gives p o₁ || gives p o₂ || gives p o₃ || gives p o₄ || gives p o₅)
      × (t.veto ≡ gate₁ && mismatched o₁ || gate₂ && mismatched o₂)
      × Fits 5 t
five_reasons p gate₁ gate₂ o₁ o₂ o₃ o₄ o₅ =
    let t₀ : Tally = record { applicable = 0; satisfied = 0; veto = false; reasons = [] } in
    let t₁ = tally gate₁ o₁ t₀ in
    let t₂ = tally gate₂ o₂ t₁ in
    let t₃ = tally false o₃ t₂ in
    let t₄ = tally false o₄ t₃ in
    let (r₁, v₁) = tally_reasons p gate₁ o₁ t₀ in
    let (r₂, v₂) = tally_reasons p gate₂ o₂ t₁ in
    let (r₃, v₃) = tally_reasons p false o₃ t₂ in
    let (r₄, v₄) = tally_reasons p false o₄ t₃ in
    let (r₅, v₅) = tally_reasons p false o₅ t₄ in
    (
      rw (r₅, r₄, r₃, r₂, r₁) (ground arith),
      rw (v₅, v₄, v₃, v₂, v₁) (ground arith),
      tally-Fits false o₅ t₄ 4 (
          tally-Fits false o₄ t₃ 3 (
            tally-Fits false o₃ t₂ 2
              (tally-Fits gate₂ o₂ t₁ 1 (tally-Fits gate₁ o₁ t₀ 0 (omega arith))))),
    )

brand_gives :
    ⦃u : Unicode⦄ (a b : Option Text)
    → (gives is_brand_mismatch (evaluate_brand a b) ≡ mismatched (evaluate_brand a b))
      × (gives is_category_mismatch (evaluate_brand a b) ≡ false)
unfolding evaluate_brand
brand_gives a b = ground arith

-- The veto by the reasons, if each mismatch comes from its own rule.
five_veto :
    (gate₁ gate₂ : Bool) (o₁ o₂ o₃ o₄ o₅ : Outcome)
    → (gives is_brand_mismatch o₁ ≡ mismatched o₁) × (gives is_category_mismatch o₁ ≡ false)
    → (gives is_brand_mismatch o₂ ≡ false) × (gives is_category_mismatch o₂ ≡ mismatched o₂)
    → (gives is_brand_mismatch o₃ ≡ false) × (gives is_category_mismatch o₃ ≡ false)
    → (gives is_brand_mismatch o₄ ≡ false) × (gives is_category_mismatch o₄ ≡ false)
    → (gives is_brand_mismatch o₅ ≡ false) × (gives is_category_mismatch o₅ ≡ false)
    → let t = five gate₁ gate₂ o₁ o₂ o₃ o₄ o₅ in
      t.veto ≡ gate₁ && has_brand_mismatch t.reasons || gate₂ && has_category_mismatch t.reasons
five_veto gate₁ gate₂ o₁ o₂ o₃ o₄ o₅ h₁ h₂ h₃ h₄ h₅ =
    let (brands, veto, _) = five_reasons is_brand_mismatch gate₁ gate₂ o₁ o₂ o₃ o₄ o₅ in
    let (categories, _, _) = five_reasons is_category_mismatch gate₁ gate₂ o₁ o₂ o₃ o₄ o₅ in
    veto
    ∙ rw (brands, categories, h₁.0, h₁.1, h₂.0, h₂.1, h₃.0, h₃.1, h₄.0, h₄.1, h₅.0, h₅.1)
        (ground arith)

module _ {F : Type 0} ⦃f : Float F⦄ where
  price_gives :
      (limit : F) (a b : Option F)
      → (gives is_brand_mismatch (evaluate_price limit a b) ≡ false)
        × (gives is_category_mismatch (evaluate_price limit a b) ≡ false)
  unfolding evaluate_price
  price_gives limit none b = ground arith
  price_gives limit (some a) none = ground arith
  price_gives limit (some a) (some b) = ground arith

  module _ ⦃u : Unicode⦄ ⦃z : Fuzzy F⦄ where
    category_gives :
        (ratio : F) (a b : Option Text)
        → (gives is_brand_mismatch (evaluate_category ratio a b) ≡ false)
          × (gives is_category_mismatch (evaluate_category ratio a b)
              ≡ mismatched (evaluate_category ratio a b))
    unfolding evaluate_category
    category_gives ratio a b = ground arith

    title_gives :
        (ratio : F) (a : Text) (b : Option Text)
        → (gives is_brand_mismatch (evaluate_title ratio a b) ≡ false)
          × (gives is_category_mismatch (evaluate_title ratio a b) ≡ false)
    unfolding evaluate_title
    title_gives ratio a b = ground arith

    overlap_gives :
        (attributes : ProductAttributes F) (m : Metadata F)
        → (gives is_brand_mismatch (evaluate_attribute_overlap attributes m) ≡ false)
          × (gives is_category_mismatch (evaluate_attribute_overlap attributes m) ≡ false)
    unfolding evaluate_attribute_overlap
    overlap_gives attributes m = ground arith

    module _ (evaluator : BusinessRulesEvaluator F) (name : Text) (brand category : Option Text)
        (price : Option F) (attributes : ProductAttributes F) (m : Metadata F) where
      abbrev brand_outcome : Outcome
      brand_outcome = evaluate_brand brand (as_text (get "brand" m))

      abbrev category_outcome : Outcome
      category_outcome =
          evaluate_category {F = F} category_match_ratio category (as_text (get "category" m))

      abbrev price_outcome : Outcome
      price_outcome =
          evaluate_price evaluator.max_price_difference_ratio price (as_number (get "price" m))

      abbrev title_outcome : Outcome
      title_outcome =
          evaluate_title evaluator.title_similarity_threshold name (as_text (get "name" m))

      -- A candidate is vetoed exactly if the brand is required to be the same and a brand mismatch is
      -- among the reasons, or the category is, and a category mismatch is among them.
      pub evaluate-veto :
          let r = evaluate evaluator name brand category price attributes m in
          r.veto
          ≡ evaluator.require_same_brand && has_brand_mismatch r.reasons
            || evaluator.require_same_category && has_category_mismatch r.reasons
      unfolding evaluate tallied
      evaluate-veto =
          five_veto evaluator.require_same_brand evaluator.require_same_category brand_outcome
            category_outcome price_outcome title_outcome (evaluate_attribute_overlap attributes m)
            (brand_gives brand (as_text (get "brand" m)))
            (category_gives category_match_ratio category (as_text (get "category" m)))
            (price_gives evaluator.max_price_difference_ratio price (as_number (get "price" m)))
            (title_gives evaluator.title_similarity_threshold name (as_text (get "name" m)))
            (overlap_gives attributes m)

      -- Each rule that applies gives one reason and counts once; no more rules are satisfied than
      -- apply, and at most five apply.
      pub evaluate-reasons :
          let t = tallied evaluator name brand category price attributes m in
          let r = evaluate evaluator name brand category price attributes m in
          (length r.reasons ≡ t.applicable) × (t.satisfied ≤ t.applicable) × (t.applicable ≤ 5)
      unfolding evaluate tallied
      evaluate-reasons =
          (five_reasons is_brand_mismatch evaluator.require_same_brand
            evaluator.require_same_category brand_outcome category_outcome price_outcome
            title_outcome (evaluate_attribute_overlap attributes m)).2
