-- ===== src/Duplicate/Rules.antt =====
-- backend/app/services/duplicate/business_rules_evaluator.py. A reason is its code; the message that
-- goes with it is assembled from the arguments and is not modelled.
use product_intelligence.Base.{
  ℕ, ◌+◌, ◌^◌, Bool, true, false, not, ◌&&◌, ◌||◌, Option, none, some, String, List, [], ◌∷◌, ◌++◌,
  ◌==◌, if◌then◌else◌,
}
use product_intelligence.Float.Interface.{Float, max_of}
use product_intelligence.Text.Strings.{Text, Unicode, strip, is_empty, text_eq}
use product_intelligence.Text.Metadata.{Metadata, Value, get, as_text, number, bool}
use product_intelligence.Duplicate.Models.{ProductAttributes}
use product_intelligence.Duplicate.Similarity.{Fuzzy, fuzzy_ratio}

pub data ReasonCode : Type 0 where
  same_brand brand_mismatch same_category category_mismatch : ReasonCode
  close_price price_difference title_similarity title_difference : ReasonCode
  attribute_overlap attribute_mismatch : ReasonCode

pub record BusinessRulesResult (F : Type 0) : Type 0 where
  pub score : F
  pub veto : Bool
  pub reasons : List ReasonCode

pub record BusinessRulesEvaluator (F : Type 0) : Type 0 where
  pub require_same_brand : Bool
  pub require_same_category : Bool
  pub max_price_difference_ratio : F
  pub title_similarity_threshold : F

-- Whether a rule is satisfied, and why; `none` where one side has no data.
abbrev pub Outcome : Type 0
Outcome = Option (Bool × ReasonCode)

abbrev pub verdict : Bool → (match mismatch : ReasonCode) → Outcome
verdict matched match mismatch = some (matched, if matched then match else mismatch)

-- The counters of `evaluate` as it goes through the rules.
pub record Tally : Type 0 where
  pub applicable : ℕ
  pub satisfied : ℕ
  pub veto : Bool
  pub reasons : List ReasonCode

-- One rule; `gate` tells whether a mismatch vetoes.
abbrev pub tally : (gate : Bool) → Outcome → Tally → Tally
tally gate none t = t
tally gate (some (matched, reason)) t = record {
  applicable = t.applicable + 1;
  satisfied = t.satisfied + (if matched then 1 else 0);
  veto = t.veto || gate && not matched;
  reasons = t.reasons ++ (reason ∷ []);
}

-- `_normalize`, of a value that may be no text.
abbrev pub normalized : ⦃u : Unicode⦄ → Option Text → Text
normalized none = []
normalized ⦃u⦄ (some t) = u.lower (strip t)

abbrev pub text_of : Option Text → Text
text_of none = []
text_of (some t) = t

unfoldable pub evaluate_brand :
    ⦃u : Unicode⦄ → (query_brand candidate_brand : Option Text) → Outcome
evaluate_brand query_brand candidate_brand =
    let query_norm = normalized query_brand in
    let candidate_norm = normalized candidate_brand in
    if is_empty query_norm || is_empty candidate_norm
    then none
    else verdict (text_eq query_norm candidate_norm) same_brand brand_mismatch

module _ {F : Type 0} ⦃f : Float F⦄ where
  -- A Python bool is a number, too.
  abbrev pub as_number : Value F → Option F
  as_number (number x) = some x
  as_number (bool true) = some f.unity
  as_number (bool false) = some f.nought
  as_number _ = none

  abbrev pub category_match_ratio : F
  category_match_ratio = f.div (f.of_ℕ 90) (f.of_ℕ 100)

  abbrev pub absolute : F → F
  absolute x = if f.lt x f.nought then f.sub f.nought x else x

  unfoldable pub evaluate_price :
      (max_price_difference_ratio : F) (query_price candidate_price : Option F) → Outcome
  evaluate_price limit (some price) (some candidate_price) =
      let denominator = max_of (absolute candidate_price) (f.div f.unity (f.of_ℕ (10 ^ 9))) in
      let difference_ratio = f.div (absolute (f.sub price candidate_price)) denominator in
      verdict (f.le difference_ratio limit) close_price price_difference
  evaluate_price limit _ _ = none

  module _ ⦃u : Unicode⦄ ⦃z : Fuzzy F⦄ where
    unfoldable pub evaluate_category :
        (category_match_ratio : F) (query_category candidate_category : Option Text) → Outcome
    unfolding fuzzy_ratio
    evaluate_category category_match_ratio query_category candidate_category =
        let ratio = fuzzy_ratio (text_of query_category) (text_of candidate_category) in
        if is_empty (normalized query_category) || is_empty (normalized candidate_category)
        then none
        else verdict (f.le category_match_ratio ratio) same_category category_mismatch

    unfoldable pub evaluate_title :
        (title_similarity_threshold : F) (query_name : Text) (candidate_name : Option Text)
        → Outcome
    unfolding fuzzy_ratio
    evaluate_title threshold query_name candidate_name =
        let ratio = fuzzy_ratio query_name (text_of candidate_name) in
        if is_empty (normalized candidate_name)
        then none
        else verdict (f.le threshold ratio) title_similarity title_difference

    -- `_OVERLAP_ATTRIBUTES`
    abbrev pub overlap_attributes : ProductAttributes F → List (Option Text × String)
    overlap_attributes a =
        (a.color, "color")
        ∷ (a.material, "material")
        ∷ (a.gender, "gender")
        ∷ (a.style, "style")
        ∷ []

    -- How many of the fields are there on both sides, and how many of these are equal.
    abbrev pub overlap : List (Option Text × String) → Metadata F → ℕ × ℕ
    overlap [] m = (0, 0)
    overlap ((value, field_name) ∷ fields) m =
        let query_value = normalized value in
        let candidate_value = normalized (as_text (get field_name m)) in
        let rest = overlap fields m in
        if is_empty query_value || is_empty candidate_value
        then rest
        else (rest.0 + 1, rest.1 + (if text_eq query_value candidate_value then 1 else 0))

    unfoldable pub evaluate_attribute_overlap : ProductAttributes F → Metadata F → Outcome
    evaluate_attribute_overlap attributes m =
        let (comparable, matched) = overlap (overlap_attributes attributes) m in
        if comparable == 0
        then none
        else verdict (not (matched == 0)) attribute_overlap attribute_mismatch

    abbrev pub fraction : (satisfied applicable : ℕ) → F
    fraction satisfied applicable =
        if applicable == 0 then f.nought else f.div (f.of_ℕ satisfied) (f.of_ℕ applicable)

    module _ (evaluator : BusinessRulesEvaluator F) (name : Text) (brand category : Option Text)
        (price : Option F) (attributes : ProductAttributes F) (m : Metadata F) where
      unfoldable pub tallied : Tally
      unfolding evaluate_brand evaluate_category evaluate_price evaluate_title
          evaluate_attribute_overlap
      tallied = tally false (evaluate_attribute_overlap attributes m) (
          tally false
            (evaluate_title evaluator.title_similarity_threshold name (as_text (get "name" m)))
            (tally false
              (evaluate_price evaluator.max_price_difference_ratio price
                (as_number (get "price" m)))
              (tally evaluator.require_same_category
                (evaluate_category category_match_ratio category (as_text (get "category" m)))
                (tally evaluator.require_same_brand (evaluate_brand brand (as_text (get "brand" m)))
                  (record { applicable = 0; satisfied = 0; veto = false; reasons = [] })))))

      unfoldable pub evaluate : BusinessRulesResult F
      unfolding tallied
      evaluate = record {
        score = fraction tallied.satisfied tallied.applicable;
        veto = tallied.veto;
        reasons = tallied.reasons;
      }
