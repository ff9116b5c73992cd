-- ===== src/Duplicate/Similarity.antt =====
-- backend/app/services/duplicate/similarity_scorer.py. rapidfuzz's token_sort_ratio is a parameter.
use product_intelligence.Base.{
  not, ◌&&◌, Option, some, List, [], ◌∷◌, ◌++◌, length, map, String, if◌then◌else◌, All,
}
use product_intelligence.Float.Interface.{Float, IsOrdered, ◌≼◌, clamp, clamp_bounds, sum}
use product_intelligence.Text.Strings.{Text, Unicode, strip, is_empty}
use product_intelligence.Text.Metadata.{Metadata, get, as_text}
use product_intelligence.Search.Results.{HybridSearchResult}
use product_intelligence.Duplicate.Models.{
  ProductAttributes, Signal, image, text, metadata, attribute, SimilaritySignal, DuplicateResult,
}

pub record Fuzzy (F : Type 0) : Type 0 where
  pub token_sort_ratio : Text → Text → F

pub record SimilarityScorer (F : Type 0) : Type 0 where
  pub image_weight : F
  pub text_weight : F
  pub metadata_weight : F
  pub attribute_weight : F

module _ {F : Type 0} ⦃f : Float F⦄ ⦃u : Unicode⦄ ⦃z : Fuzzy F⦄ where
  abbrev pub signal : Signal → (raw_score weight : F) → SimilaritySignal F
  signal name raw_score weight = record {
    name = name;
    score = clamp raw_score;
    weight = weight;
    contribution = f.mul (clamp raw_score) weight;
  }

  unfoldable pub fuzzy_ratio : Text → Text → F
  fuzzy_ratio a b = f.div (z.token_sort_ratio (u.lower (strip a)) (u.lower (strip b))) (f.of_ℕ 100)

  -- `sum(ratios) / len(ratios) if ratios else 0.0`
  abbrev pub mean_or_zero : List F → F
  mean_or_zero [] = f.nought
  mean_or_zero (x ∷ xs) = f.div (sum (x ∷ xs)) (f.of_ℕ (length (x ∷ xs)))

  -- The ratio of one pair, if both sides are there; `_metadata_similarity` also asks that the value
  -- is not blank.
  abbrev pub metadata_ratio : Option Text → Option Text → List F
  metadata_ratio (some a) (some b) =
      if not (is_empty (strip a)) && not (is_empty (strip b)) then fuzzy_ratio a b ∷ [] else []
  metadata_ratio _ _ = []

  unfoldable pub metadata_similarity : Text → (brand category : Option Text) → Metadata F → F
  unfolding fuzzy_ratio
  metadata_similarity name brand category m = mean_or_zero (
      metadata_ratio (some name) (as_text (get "name" m))
      ++ (metadata_ratio brand (as_text (get "brand" m))
          ++ metadata_ratio category (as_text (get "category" m))))

  abbrev pub attribute_ratio : Option Text → Option Text → List F
  attribute_ratio (some a) (some b) =
      if not (is_empty a) && not (is_empty (strip b)) then fuzzy_ratio a b ∷ [] else []
  attribute_ratio _ _ = []

  -- `_ATTRIBUTE_FIELDS`
  abbrev pub attribute_fields : ProductAttributes F → List (Option Text × String)
  attribute_fields a =
      (a.brand, "brand")
      ∷ (a.category, "category")
      ∷ (a.color, "color")
      ∷ (a.material, "material")
      ∷ (a.style, "style")
      ∷ (a.gender, "gender")
      ∷ []

  abbrev pub attribute_ratios : List (Option Text × String) → Metadata F → List F
  attribute_ratios [] m = []
  attribute_ratios ((value, field_name) ∷ fields) m =
      attribute_ratio value (as_text (get field_name m)) ++ attribute_ratios fields m

  unfoldable pub attribute_similarity : ProductAttributes F → Metadata F → F
  unfolding fuzzy_ratio
  attribute_similarity attributes m =
      mean_or_zero (attribute_ratios (attribute_fields attributes) m)

  module _ (scorer : SimilarityScorer F) where
    abbrev pub signals_of :
        (name : Text) (brand category : Option Text)
        → ProductAttributes F
        → HybridSearchResult F
        → List (SimilaritySignal F)
    signals_of name brand category attributes candidate =
        signal image candidate.image_score scorer.image_weight
        ∷ signal text candidate.text_score scorer.text_weight
        ∷ signal metadata (metadata_similarity name brand category candidate.metadata)
            scorer.metadata_weight
        ∷ signal attribute (attribute_similarity attributes candidate.metadata)
            scorer.attribute_weight
        ∷ []

    unfoldable pub score :
        (name : Text) (brand category : Option Text)
        → ProductAttributes F
        → HybridSearchResult F
        → DuplicateResult F
    unfolding metadata_similarity attribute_similarity
    score name brand category attributes candidate =
        let signals = signals_of name brand category attributes candidate in
        record {
          product_id = candidate.product_id;
          signals = signals;
          overall_similarity = clamp (sum (map (λ s. s.contribution) signals));
        }

    pub score_bounds :
        (laws : IsOrdered F) (name : Text) (brand category : Option Text)
        (attributes : ProductAttributes F) (candidate : HybridSearchResult F)
        → let r = score name brand category attributes candidate in
          (f.nought ≼ r.overall_similarity)
          × (r.overall_similarity ≼ f.unity)
          × All (λ s. (f.nought ≼ s.score) × (s.score ≼ f.unity)) r.signals
    unfolding score
    score_bounds laws name brand category attributes candidate =
        let overall =
          clamp_bounds laws (
            sum
              (map (λ s. s.contribution) (signals_of name brand category attributes candidate))) in
        (
          overall.0,
          overall.1,
          (
            clamp_bounds laws candidate.image_score,
            (
              clamp_bounds laws candidate.text_score,
              (
                clamp_bounds laws (metadata_similarity name brand category candidate.metadata),
                (clamp_bounds laws (attribute_similarity attributes candidate.metadata), tt),
              ),
            ),
          ),
        )
