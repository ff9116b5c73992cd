-- ===== src/Catalog/Merge.antt =====
-- backend/app/services/catalog/catalog_intelligence_service.py. The two extraction services are parameters,
-- and so is the clock's reading of the processing time; logging is not modelled.
use product_intelligence.Base.{
  ℕ, suc, ◌+◌, Bool, true, false, not, ◌&&◌, Option, none, some, List, [], ◌∷◌, ◌++◌, length, take, ltb, ◌==◌,
  if◌then◌else◌, is_some,
}
use product_intelligence.Base.Result.{Result, ok, err, ◌>>=◌}
use product_intelligence.Float.Interface.{Float, clamp, sum}
use product_intelligence.Float.Ranking.{ranked}
use product_intelligence.Text.Strings.{Text, Unicode, strip, is_empty, text_eq, codes}
use product_intelligence.Duplicate.Models.{ProductAttributes}
use product_intelligence.Recommendation.Diversify.{Buckets, append_to, group_by}

pub data Source : Type 0 where
  text image hybrid : Source

pub record AttributePrediction (F : Type 0) : Type 0 where
  pub attribute : Text
  pub value : Text
  pub confidence : F
  pub source : Source

pub record CatalogTag (F : Type 0) : Type 0 where
  pub tag : Text
  pub confidence : F
  pub source : Source

pub record CatalogIntelligenceResult (F : Type 0) : Type 0 where
  pub attributes : ProductAttributes F
  pub tags : List (CatalogTag F)
  pub quality_score : F

-- CatalogIntelligenceException, and what an extraction service raises.
pub data CatalogError : Type 0 where
  catalog_exception : CatalogError
  extraction : ℕ → CatalogError

-- The service; `P` is the type of image paths.
pub record CatalogIntelligenceService (F P : Type 0) : Type 0 where
  pub text_attributes :
    (name : Text) (brand category description : Option Text) → List (AttributePrediction F)
  pub text_tags : (name : Text) (brand category description : Option Text) → List (CatalogTag F)
  pub image_attributes : P → Result CatalogError (List (AttributePrediction F))
  pub image_tags : P → Result CatalogError (List (CatalogTag F))
  pub enable_text_attributes : Bool
  pub enable_image_attributes : Bool
  pub confidence_threshold : F
  pub max_tags : ℕ
  pub completeness_weight : F
  pub confidence_weight : F
  pub consistency_weight : F

abbrev pub same_source : Source → Source → Bool
same_source text text = true
same_source image image = true
same_source hybrid hybrid = true
same_source _ _ = false

-- `resolved.get(name)`; a later entry overwrites an earlier one.
abbrev pub resolved_value : Text → List (Text × Text) → Option Text → Option Text
resolved_value name [] otherwise = otherwise
resolved_value name ((k, v) ∷ resolved) otherwise =
    resolved_value name resolved (if text_eq k name then some v else otherwise)

-- What `_merge_attributes` has gathered.
pub record Merged (F : Type 0) : Type 0 where
  pub resolved : List (Text × Text)
  pub winning_confidences : List F
  pub conflict_count : ℕ

-- `getattr(attributes, field_name) is not None`
abbrev pub filled : Option Text → ℕ
filled none = 0
filled (some t) = 1

module _ {F : Type 0} ⦃f : Float F⦄ where
  -- `max(candidates, key=...)`: the first of the best.
  abbrev pub best_of : AttributePrediction F → List (AttributePrediction F) → AttributePrediction F
  best_of best [] = best
  best_of best (c ∷ cs) = best_of (if f.lt best.confidence c.confidence then c else best) cs

  -- `len(distinct_values) == 1`
  abbrev pub agrees : Text → List (AttributePrediction F) → Bool
  agrees value [] = true
  agrees value (c ∷ cs) = if text_eq value c.value then agrees value cs else false

  abbrev pub merge_group : (threshold : F) → Text → AttributePrediction F → Merged F → Merged F
  merge_group threshold attribute best m =
      if f.lt best.confidence threshold
      then m
      else record m {
        resolved = m.resolved ++ ((attribute, best.value) ∷ []);
        winning_confidences = m.winning_confidences ++ (best.confidence ∷ []);
      }

  abbrev pub merge_groups :
      (threshold : F) → Buckets (AttributePrediction F) → Merged F → Merged F
  merge_groups threshold [] m = m
  merge_groups threshold ((attribute, []) ∷ groups) m = merge_groups threshold groups m
  merge_groups threshold ((attribute, c ∷ cs) ∷ groups) m =
      merge_groups threshold groups
        (merge_group threshold attribute (best_of c cs)
          (if agrees c.value cs then m else record m { conflict_count = m.conflict_count + 1 }))

  abbrev pub mean_or_zero : List F → F
  mean_or_zero [] = f.nought
  mean_or_zero (x ∷ xs) = f.div (sum (x ∷ xs)) (f.of_ℕ (length (x ∷ xs)))

  abbrev pub attributes_of : List (Text × Text) → (confidence : F) → ProductAttributes F
  attributes_of resolved confidence = record {
    brand = resolved_value (codes "brand") resolved none;
    category = resolved_value (codes "category") resolved none;
    subcategory = resolved_value (codes "subcategory") resolved none;
    color = resolved_value (codes "color") resolved none;
    material = resolved_value (codes "material") resolved none;
    pattern = resolved_value (codes "pattern") resolved none;
    gender = resolved_value (codes "gender") resolved none;
    age_group = resolved_value (codes "age_group") resolved none;
    style = resolved_value (codes "style") resolved none;
    season = resolved_value (codes "season") resolved none;
    occasion = resolved_value (codes "occasion") resolved none;
    confidence = confidence;
  }

  -- A prediction named `confidence` would be given twice, which raises.
  unfoldable pub merge_attributes :
      (threshold : F) → List (AttributePrediction F)
      → Result CatalogError (ProductAttributes F × ℕ × ℕ)
  merge_attributes threshold predictions =
      let by_attribute = group_by (λ (p : AttributePrediction F). p.attribute) predictions [] in
      let m =
        merge_groups threshold by_attribute
          (record { resolved = []; winning_confidences = []; conflict_count = 0 }) in
      if is_some (resolved_value (codes "confidence") m.resolved none)
      then err catalog_exception
      else ok (
        attributes_of m.resolved (mean_or_zero m.winning_confidences),
        m.conflict_count,
        length by_attribute)

  abbrev pub tag_key : ⦃u : Unicode⦄ → CatalogTag F → Text
  tag_key ⦃u⦄ t = u.lower (strip t.tag)

  -- The tags that are not blank.
  abbrev pub not_blank : ⦃u : Unicode⦄ → List (CatalogTag F) → List (CatalogTag F)
  not_blank [] = []
  not_blank (t ∷ tags) = if is_empty (tag_key t) then not_blank tags else t ∷ not_blank tags

  -- `max(candidate.confidence for candidate in candidates)`
  abbrev pub best_confidence : F → List (CatalogTag F) → F
  best_confidence best [] = best
  best_confidence best (t ∷ tags) =
      best_confidence (if f.lt best t.confidence then t.confidence else best) tags

  -- The common source, or HYBRID.
  abbrev pub merged_source : Source → List (CatalogTag F) → Source
  merged_source source [] = source
  merged_source source (t ∷ tags) =
      if same_source source t.source then merged_source source tags else hybrid

  abbrev pub merge_tag_groups : (threshold : F) → Buckets (CatalogTag F) → List (CatalogTag F)
  merge_tag_groups threshold [] = []
  merge_tag_groups threshold ((key, []) ∷ groups) = merge_tag_groups threshold groups
  merge_tag_groups threshold ((key, t ∷ tags) ∷ groups) =
      let best = best_confidence t.confidence tags in
      let rest = merge_tag_groups threshold groups in
      if f.lt best threshold
      then rest
      else record { tag = key; confidence = best; source = merged_source t.source tags } ∷ rest

  unfoldable pub merge_tags :
      ⦃u : Unicode⦄ → (threshold : F) (max_tags : ℕ) → List (CatalogTag F) → List (CatalogTag F)
  unfolding ranked
  merge_tags threshold max_tags tags =
      take max_tags
        (ranked (λ (t : CatalogTag F). t.confidence)
          (merge_tag_groups threshold (group_by tag_key (not_blank tags) [])))

  abbrev pub filled_count : ProductAttributes F → ℕ
  filled_count a =
      filled a.brand + filled a.category + filled a.subcategory + filled a.color + filled a.material
      + filled a.pattern
      + filled a.gender
      + filled a.age_group
      + filled a.style
      + filled a.season
      + filled a.occasion

module _ {F P : Type 0} ⦃f : Float F⦄ ⦃u : Unicode⦄ (service : CatalogIntelligenceService F P) where
  unfoldable pub compute_quality_score :
      ProductAttributes F → (conflict_count considered_count : ℕ) → F
  compute_quality_score attributes conflict_count considered_count =
      let completeness = f.div (f.of_ℕ (filled_count attributes)) (f.of_ℕ 11) in
      let consistency =
        if considered_count == 0
        then f.unity
        else f.sub f.unity (f.div (f.of_ℕ conflict_count) (f.of_ℕ considered_count)) in
      clamp
        (f.add
          (f.add (f.mul service.completeness_weight completeness)
            (f.mul service.confidence_weight attributes.confidence))
          (f.mul service.consistency_weight consistency))

  abbrev pub if_enabled : {A : Type 0} → Bool → Result CatalogError (List A) → Result CatalogError (List A)
  if_enabled enabled found = if enabled then found else ok []

  unfoldable pub enrich :
      (name : Text) (brand category description : Option Text)
      → (image_path : P) → Result CatalogError (CatalogIntelligenceResult F)
  unfolding merge_attributes merge_tags compute_quality_score
  enrich name brand category description image_path = do
    text_predictions ←
        if_enabled service.enable_text_attributes
          (ok (service.text_attributes name brand category description))
    text_tags ←
        if_enabled service.enable_text_attributes
          (ok (service.text_tags name brand category description))
    image_predictions ←
        if_enabled service.enable_image_attributes (service.image_attributes image_path)
    image_tags ← if_enabled service.enable_image_attributes (service.image_tags image_path)
    merged ← merge_attributes service.confidence_threshold (text_predictions ++ image_predictions)
    ok (record {
      attributes = merged.0;
      tags = merge_tags service.confidence_threshold service.max_tags (text_tags ++ image_tags);
      quality_score = compute_quality_score merged.0 merged.1 merged.2;
    })
