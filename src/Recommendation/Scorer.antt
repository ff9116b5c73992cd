-- ===== src/Recommendation/Scorer.antt =====
-- backend/app/services/recommendation/recommendation_scorer.py. A set of tags is a list without
-- repetition.
use product_intelligence.Base.{
  ℕ, Bool, true, false, not, ◌&&◌, ◌||◌, Option, none, some, String, List, [], ◌∷◌, ◌++◌, length,
  filter_by, any_by, ltb, ◌==◌, if◌then◌else◌,
}
use product_intelligence.Float.Interface.{Float, clamp}
use product_intelligence.Text.Strings.{Text, Unicode, strip, is_empty, text_eq}
use product_intelligence.Text.Metadata.{Metadata, Value, get, as_text, number, bool, texts}
use product_intelligence.Search.Results.{HybridSearchResult}

pub record RecommendationReason : Type 0 where
  pub matched_attributes : List String
  pub shared_tags : List Text
  pub shared_brand : Bool
  pub shared_category : Bool

pub record RecommendationCandidate (F : Type 0) : Type 0 where
  pub product_id : ℕ
  pub similarity_score : F
  pub attribute_score : F
  pub tag_score : F
  pub quality_score : F
  pub final_score : F
  pub reason : RecommendationReason

pub record RecommendationScorer (F : Type 0) : Type 0 where
  pub similarity_weight : F
  pub attribute_weight : F
  pub tag_weight : F
  pub quality_weight : F

abbrev pub mem_text : Text → List Text → Bool
mem_text t ts = any_by (text_eq t) ts

-- `sorted` of texts, by code points.
abbrev pub text_ltb : Text → Text → Bool
text_ltb s [] = false
text_ltb [] (d ∷ ds) = true
text_ltb (c ∷ cs) (d ∷ ds) = if c == d then text_ltb cs ds else ltb c d

abbrev pub insert_text : Text → List Text → List Text
insert_text t [] = t ∷ []
insert_text t (u ∷ us) = if text_ltb u t then u ∷ insert_text t us else t ∷ u ∷ us

unfoldable pub sort_texts : List Text → List Text
sort_texts [] = []
sort_texts (t ∷ ts) = insert_text t (sort_texts ts)

-- The items of `ts` that `s` holds, and those that it does not hold.
abbrev pub intersection : List Text → List Text → List Text
intersection s ts = filter_by (λ t. mem_text t s) ts

abbrev pub difference : List Text → List Text → List Text
difference ts s = filter_by (λ t. not (mem_text t s)) ts

-- `_ATTRIBUTE_FIELDS`
abbrev pub recommendation_fields : List String
recommendation_fields = "color" ∷ "material" ∷ "gender" ∷ "season" ∷ "style" ∷ []

unfoldable pub shared_of : (target_tags candidate_tags : List Text) → List Text
unfolding sort_texts
shared_of target_tags candidate_tags = sort_texts (intersection target_tags candidate_tags)

abbrev pub union_of : (target_tags candidate_tags : List Text) → List Text
union_of target_tags candidate_tags = target_tags ++ difference candidate_tags target_tags

module _ ⦃u : Unicode⦄ where
  abbrev pub normalized_tag : Text → Text
  normalized_tag tag = u.lower (strip tag)

  -- The set comprehension, for the items of a list that are texts.
  unfoldable pub normalize_texts : List Text → List Text
  normalize_texts [] = []
  normalize_texts (tag ∷ tags) =
      let rest = normalize_texts tags in
      if is_empty (strip tag) || mem_text (normalized_tag tag) rest
      then rest
      else normalized_tag tag ∷ rest

  abbrev pub values_match : Option Text → Option Text → Bool
  values_match (some a) (some b) =
      not (is_empty (u.lower (strip a)))
      && not (is_empty (u.lower (strip b)))
      && text_eq (u.lower (strip a)) (u.lower (strip b))
  values_match _ _ = false

  -- A text that is not blank.
  abbrev pub usable : Option Text → Bool
  usable none = false
  usable (some t) = not (is_empty (strip t))

module _ {F : Type 0} ⦃f : Float F⦄ ⦃u : Unicode⦄ where
  unfoldable pub normalize_tags : Value F → List Text
  unfolding normalize_texts
  normalize_tags (texts tags) = normalize_texts tags
  normalize_tags _ = []

  unfoldable pub as_float : Value F → F
  as_float (number x) = x
  as_float (bool true) = f.unity
  as_float (bool false) = f.nought
  as_float _ = f.nought

  abbrev pub ratio : (part whole : ℕ) → F
  ratio part whole = if whole == 0 then f.nought else f.div (f.of_ℕ part) (f.of_ℕ whole)

  -- The fields that are usable on both sides, and those of them that match.
  abbrev pub considered_fields : (target candidate : Metadata F) → List String → List String
  considered_fields target candidate names =
      filter_by
        (λ field. usable (as_text (get field target)) && usable (as_text (get field candidate)))
        names

  abbrev pub matched_fields : (target candidate : Metadata F) → List String → List String
  matched_fields target candidate names =
      filter_by (λ field. values_match (as_text (get field target)) (as_text (get field candidate)))
        (considered_fields target candidate names)

  unfoldable pub attribute_match : (target candidate : Metadata F) → F × List String
  attribute_match target candidate =
      let considered = considered_fields target candidate recommendation_fields in
      let matched = matched_fields target candidate recommendation_fields in
      (ratio (length matched) (length considered), matched)

  unfoldable pub tag_match : (target_tags candidate_tags : Value F) → F × List Text
  unfolding normalize_tags shared_of
  tag_match target_tags candidate_tags =
      let target_set = normalize_tags target_tags in
      let candidate_set = normalize_tags candidate_tags in
      let shared = shared_of target_set candidate_set in
      (ratio (length shared) (length (union_of target_set candidate_set)), shared)

  unfoldable pub score :
      RecommendationScorer F
      → (target_metadata : Metadata F) → HybridSearchResult F
      → RecommendationCandidate F
  unfolding attribute_match tag_match as_float
  score scorer target candidate =
      let similarity = clamp candidate.score in
      let (attribute_score, matched_attributes) = attribute_match target candidate.metadata in
      let (tag_score, shared_tags) =
        tag_match (get "tags" target) (get "tags" candidate.metadata) in
      let quality = clamp (as_float (get "quality_score" candidate.metadata)) in
      record {
        product_id = candidate.product_id;
        similarity_score = similarity;
        attribute_score = attribute_score;
        tag_score = tag_score;
        quality_score = quality;
        final_score = clamp (
            f.add
              (f.add
                (f.add (f.mul scorer.similarity_weight similarity)
                  (f.mul scorer.attribute_weight attribute_score))
                (f.mul scorer.tag_weight tag_score))
              (f.mul scorer.quality_weight quality));
        reason = record {
          matched_attributes = matched_attributes;
          shared_tags = shared_tags;
          shared_brand =
              values_match (as_text (get "brand" target))
                (as_text (get "brand" candidate.metadata));
          shared_category =
              values_match (as_text (get "category" target))
                (as_text (get "category" candidate.metadata));
        };
      }
