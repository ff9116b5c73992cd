-- ===== src/Duplicate/Models.antt =====
-- backend/app/models: signals, results and decisions of duplicate detection. The human-readable
-- messages are assembled from the other fields and are not modelled.
use product_intelligence.Base.{ℕ, Bool, Option, List}
use product_intelligence.Text.Strings.{Text}

pub record ProductAttributes (F : Type 0) : Type 0 where
  pub brand : Option Text
  pub category : Option Text
  pub subcategory : Option Text
  pub color : Option Text
  pub material : Option Text
  pub pattern : Option Text
  pub gender : Option Text
  pub age_group : Option Text
  pub style : Option Text
  pub season : Option Text
  pub occasion : Option Text
  pub confidence : F

pub data Signal : Type 0 where
  image text metadata attribute : Signal

pub record SimilaritySignal (F : Type 0) : Type 0 where
  pub name : Signal
  pub score : F
  pub weight : F
  pub contribution : F

pub record DuplicateResult (F : Type 0) : Type 0 where
  pub product_id : ℕ
  pub signals : List (SimilaritySignal F)
  pub overall_similarity : F

pub record DuplicateCandidate (F : Type 0) : Type 0 where
  pub product_id : ℕ
  pub image_similarity : F
  pub text_similarity : F
  pub metadata_similarity : F
  pub attribute_similarity : F
  pub overall_similarity : F

pub record DuplicateDecision (F : Type 0) : Type 0 where
  pub is_duplicate : Bool
  pub confidence : F
  pub matched_product : Option ℕ
  pub top_candidates : List (DuplicateCandidate F)
