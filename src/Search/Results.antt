-- ===== src/Search/Results.antt =====
-- backend/app/models/search.py.
use product_intelligence.Base.{ℕ, List}
use product_intelligence.Text.Metadata.{Metadata}

pub data SearchModality : Type 0 where
  image text : SearchModality

pub record NearestNeighbor (F : Type 0) : Type 0 where
  pub product_id : ℕ
  pub score : F
  pub metadata : Metadata F

pub record HybridSearchResult (F : Type 0) : Type 0 where
  pub product_id : ℕ
  pub score : F
  pub metadata : Metadata F
  pub matched_modalities : List SearchModality
  pub image_score : F
  pub text_score : F
