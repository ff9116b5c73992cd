-- ===== src/Search/Fusion.antt =====
-- `_fuse` of backend/app/services/vectorstore/hybrid_search_service.py. The dictionary of entries is
-- a list in the order of insertion.
use product_intelligence.Base.{ℕ, Bool, true, false, List, [], ◌∷◌, ◌++◌, map, ◌==◌, if◌then◌else◌}
use product_intelligence.Float.Interface.{Float}
use product_intelligence.Text.Metadata.{Metadata}
use product_intelligence.Search.Results.{
  SearchModality, image, text, NearestNeighbor, HybridSearchResult,
}

pub record FusionEntry (F : Type 0) : Type 0 where
  pub product_id : ℕ
  pub metadata : Metadata F
  pub image_score : F
  pub text_score : F
  pub in_image : Bool
  pub in_text : Bool

module _ {F : Type 0} ⦃f : Float F⦄ where
  abbrev pub fresh_entry : NearestNeighbor F → FusionEntry F
  fresh_entry n = record {
    product_id = n.product_id;
    metadata = n.metadata;
    image_score = f.nought;
    text_score = f.nought;
    in_image = false;
    in_text = false;
  }

  abbrev pub scored : SearchModality → NearestNeighbor F → FusionEntry F → FusionEntry F
  scored image n e = record e { image_score = n.score; in_image = true }
  scored text n e = record e { text_score = n.score; in_text = true }

  -- `entries.setdefault(...)`, and the two assignments to the entry.
  abbrev pub record_neighbor :
      SearchModality → NearestNeighbor F → List (FusionEntry F) → List (FusionEntry F)
  record_neighbor m n [] = scored m n (fresh_entry n) ∷ []
  record_neighbor m n (e ∷ es) =
      if e.product_id == n.product_id then scored m n e ∷ es else e ∷ record_neighbor m n es

  abbrev pub record_all :
      SearchModality → List (NearestNeighbor F) → List (FusionEntry F) → List (FusionEntry F)
  record_all m [] es = es
  record_all m (n ∷ ns) es = record_all m ns (record_neighbor m n es)

  -- Sorted by value: "image" stands before "text".
  abbrev pub modalities : FusionEntry F → List SearchModality
  modalities e = (if e.in_image then image ∷ [] else []) ++ (if e.in_text then text ∷ [] else [])

  abbrev pub to_result : (image_weight text_weight : F) → FusionEntry F → HybridSearchResult F
  to_result image_weight text_weight e = record {
    product_id = e.product_id;
    score = f.add (f.mul image_weight e.image_score) (f.mul text_weight e.text_score);
    metadata = e.metadata;
    matched_modalities = modalities e;
    image_score = e.image_score;
    text_score = e.text_score;
  }

  unfoldable pub fuse :
      (image_neighbors text_neighbors : List (NearestNeighbor F)) (image_weight text_weight : F)
      → List (HybridSearchResult F)
  fuse image_neighbors text_neighbors image_weight text_weight =
      map (to_result image_weight text_weight)
        (record_all text text_neighbors (record_all image image_neighbors []))

  unfoldable pub single_modality_result : NearestNeighbor F → SearchModality → HybridSearchResult F
  single_modality_result n image = record {
    product_id = n.product_id;
    score = n.score;
    metadata = n.metadata;
    matched_modalities = image ∷ [];
    image_score = n.score;
    text_score = f.nought;
  }
  single_modality_result n text = record {
    product_id = n.product_id;
    score = n.score;
    metadata = n.metadata;
    matched_modalities = text ∷ [];
    image_score = f.nought;
    text_score = n.score;
  }
