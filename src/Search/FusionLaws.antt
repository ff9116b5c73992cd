-- ===== src/Search/FusionLaws.antt =====
-- Fusion against a description by lookups: every product once, with its weighted scores.
use product_intelligence.Base.{
  ℕ, suc, ◌≤◌, ◌≡◌, refl, ◌∙◌, Bool, true, false, ◌||◌, Option, none, some, List, [], ◌∷◌, map,
  arith, ◌==◌, if◌then◌else◌, any_by, count,
}
use product_intelligence.Float.Interface.{Float}
use product_intelligence.Search.Results.{
  SearchModality, image, text, NearestNeighbor, HybridSearchResult,
}
use product_intelligence.Search.Fusion.{FusionEntry, record_neighbor, record_all, to_result, fuse}

module _ {F : Type 0} ⦃f : Float F⦄ where
  abbrev pub result_ids : List (HybridSearchResult F) → List ℕ
  result_ids [] = []
  result_ids (r ∷ rs) = r.product_id ∷ result_ids rs

  abbrev pub find_result : ℕ → List (HybridSearchResult F) → Option (F × F × F)
  find_result i [] = none
  find_result i (r ∷ rs) =
      if r.product_id == i then some (r.score, r.image_score, r.text_score) else find_result i rs

  -- The score that one modality gives to a product, if it lists it: the last one.
  abbrev pub last_score : ℕ → List (NearestNeighbor F) → F → F
  last_score i [] otherwise = otherwise
  last_score i (n ∷ ns) otherwise =
      last_score i ns (if n.product_id == i then n.score else otherwise)

  abbrev pub lists : ℕ → List (NearestNeighbor F) → Bool
  lists i ns = any_by (λ n. n.product_id == i) ns

  abbrev ids : List (FusionEntry F) → List ℕ
  ids [] = []
  ids (e ∷ es) = e.product_id ∷ ids es

  -- Whether a product has an entry, and its two scores.
  abbrev has : ℕ → List (FusionEntry F) → Bool
  has i [] = false
  has i (e ∷ es) = if e.product_id == i then true else has i es

  abbrev image_at : ℕ → List (FusionEntry F) → F
  image_at i [] = f.nought
  image_at i (e ∷ es) = if e.product_id == i then e.image_score else image_at i es

  abbrev text_at : ℕ → List (FusionEntry F) → F
  text_at i [] = f.nought
  text_at i (e ∷ es) = if e.product_id == i then e.text_score else text_at i es

  record_image :
      (n : NearestNeighbor F) (es : List (FusionEntry F)) (i : ℕ)
      → let new = record_neighbor image n es in
        (has i new ≡ (if n.product_id == i then true else has i es))
        × (image_at i new ≡ (if n.product_id == i then n.score else image_at i es))
        × (text_at i new ≡ text_at i es)
  record_image n [] i = ground arith
  record_image n (e ∷ es) i = ground (arith, record_image n es i)

  record_text :
      (n : NearestNeighbor F) (es : List (FusionEntry F)) (i : ℕ)
      → let new = record_neighbor text n es in
        (has i new ≡ (if n.product_id == i then true else has i es))
        × (image_at i new ≡ image_at i es)
        × (text_at i new ≡ (if n.product_id == i then n.score else text_at i es))
  record_text n [] i = ground arith
  record_text n (e ∷ es) i = ground (arith, record_text n es i)

  record_count :
      (m : SearchModality) (n : NearestNeighbor F) (es : List (FusionEntry F)) (i : ℕ)
      → count i (ids (record_neighbor m n es)) ≡ (
          if n.product_id == i
          then (if has i es then count i (ids es) else suc (count i (ids es)))
          else count i (ids es))
  record_count image n [] i = ground arith
  record_count text n [] i = ground arith
  record_count image n (e ∷ es) i = ground (arith, record_count image n es i)
  record_count text n (e ∷ es) i = ground (arith, record_count text n es i)

  count_of_has : (es : List (FusionEntry F)) (i : ℕ) → has i es ≡ false → count i (ids es) ≡ 0
  count_of_has [] i h = refl
  count_of_has (e ∷ es) i h = ground (arith, count_of_has es i)

  record_all_image :
      (ns : List (NearestNeighbor F)) (es : List (FusionEntry F)) (i : ℕ)
      → let new = record_all image ns es in
        (has i new ≡ (if lists i ns then true else has i es))
        × (image_at i new ≡ last_score i ns (image_at i es))
        × (text_at i new ≡ text_at i es)
  record_all_image [] es i = ground arith
  record_all_image (n ∷ ns) es i =
      ground (arith, record_all_image ns (record_neighbor image n es) i, record_image n es i)

  record_all_text :
      (ns : List (NearestNeighbor F)) (es : List (FusionEntry F)) (i : ℕ)
      → let new = record_all text ns es in
        (has i new ≡ (if lists i ns then true else has i es))
        × (image_at i new ≡ image_at i es)
        × (text_at i new ≡ last_score i ns (text_at i es))
  record_all_text [] es i = ground arith
  record_all_text (n ∷ ns) es i =
      ground (arith, record_all_text ns (record_neighbor text n es) i, record_text n es i)

  count-record_all :
      (m : SearchModality) (ns : List (NearestNeighbor F)) (es : List (FusionEntry F)) (i : ℕ)
      → count i (ids es) ≤ 1
      → count i (ids (record_all m ns es)) ≤ 1
  count-record_all m [] es i h = h
  count-record_all m (n ∷ ns) es i h =
      count-record_all m ns (record_neighbor m n es) i
        (ground (arith, record_count m n es i, count_of_has es i))

  module _ (image_weight text_weight : F) where
    to_results_lem :
        (es : List (FusionEntry F)) (i : ℕ)
        → let rs = map (to_result image_weight text_weight) es in
          (result_ids rs ≡ ids es)
          × (find_result i rs ≡ (
              if has i es
              then some (
                f.add (f.mul image_weight (image_at i es)) (f.mul text_weight (text_at i es)),
                image_at i es,
                text_at i es,
              )
              else none))
    to_results_lem [] i = ground arith
    to_results_lem (e ∷ es) i = ground (arith, to_results_lem es i)

    -- The fused list has each product once, and has it exactly if the image or the text result lists
    -- it, with the weighted sum of its two scores; a modality that does not list it contributes 0.
    pub fuse_lem :
        (image_neighbors text_neighbors : List (NearestNeighbor F)) (i : ℕ)
        → let rs = fuse image_neighbors text_neighbors image_weight text_weight in
          let image_score = last_score i image_neighbors f.nought in
          let text_score = last_score i text_neighbors f.nought in
          (count i (result_ids rs) ≤ 1)
          × (find_result i rs ≡ (
              if lists i image_neighbors || lists i text_neighbors
              then some (
                f.add (f.mul image_weight image_score) (f.mul text_weight text_score),
                image_score,
                text_score,
              )
              else none))
    unfolding fuse
    fuse_lem images texts i =
        let es : List (FusionEntry F) = record_all image images [] in
        let all : List (FusionEntry F) = record_all text texts es in
        let (same_ids, found) = to_results_lem all i in
        let (has₁, image₁, text₁) = record_all_image images [] i in
        let (has₂, image₂, text₂) = record_all_text texts es i in
        (
          rw same_ids
              (count-record_all text texts es i (count-record_all image images [] i (omega arith))),
          found ∙ rw (has₂, has₁, image₂, image₁, text₂, text₁) (ground arith),
        )
