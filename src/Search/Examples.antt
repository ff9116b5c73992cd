-- ===== src/Search/Examples.antt =====
-- The theorems on search at concrete inputs, in thousandths.
use product_intelligence.Base.{
  none, length-take, true, ℕ, ◌≤◌, ◌≡◌, length, map, take, arith, some, List, [], ◌∷◌, count,
}
use product_intelligence.Float.Fixed.{ℤ, pos, fixed, fixed_numerics}
use product_intelligence.Search.Results.{SearchModality, NearestNeighbor, HybridSearchResult}
use product_intelligence.Base.Result.{Result, ok}
use product_intelligence.Text.Strings.{Text, ascii, codes}
use product_intelligence.Search.Fusion.{fuse}
use product_intelligence.Search.Rerank.{SearchError, CrossEncoder, rerank}
use mathlib.Core.Path.{subst}
use product_intelligence.Search.Hybrid.{
  StoredPoint, Indexes, HybridSearchService, search, search_by_product_id,
}
use product_intelligence.Search.HybridLaws.{IsReranker, IsIndexed, Within, search-Within}
use product_intelligence.Search.Reranking.{rerank-IsReranker}
use product_intelligence.Search.ByProduct.{Others, search_by_product_id-Others}
use product_intelligence.Search.FusionLaws.{fuse_lem, result_ids, find_result}

abbrev neighbor : ℕ → ℤ → NearestNeighbor ℤ
neighbor i score = record { product_id = i; score = score; metadata = [] }

abbrev images : List (NearestNeighbor ℤ)
images = neighbor 1 (pos 900) ∷ neighbor 2 (pos 700) ∷ []

abbrev texts : List (NearestNeighbor ℤ)
texts = neighbor 2 (pos 800) ∷ neighbor 3 (pos 400) ∷ []

fuse_lem_example :
    let rs = fuse images texts (pos 500) (pos 500) in
    (count 2 (result_ids rs) ≤ 1)
    × (find_result 2 rs
        ≡ some (
          fixed.add (fixed.mul (pos 500) (pos 700)) (fixed.mul (pos 500) (pos 800)),
          pos 700,
          pos 800,
        ))
fuse_lem_example = fuse_lem (pos 500) (pos 500) images texts 2

abbrev found : ℕ → ℤ → HybridSearchResult ℤ
found i score = record {
  product_id = i;
  score = score;
  metadata = [];
  matched_modalities = [];
  image_score = pos 0;
  text_score = score;
}

abbrev results : List (HybridSearchResult ℤ)
results = found 1 (pos 900) ∷ found 2 (pos 700) ∷ found 3 (pos 600) ∷ []

-- A cross-encoder that scores by the length of the document, and one whose replies are too short.
abbrev by_length : CrossEncoder ℤ
by_length = record {
  score_pairs = λ pairs. ok (map (λ p. pos (length p.1)) pairs);
  id_text = λ i. codes "id";
}

abbrev too_short : CrossEncoder ℤ
too_short = record { score_pairs = λ pairs. ok []; id_text = λ i. codes "id" }

abbrev point : StoredPoint ℤ ℕ
point = record { vector = 0; metadata = [] }

-- Indexes with one list of neighbors each; product 1 has an image and no text.
abbrev indexes : Indexes ℤ ℕ ℕ ℕ
indexes = record {
  search_by_image = λ picture k filters. ok (take k images);
  search_by_text = λ query k filters. ok (take k texts);
  image_by_vector = λ vector k filters. ok (take k images);
  text_by_vector = λ vector k filters. ok (take k texts);
  retrieve_image = λ i. ok (some point);
  retrieve_text = λ i. ok none;
}

abbrev service : HybridSearchService ℤ ℕ ℕ ℕ
service = record {
  indexes = indexes;
  reranker = rerank ⦃u = ascii⦄ by_length 20;
  image_weight = pos 500;
  text_weight = pos 500;
  reranking_enabled = true;
  rerank_top_n = 20;
  default_top_k = 2;
}

service-IsIndexed : IsIndexed service
service-IsIndexed = record {
  image_within = λ picture k filters ns e. within k ns e;
  image_no_key_error = λ picture k filters e. cc e;
  text_no_key_error = λ query k filters e. cc e;
}
  where
    within :
        (k : ℕ) (ns : List (NearestNeighbor ℤ))
        → ◌≡◌ {A = Result SearchError (List (NearestNeighbor ℤ))} (ok (take k images)) (ok ns)
        → length ns ≤ k
    within k ns e =
        let same : take k images ≡ ns = cc e in
        subst (λ (l : List (NearestNeighbor ℤ)). length l ≤ k) same
          (omega (arith, length-take k images))

search-Within_example :
    Within service 2 (search service ⦃u = ascii⦄ (some 5) (some (codes "red shoe")) none none none)
search-Within_example =
    search-Within service (rerank-IsReranker ⦃u = ascii⦄ by_length 20) service-IsIndexed ⦃u = ascii⦄
      (some 5) (some (codes "red shoe")) none none none

search_by_product_id-Others_example :
    Others service 1 2 (search_by_product_id service 1 none none (some SearchModality.image))
search_by_product_id-Others_example =
    search_by_product_id-Others service 1 none none (some SearchModality.image)

rerank-IsReranker_example : IsReranker (rerank ⦃u = ascii⦄ too_short 20)
rerank-IsReranker_example = rerank-IsReranker ⦃u = ascii⦄ too_short 20
