-- ===== src/Search/ByProduct.antt =====
-- The search for neighbors of a stored product, and the order of a fused list.
use product_intelligence.Base.{
  ℕ, ◌+◌, ◌≤◌, ◌≡◌, ◌≢◌, ◌⊎◌, refl, true, not, ◌&&◌, Option, none, some, List, length, length-take,
  take, All, All-take, All-filter_by_self, All-map, arith, ◌==◌, or_default, is_some, inl, inr,
}
use product_intelligence.Base.Result.{Result, ok, err, ◌>>=◌}
use product_intelligence.Float.Interface.{Float}
use product_intelligence.Search.Results.{SearchModality, image, text, HybridSearchResult}
use product_intelligence.Search.Rerank.{SearchError, not_found}
use product_intelligence.Search.Hybrid.{
  StoredPoint, HybridSearchService, want_image, want_text, without, retrieve_if, search_by_points,
  search_by_product_id,
}

module _ {F I V Q : Type 0} ⦃f : Float F⦄ (service : HybridSearchService F I V Q) where
  -- At most `k` results, none of them the product itself.
  abbrev pub Others : ℕ → ℕ → Result SearchError (List (HybridSearchResult F)) → Type 0
  Others product_id k (ok rs) = (length rs ≤ k) × All (λ r. r.product_id ≢ product_id) rs
  Others product_id k (err e) = Unit

  without_lem :
      (product_id k : ℕ) (results : List (HybridSearchResult F))
      → Others product_id k (ok (take k (without service product_id results)))
  without_lem product_id k results =
      let others = without service product_id results in
      (
        omega (arith, length-take k others),
        All-take (λ r. r.product_id ≢ product_id) k others
            (All-map (λ r kept same. ground (arith, kept, same)) others
              (All-filter_by_self (λ r. not (r.product_id == product_id)) results)),
      )

  Others-take :
      (product_id k : ℕ) (found : Result SearchError (List (HybridSearchResult F)))
      → Others product_id k (found >>= λ results. ok (take k (without service product_id results)))
  Others-take product_id k (err e) = tt
  Others-take product_id k (ok results) = without_lem product_id k results

  -- Whichever embeddings are used, the products found for a stored product are at most as many as
  -- asked for, and the product itself is never one of them.
  pub search_by_product_id-Others :
      (product_id : ℕ) (top_k : Option ℕ) (filters : Option Q) (modality : Option SearchModality)
      → Others product_id
          (or_default top_k service.default_top_k)
          (search_by_product_id service product_id top_k filters modality)
  unfolding search_by_product_id
  search_by_product_id-Others product_id top_k filters modality = first (
      retrieve_if service (want_image service modality) (service.indexes.retrieve_image product_id))
    where
      k : ℕ
      k = or_default top_k service.default_top_k

      second :
          (image_point : Option (StoredPoint F V))
          (retrieved : Result SearchError (Option (StoredPoint F V)))
          → Others product_id k (
              retrieved >>= λ text_point.
              (search_by_points service product_id (k + 1) filters modality image_point text_point
                >>= λ results. ok (take k (without service product_id results))))
      second image_point (err e) = tt
      second image_point (ok text_point) = Others-take product_id k _

      first :
          (retrieved : Result SearchError (Option (StoredPoint F V)))
          → Others product_id k (
              retrieved >>= λ image_point.
              (retrieve_if service
                  (want_text service modality)
                  (service.indexes.retrieve_text product_id)
                >>= λ text_point.
                    (search_by_points service product_id
                        (k + 1)
                        filters
                        modality
                        image_point
                        text_point
                      >>= λ results. ok (take k (without service product_id results)))))
      first (err e) = tt
      first (ok image_point) = second image_point _

  -- A product that is not in an index whose embedding is wanted is reported as not found, whichever
  -- of the two it is.
  pub search_by_product_id_missing :
      (product_id : ℕ) (top_k : Option ℕ) (filters : Option Q) (modality : Option SearchModality)
      (image_point text_point : Option (StoredPoint F V))
      → service.indexes.retrieve_image product_id ≡ ok image_point
      → service.indexes.retrieve_text product_id ≡ ok text_point
      → (want_image service modality && not (is_some image_point) ≡ true)
        ⊎ (want_text service modality && not (is_some text_point) ≡ true)
      → search_by_product_id service product_id top_k filters modality ≡ err (not_found product_id)
  unfolding search_by_product_id search_by_points
  search_by_product_id_missing product_id top_k filters modality image_point text_point e e' h =
      rw (e, e') (missing modality image_point text_point h)
    where
      missing :
          (modality : Option SearchModality) (image_point text_point : Option (StoredPoint F V))
          → (want_image service modality && not (is_some image_point) ≡ true)
            ⊎ (want_text service modality && not (is_some text_point) ≡ true)
          → (retrieve_if service (want_image service modality) (ok image_point) >>= λ image_point.
              (retrieve_if service (want_text service modality) (ok text_point) >>= λ text_point.
              (search_by_points service product_id
                  (or_default top_k service.default_top_k + 1)
                  filters
                  modality
                  image_point
                  text_point
                >>= λ results. ok (
                    take
                      (or_default top_k service.default_top_k)
                      (without service product_id results)))))
            ≡ err (not_found product_id)
      missing (some text) ip none h = refl
      missing (some text) ip (some tp) (inl h) = cc h
      missing (some text) ip (some tp) (inr h) = cc h
      missing (some image) none tp h = refl
      missing (some image) (some ip) tp (inl h) = cc h
      missing (some image) (some ip) tp (inr h) = cc h
      missing none none none h = refl
      missing none none (some tp) h = refl
      missing none (some ip) none h = refl
      missing none (some ip) (some tp) (inl h) = cc h
      missing none (some ip) (some tp) (inr h) = cc h
