-- ===== src/Search/HybridLaws.antt =====
-- What a search returns: how many, in which order, and which errors it cannot raise.
use mathlib.Core.Path.{subst}
use product_intelligence.Base.{
  ℕ, suc, ◌≤◌, ◌≡◌, ◌≢◌, refl, sym, ap, Bool, true, false, Option, none, some, List, [], ◌∷◌, map,
  length, length-take, All, any_by, arith, ◌==◌, or_default, inl, inr, Bool-cases,
}
use product_intelligence.Base.Result.{Result, ok, err, ◌>>=◌}
use product_intelligence.Float.Interface.{Float}
use product_intelligence.Float.Ranking.{ranked}
use product_intelligence.Text.Strings.{Text, Unicode}
use product_intelligence.Search.Results.{image, text, NearestNeighbor, HybridSearchResult}
use product_intelligence.Search.Fusion.{fuse, single_modality_result}
use product_intelligence.Search.Rerank.{SearchError, key_error, RerankedCandidate}
use product_intelligence.Search.Hybrid.{
  Reranker, HybridSearchService, query_of, find_by_id, look_up, by_score, with_score, finalize,
  dispatch, search,
}

module _ {F : Type 0} where
  -- What a search relies on in its reranker: no more candidates than asked for, each of them one of
  -- those that were given, and no KeyError of its own.
  pub record IsReranker (reranker : Reranker F) : Type 0 where
    pub no_key_error :
        (query : Text) (results : List (HybridSearchResult F)) (top_k : Option ℕ)
        → reranker query results top_k ≢ err key_error
    pub within :
        (query : Text) (results : List (HybridSearchResult F)) (k : ℕ)
        (candidates : List (RerankedCandidate F))
        → reranker query results (some k) ≡ ok candidates
        → (length candidates ≤ k)
          × All (λ c. any_by (λ r. r.product_id == c.product_id) results ≡ true) candidates

  find_by_id-some :
      (i : ℕ) (results : List (HybridSearchResult F)) (r : HybridSearchResult F)
      → (r' : HybridSearchResult F) × (find_by_id i results (some r) ≡ some r')
  find_by_id-some i [] r = (r, refl)
  find_by_id-some i (x ∷ results) r = elim (Bool-cases (x.product_id == i)) [
    | inl e ↦ rw e (find_by_id-some i results x)
    | inr e ↦ rw e (find_by_id-some i results r)
  ]

  find_by_id_found :
      (i : ℕ) (results : List (HybridSearchResult F))
      → any_by (λ r. r.product_id == i) results ≡ true
      → (r' : HybridSearchResult F) × (find_by_id i results none ≡ some r')
  find_by_id_found i [] h = cc
  find_by_id_found i (x ∷ results) h = elim (Bool-cases (x.product_id == i)) [
    | inl e ↦ rw e (find_by_id-some i results x)
    | inr e ↦
        let there : any_by (λ r. r.product_id == i) results ≡ true = ground (arith, h, e) in
        rw e (find_by_id_found i results there)
  ]

  -- Looking up candidates that are all there raises nothing, and gives one result for each.
  pub look_up_lem :
      (change : HybridSearchResult F → RerankedCandidate F → HybridSearchResult F)
      (results : List (HybridSearchResult F)) (candidates : List (RerankedCandidate F))
      → All (λ c. any_by (λ r. r.product_id == c.product_id) results ≡ true) candidates
      → (rs : List (HybridSearchResult F)) × (look_up change results candidates ≡ ok rs)
        × (length rs ≡ length candidates)
  look_up_lem change results [] h = ([], refl, refl)
  look_up_lem change results (c ∷ cs) (h, hs) =
      let (r, e) = find_by_id_found c.product_id results h in
      let (rs, e', counted) = look_up_lem change results cs hs in
      (change r c ∷ rs, rw (e, e'), ap suc counted)

module _ {F I V Q : Type 0} ⦃f : Float F⦄ (service : HybridSearchService F I V Q) where
  -- What a search relies on in its indexes: no more neighbors than asked for, and no KeyError.
  pub record IsIndexed : Type 0 where
    pub image_within :
        (picture : I) (k : ℕ) (filters : Option Q) (ns : List (NearestNeighbor F))
        → service.indexes.search_by_image picture k filters ≡ ok ns
        → length ns ≤ k
    pub image_no_key_error :
        (picture : I) (k : ℕ) (filters : Option Q)
        → service.indexes.search_by_image picture k filters ≢ err key_error
    pub text_no_key_error :
        (query : Text) (k : ℕ) (filters : Option Q)
        → service.indexes.search_by_text query k filters ≢ err key_error

  -- At most so many results, and no KeyError.
  abbrev pub Within : ℕ → Result SearchError (List (HybridSearchResult F)) → Type 0
  Within k (ok rs) = length rs ≤ k
  Within k (err e) = e ≢ key_error

  finalize_reranked :
      (query : Text) (results : List (HybridSearchResult F)) (k : ℕ)
      (reply : Result SearchError (List (RerankedCandidate F)))
      → reply ≢ err key_error
      → ((candidates : List (RerankedCandidate F))
          → reply ≡ ok candidates
          → (length candidates ≤ k)
            × All (λ c. any_by (λ r. r.product_id == c.product_id) results ≡ true) candidates)
      → Within k (reply >>= look_up with_score results)
  finalize_reranked query results k (err e) clean within = λ same. clean (ap err same)
  finalize_reranked query results k (ok cs) clean within =
      let (few, members) = within cs refl in
      let (rs, e, counted) = look_up_lem with_score results cs members in
      subst (Within k) (sym e) (rw counted few)

  module _ (reranks : IsReranker service.reranker) where
    finalize-Within :
        (query : Text) (results : List (HybridSearchResult F)) (k : ℕ) (active : Bool)
        → Within k (finalize service query results k active)
    unfolding finalize
    finalize-Within query results k false = omega (arith, length-take k results)
    finalize-Within query results k true =
        finalize_reranked query results k (service.reranker query results (some k))
          (reranks.no_key_error query results (some k)) (reranks.within query results k)

    module _ (indexed : IsIndexed) where
      dispatch-Within :
          (picture : Option I) (query : Option Text) (k : ℕ) (filters : Option Q) (active : Bool)
          → Within k (dispatch service picture query k filters active)
      unfolding dispatch
      dispatch-Within none none k filters active = λ e. cc e
      dispatch-Within (some picture) none k filters active =
          image_only (service.indexes.search_by_image picture k filters)
            (indexed.image_no_key_error picture k filters) (indexed.image_within picture k filters)
        where
          length-map :
              (ns : List (NearestNeighbor F))
              → length (map (λ n. single_modality_result n image) ns) ≡ length ns
          length-map [] = refl
          length-map (n ∷ ns) = ap suc (length-map ns)

          image_only :
              (reply : Result SearchError (List (NearestNeighbor F)))
              → reply ≢ err key_error
              → ((ns : List (NearestNeighbor F)) → reply ≡ ok ns → length ns ≤ k)
              → Within k (reply >>= λ ns. ok (map (λ n. single_modality_result n image) ns))
          image_only (err e) clean few = λ same. clean (ap err same)
          image_only (ok ns) clean few = omega (arith, few ns refl, length-map ns)
      dispatch-Within none (some query) k filters active =
          text_only (service.indexes.search_by_text query _ filters)
            (indexed.text_no_key_error query _ filters)
        where
          text_only :
              (reply : Result SearchError (List (NearestNeighbor F)))
              → reply ≢ err key_error
              → Within k (
                  reply >>= λ ns.
                  finalize service query (map (λ n. single_modality_result n text) ns) k active)
          text_only (err e) clean = λ same. clean (ap err same)
          text_only (ok ns) clean = finalize-Within query _ k active
      dispatch-Within (some picture) (some query) k filters active =
          both (service.indexes.search_by_image picture _ filters)
            (indexed.image_no_key_error picture _ filters)
            (service.indexes.search_by_text query _ filters)
            (indexed.text_no_key_error query _ filters)
        where
          both :
              (first : Result SearchError (List (NearestNeighbor F)))
              → first ≢ err key_error
              → (second : Result SearchError (List (NearestNeighbor F))) → second ≢ err key_error
              → Within k (
                  first >>= λ ns.
                  (second >>= λ ms.
                  finalize service query
                    (ranked by_score (fuse ns ms service.image_weight service.text_weight))
                    k
                    active))
          both (err e) clean second clean' = λ same. clean (ap err same)
          both (ok ns) clean (err e) clean' = λ same. clean' (ap err same)
          both (ok ns) clean (ok ms) clean' = finalize-Within query _ k active

      -- A search returns at most the number of results that were asked for, by image, by text or by
      -- both, with or without reranking; and the lookup of a reranked candidate never raises.
      pub search-Within :
          ⦃u : Unicode⦄ (picture : Option I) (query : Option Text) (top_k : Option ℕ)
          (filters : Option Q) (reranking_enabled : Option Bool)
          → Within
              (or_default top_k service.default_top_k)
              (search service picture query top_k filters reranking_enabled)
      unfolding search
      search-Within picture query top_k filters reranking_enabled =
          dispatch-Within picture (query_of query) _ filters _
