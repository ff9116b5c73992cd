-- ===== src/Search/Reranking.antt =====
-- RerankerService fills the interface that the hybrid search relies on.
use mathlib.Core.Option.{some-injective}
use mathlib.Core.Path.{subst}
use product_intelligence.Base.{
  ℕ, ◌≤◌, ◌≡◌, ◌≢◌, refl, sym, ◌∙◌, true, Option, none, some, List, [], ◌∷◌, length, length-take,
  take, All, All-take, All-map, any_by, arith, ◌==◌, Bool-cases, inl, inr,
}
use product_intelligence.Base.Result.{Result, ok, err, ◌>>=◌}
use product_intelligence.Float.Interface.{Float, Numerics}
use product_intelligence.Float.Ranking.{ranked, All-ranked}
use product_intelligence.Text.Strings.{Text, Unicode}
use product_intelligence.Search.Results.{HybridSearchResult}
use product_intelligence.Search.Rerank.{
  SearchError, key_error, RerankedCandidate, CrossEncoder, zip_strict, rerank_scored,
  or_rerank_exception, rerank_pool, rerank,
}
use product_intelligence.Search.RerankLaws.{
  Pairs, zip_strict_same, zip_strict_different, IsOneOf, to_reranked_lem, any_by-take,
}
use product_intelligence.Search.HybridLaws.{IsReranker}

module _ {F : Type 0} ⦃f : Float F⦄ ⦃n : Numerics F⦄ ⦃u : Unicode⦄ (encoder : CrossEncoder F)
    (top_n : ℕ) where
  zip_strict_members :
      (cs : List (HybridSearchResult F)) (xs : List F) (ps : Pairs encoder top_n)
      → zip_strict encoder top_n cs xs ≡ some ps
      → All (λ p. any_by (λ c. c.product_id == p.0.product_id) cs ≡ true) ps
  zip_strict_members cs xs ps e = elim (Bool-cases (length xs == length cs)) [
    | inl same ↦
        let (qs, e', _, members) = zip_strict_same encoder top_n cs xs (ground (arith, same)) in
        subst (All (λ p. any_by (λ c. c.product_id == p.0.product_id) cs ≡ true))
          (some-injective _ _ (sym e' ∙ e)) members
    | inr different ↦
        absurd
          (cc (zip_strict_different encoder top_n cs xs (λ same. ground (arith, different, same))))
  ]

  scored_within :
      (pool : List (HybridSearchResult F)) (k : ℕ) (zipped : Option (Pairs encoder top_n))
      (rs : List (RerankedCandidate F))
      → ((ps : Pairs encoder top_n)
          → zipped ≡ some ps
          → All (λ p. any_by (λ c. c.product_id == p.0.product_id) pool ≡ true) ps)
      → rerank_scored encoder top_n pool (some k) zipped ≡ ok rs
      → (length rs ≤ k) × All (IsOneOf encoder top_n pool) rs
  unfolding rerank_scored
  scored_within pool k none rs members e = cc
  scored_within pool k (some ps) rs members e =
      let by_raw : HybridSearchResult F × F → F = λ p. p.1 in
      let kept =
        All-take (λ p. any_by (λ c. c.product_id == p.0.product_id) pool ≡ true) k
          (ranked by_raw ps)
          (All-ranked by_raw (λ p. any_by (λ c. c.product_id == p.0.product_id) pool ≡ true) ps
            (members ps refl)) in
      let (counted, _, all) =
        to_reranked_lem encoder top_n pool 1 (take k (ranked by_raw ps)) kept in
      subst
        (λ (l : List (RerankedCandidate F)). (length l ≤ k) × All (IsOneOf encoder top_n pool) l)
        (ok-injective _ _ e) (omega (arith, counted, length-take k (ranked by_raw ps)), all)
    where
      ok-injective :
          (xs ys : List (RerankedCandidate F))
          → ◌≡◌ {A = Result SearchError (List (RerankedCandidate F))} (ok xs) (ok ys)
          → xs ≡ ys
      ok-injective xs ys h = cc

  pool_within :
      (query : Text) (pool : List (HybridSearchResult F)) (k : ℕ) (rs : List (RerankedCandidate F))
      → rerank_pool encoder top_n query (some k) pool ≡ ok rs
      → (length rs ≤ k) × All (IsOneOf encoder top_n pool) rs
  unfolding rerank_pool
  pool_within query [] k rs e = nothing rs e
    where
      nothing :
          (rs : List (RerankedCandidate F))
          → ◌≡◌ {A = Result SearchError (List (RerankedCandidate F))} (ok []) (ok rs)
          → (length rs ≤ k) × All (IsOneOf encoder top_n []) rs
      nothing [] e = (omega arith, tt)
      nothing (r ∷ rs) e = cc
  pool_within query (c ∷ cs) k rs e = scored (encoder.score_pairs _) e
    where
      scored :
          (reply : Result SearchError (List F))
          → (or_rerank_exception encoder top_n reply >>= λ raw.
              rerank_scored encoder top_n (c ∷ cs) (some k) (zip_strict encoder top_n (c ∷ cs) raw))
            ≡ ok rs
          → (length rs ≤ k) × All (IsOneOf encoder top_n (c ∷ cs)) rs
      scored (err x) h = cc
      scored (ok raw) h = scored_within (c ∷ cs) k _ rs (zip_strict_members (c ∷ cs) raw) h

  -- What `rerank` returns for `top_k`, whatever the cross-encoder does: at most `top_k` candidates,
  -- each of them one of those that it was given.
  rerank_within :
      (query : Text) (cs : List (HybridSearchResult F)) (k : ℕ) (rs : List (RerankedCandidate F))
      → rerank encoder top_n query cs (some k) ≡ ok rs
      → (length rs ≤ k) × All (IsOneOf encoder top_n cs) rs
  unfolding rerank
  rerank_within query cs k rs e =
      let (few, members) = pool_within query (take top_n cs) k rs e in
      (
        few,
        All-map
            (λ r member.
              any_by-take encoder top_n top_n (λ c. c.product_id == r.product_id) cs member)
            rs members,
      )

  rerank-no_key_error :
      (query : Text) (cs : List (HybridSearchResult F)) (top_k : Option ℕ)
      → rerank encoder top_n query cs top_k ≢ err key_error
  unfolding rerank rerank_pool rerank_scored
  rerank-no_key_error query cs top_k e = pool_clean (take top_n cs) e
    where
      no_key :
          (zipped : Option (Pairs encoder top_n)) (pool : List (HybridSearchResult F))
          → rerank_scored encoder top_n pool top_k zipped ≢ err key_error
      no_key none pool e = cc e
      no_key (some ps) pool e = cc e

      scored_clean :
          (pool : List (HybridSearchResult F)) (reply : Result SearchError (List F))
          → (or_rerank_exception encoder top_n reply >>= λ raw.
              rerank_scored encoder top_n pool top_k (zip_strict encoder top_n pool raw))
            ≢ err key_error
      scored_clean pool (err x) h = cc h
      scored_clean pool (ok raw) h = no_key _ pool h

      pool_clean :
          (pool : List (HybridSearchResult F))
          → rerank_pool encoder top_n query top_k pool ≢ err key_error
      pool_clean [] h = cc h
      pool_clean (c ∷ cs) h = scored_clean (c ∷ cs) (encoder.score_pairs _) h

  -- `rerank` may stand behind a hybrid search: whatever the cross-encoder does, it returns at most
  -- `top_k` candidates, each of them one that it was given, and raises no KeyError.
  pub rerank-IsReranker : IsReranker (rerank encoder top_n)
  rerank-IsReranker = record { no_key_error = rerank-no_key_error; within = rerank_within }
