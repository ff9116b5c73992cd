-- ===== src/Search/RerankLaws.antt =====
-- RerankerService.rerank: how many it returns, with which ranks, and what a bad reply does.
use mathlib.Core.Option
use mathlib.Core.Option.{some-injective}
use product_intelligence.Base.{
  ℕ, zero, suc, ◌+◌, ◌≡◌, ◌≢◌, refl, ap, Bool, true, Option, none, some, List, [], ◌∷◌, map, length,
  take, All, All-map, any_by, arith, min, ◌==◌, ==_refl,
}
use product_intelligence.Base.Result.{Result, ok}
use product_intelligence.Float.Interface.{Float, Numerics}
use product_intelligence.Text.Strings.{Text, Unicode}
use product_intelligence.Search.Results.{HybridSearchResult}
use product_intelligence.Search.Rerank.{
  SearchError, RerankedCandidate, CrossEncoder, zip_strict, to_reranked,
}

module _ {F : Type 0} ⦃f : Float F⦄ ⦃n : Numerics F⦄ ⦃u : Unicode⦄ (encoder : CrossEncoder F)
    (top_n : ℕ) where
  abbrev pub Pairs : Type 0
  Pairs = List (HybridSearchResult F × F)

  pub zip_strict_same :
      (cs : List (HybridSearchResult F)) (xs : List F)
      → length xs ≡ length cs
      → (ps : Pairs) × (zip_strict encoder top_n cs xs ≡ some ps)
        × (length ps ≡ length cs)
        × All (λ p. any_by (λ c. c.product_id == p.0.product_id) cs ≡ true) ps
  zip_strict_same [] [] h = ([], refl, refl, tt)
  zip_strict_same [] (x ∷ xs) h = absurd (omega (arith, h))
  zip_strict_same (c ∷ cs) [] h = absurd (omega (arith, h))
  zip_strict_same (c ∷ cs) (x ∷ xs) h =
      let (ps, e, same, members) = zip_strict_same cs xs (omega (arith, h)) in
      (
        (c, x) ∷ ps,
        ap (Option.map (λ (rest : Pairs). (c, x) ∷ rest)) e,
        ap suc same,
        (simp ==_refl, All-map (λ p member. ground (arith, member)) ps members),
      )

  pub zip_strict_different :
      (cs : List (HybridSearchResult F)) (xs : List F)
      → length xs ≢ length cs
      → zip_strict encoder top_n cs xs ≡ none
  zip_strict_different [] [] h = absurd (h refl)
  zip_strict_different [] (x ∷ xs) h = refl
  zip_strict_different (c ∷ cs) [] h = refl
  zip_strict_different (c ∷ cs) (x ∷ xs) h =
      ap (Option.map (λ (rest : Pairs). (c, x) ∷ rest))
        (zip_strict_different cs xs (λ e. h (ap suc e)))

  -- Final ranks that count on from `rank`.
  abbrev pub AreRankedFrom : (rank : ℕ) → List (RerankedCandidate F) → Type 0
  AreRankedFrom rank [] = Unit
  AreRankedFrom rank (r ∷ rs) = (r.final_rank ≡ rank) × AreRankedFrom (rank + 1) rs

  abbrev pub IsOneOf : List (HybridSearchResult F) → RerankedCandidate F → Type 0
  IsOneOf cs r = any_by (λ c. c.product_id == r.product_id) cs ≡ true

  pub to_reranked_lem :
      (pool : List (HybridSearchResult F)) (rank : ℕ) (ps : Pairs)
      → All (λ p. any_by (λ c. c.product_id == p.0.product_id) pool ≡ true) ps
      → let rs = to_reranked encoder top_n pool rank ps in
        (length rs ≡ length ps) × AreRankedFrom rank rs × All (IsOneOf pool) rs
  to_reranked_lem pool rank [] h = (refl, tt, tt)
  to_reranked_lem pool rank ((c, x) ∷ ps) (h, hs) =
      let (same, ranks, members) = to_reranked_lem pool (rank + 1) ps hs in
      (ap suc same, (refl, ranks), (h, members))

  pub any_by-take :
      (k : ℕ) (p : HybridSearchResult F → Bool) (cs : List (HybridSearchResult F))
      → any_by p (take k cs) ≡ true
      → any_by p cs ≡ true
  any_by-take zero p cs h = cc
  any_by-take (suc k) p [] h = cc
  any_by-take (suc k) p (c ∷ cs) h = ground (arith, any_by-take k p cs)

  -- The cross-encoder gives one score for each pair.
  abbrev pub ScoresAll : Type 0
  ScoresAll =
      (pairs : List (Text × Text))
      → (xs : List F) × (encoder.score_pairs pairs ≡ ok xs) × (length xs ≡ length pairs)

  abbrev Reranks :
      Option ℕ
      → List (HybridSearchResult F)
      → Result SearchError (List (RerankedCandidate F))
      → Type 0
  Reranks top_k pool result =
      (rs : List (RerankedCandidate F)) × (result ≡ ok rs)
      × (length rs ≡ elim top_k [ none ↦ length pool | some k ↦ min k (length pool) ])
      × AreRankedFrom 1 rs
      × All (IsOneOf pool) rs
