-- ===== src/Evaluation/MetricsLaws.antt =====
-- How the metrics hang together.
use product_intelligence.Base.{
  ℕ, zero, suc, ◌+◌, ◌≡◌, ◌⊎◌, inl, inr, refl, ◌∙◌, true, false, some, List, [], ◌∷◌, get_elem?,
  take, any_by, leb, All, arith, Bool-cases, if◌then◌else◌,
}
use product_intelligence.Float.Interface.{Float}
use product_intelligence.Evaluation.Metrics.{
  is_expected, is_nil, hit_rate_at_k, first_hit, reciprocal_rank,
}

-- `n` products are skipped, and then comes one that is expected.
abbrev pub IsFirstHit : (expected retrieved : List ℕ) → (n : ℕ) → Type 0
IsFirstHit expected retrieved n =
    All (λ i. is_expected expected i ≡ false) (take n retrieved)
    × ((i : ℕ) × (get_elem? retrieved n ≡ some i) × (is_expected expected i ≡ true))

module _ (F : Type 0) ⦃f : Float F⦄ (expected : List ℕ) where
  -- What the loop gives from `rank` on.
  abbrev Outcome : (rank : ℕ) → List ℕ → (k : ℕ) → Type 0
  Outcome rank retrieved k =
      (All (λ i. is_expected expected i ≡ false) retrieved
        × (first_hit expected rank retrieved ≡ f.nought)
        × (any_by (is_expected expected) (take k retrieved) ≡ false))
      ⊎ ((n : ℕ) × IsFirstHit expected retrieved n
          × (first_hit expected rank retrieved ≡ f.div f.unity (f.of_ℕ (rank + n)))
          × (any_by (is_expected expected) (take k retrieved) ≡ leb (suc n) k))

  first_hit_lem : (rank : ℕ) (retrieved : List ℕ) (k : ℕ) → Outcome rank retrieved k
  first_hit_lem rank [] zero = inl (tt, refl, refl)
  first_hit_lem rank [] (suc k) = inl (tt, refl, refl)
  first_hit_lem rank (i ∷ retrieved) zero = elim (Bool-cases (is_expected expected i)) [
    | inl hit ↦ inr (0, (tt, (i, refl, hit)), ground arith, ground arith)
    | inr miss ↦ elim (first_hit_lem (rank + 1) retrieved zero) [
      | inl (misses, nothing, out) ↦ inl ((miss, misses), rw miss nothing, refl)
      | inr (n, (misses, there), found, hits) ↦
          inr (suc n, ((miss, misses), there), rw miss (found ∙ ground arith), ground arith)
    ]
  ]
  first_hit_lem rank (i ∷ retrieved) (suc k) = elim (Bool-cases (is_expected expected i)) [
    | inl hit ↦ inr (0, (tt, (i, refl, hit)), ground arith, ground arith)
    | inr miss ↦ elim (first_hit_lem (rank + 1) retrieved k) [
      | inl (misses, nothing, out) ↦ inl ((miss, misses), rw miss nothing, rw miss out)
      | inr (n, (misses, there), found, hits) ↦ inr (
        suc n,
        ((miss, misses), there),
        rw miss (found ∙ ground arith),
        rw miss (hits ∙ ground arith),
      )
    ]
  ]

-- The reciprocal rank and the hit rates tell of the same product: if nothing that was retrieved is
-- expected both are 0; else there is a first product that is, after `n` others, the reciprocal rank
-- is 1 / (n + 1), and the hit rate at `k` is 1 from k = n + 1 on and 0 below.
pub reciprocal_rank-hit_rate_at_k :
    (F : Type 0) ⦃f : Float F⦄ (retrieved expected : List ℕ) (k : ℕ)
    → is_nil expected ≡ false
    → (All (λ i. is_expected expected i ≡ false) retrieved
        × (reciprocal_rank retrieved expected ≡ f.nought)
        × (hit_rate_at_k retrieved expected k ≡ f.nought))
      ⊎ ((n : ℕ) × IsFirstHit expected retrieved n
          × (reciprocal_rank retrieved expected ≡ f.div f.unity (f.of_ℕ (n + 1)))
          × (hit_rate_at_k retrieved expected k ≡ (if leb (n + 1) k then f.unity else f.nought)))
unfolding reciprocal_rank hit_rate_at_k
reciprocal_rank-hit_rate_at_k F retrieved expected k given =
    elim (first_hit_lem F expected 1 retrieved k) [
      | inl (misses, nothing, out) ↦ inl (misses, rw given nothing, rw (given, out))
      | inr (n, first, found, hits) ↦
          inr (n, first, rw given (found ∙ ground arith), rw (given, hits) (ground arith))
    ]
