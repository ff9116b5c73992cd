-- ===== src/Evaluation/Metrics.antt =====
-- backend/app/services/evaluation/retrieval_evaluator.py: the metrics. `log2` is `math.log2`.
use product_intelligence.Base.{
  ℕ, zero, suc, ◌+◌, Bool, true, false, ◌||◌, List, [], ◌∷◌, length, take, any_by, min, ◌==◌,
  if◌then◌else◌,
}
use product_intelligence.Float.Interface.{Float, sum}

-- `product_id in expected`
abbrev pub is_expected : (expected : List ℕ) → ℕ → Bool
is_expected expected product_id = any_by (λ e. e == product_id) expected

-- `set(products)`, without an order that counts.
abbrev pub to_set : List ℕ → List ℕ
to_set [] = []
to_set (i ∷ products) =
    let rest = to_set products in if is_expected products i then rest else i ∷ rest

abbrev pub is_nil : List ℕ → Bool
is_nil [] = true
is_nil (i ∷ is) = false

-- `sum(1 for product_id in products if product_id in expected)`
abbrev pub relevant : (expected : List ℕ) → List ℕ → ℕ
relevant expected [] = 0
relevant expected (i ∷ products) =
    (if is_expected expected i then 1 else 0) + relevant expected products

module _ {F : Type 0} ⦃f : Float F⦄ where
  unfoldable pub precision_at_k : (retrieved expected : List ℕ) → (k : ℕ) → F
  precision_at_k retrieved expected k =
      let top_k = take k retrieved in
      if is_nil expected || is_nil top_k
      then f.nought
      else f.div (f.of_ℕ (relevant expected top_k)) (f.of_ℕ (length top_k))

  unfoldable pub recall_at_k : (retrieved expected : List ℕ) → (k : ℕ) → F
  recall_at_k retrieved expected k =
      if is_nil expected
      then f.nought
      else f.div (f.of_ℕ (relevant expected (take k retrieved))) (f.of_ℕ (length expected))

  unfoldable pub hit_rate_at_k : (retrieved expected : List ℕ) → (k : ℕ) → F
  hit_rate_at_k retrieved expected k =
      if is_nil expected
      then f.nought
      else if any_by (is_expected expected) (take k retrieved)
      then f.unity
      else f.nought

  -- The loop of `_reciprocal_rank`, from `rank` on.
  abbrev pub first_hit : (expected : List ℕ) → (rank : ℕ) → List ℕ → F
  first_hit expected rank [] = f.nought
  first_hit expected rank (i ∷ retrieved) =
      if is_expected expected i
      then f.div f.unity (f.of_ℕ rank)
      else first_hit expected (rank + 1) retrieved

  unfoldable pub reciprocal_rank : (retrieved expected : List ℕ) → F
  reciprocal_rank retrieved expected =
      if is_nil expected then f.nought else first_hit expected 1 retrieved

  module _ (log2 : F → F) where
    -- `1.0 / math.log2(rank + 1)`
    abbrev pub gain : (rank : ℕ) → F
    gain rank = f.div f.unity (log2 (f.of_ℕ (rank + 1)))

    abbrev pub gains : (expected : List ℕ) → (rank : ℕ) → List ℕ → List F
    gains expected rank [] = []
    gains expected rank (i ∷ retrieved) =
        let rest = gains expected (rank + 1) retrieved in
        if is_expected expected i then gain rank ∷ rest else rest

    -- The gains of `n` hits from `rank` on.
    abbrev pub ideal_gains : (rank n : ℕ) → List F
    ideal_gains rank zero = []
    ideal_gains rank (suc n) = gain rank ∷ ideal_gains (rank + 1) n

    unfoldable pub ndcg_at_k : (retrieved expected : List ℕ) → (k : ℕ) → F
    ndcg_at_k retrieved expected k =
        let dcg = sum (gains expected 1 (take k retrieved)) in
        let ideal_hits = min (length expected) k in
        let idcg = sum (ideal_gains 1 ideal_hits) in
        if is_nil expected
        then f.nought
        else if f.lt f.nought idcg
        then f.div dcg idcg
        else f.nought
