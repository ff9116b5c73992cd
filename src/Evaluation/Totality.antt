-- ===== src/Evaluation/Totality.antt =====
-- An evaluation always gives a report: the averages find every cutoff in every result.
use product_intelligence.Base.{ℕ, ◌≡◌, true, Option, none, some, List, any_by, ◌==◌}
use product_intelligence.Base.Result.{Result, ok}
use product_intelligence.Float.Interface.{Float}
use product_intelligence.Evaluation.Evaluator.{EvaluationError, AtK, EvaluationQueryResult}
use product_intelligence.Evaluation.Aggregate.{value_at}

-- The call gives a result.
abbrev pub Succeeds : {E A : Type 0} → Result E A → Type 0
Succeeds {E} {A} m = (x : A) × (m ≡ ok x)

module _ {F : Type 0} ⦃f : Float F⦄ (ks : List ℕ) where
  -- A value for each cutoff.
  abbrev HasKeys : AtK F → Type 0
  HasKeys values = (k : ℕ) → any_by (λ j. j == k) ks ≡ true → Succeeds (value_at k values)

  abbrev IsComplete : EvaluationQueryResult F → Type 0
  IsComplete r =
      HasKeys r.precision_at_k
      × HasKeys r.recall_at_k
      × HasKeys r.ndcg_at_k
      × HasKeys r.hit_rate_at_k

  abbrev IsCompleteUnless : Option EvaluationError → EvaluationQueryResult F → Type 0
  IsCompleteUnless none r = IsComplete r
  IsCompleteUnless (some e) r = Unit
