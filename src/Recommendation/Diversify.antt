-- ===== src/Recommendation/Diversify.antt =====
-- `_diversify` of backend/app/services/recommendation/recommendation_engine_service.py: buckets by
-- brand in the order of their first candidate, and rounds that take one of each.
use product_intelligence.Base.{
  ℕ, zero, suc, ◌+◌, Bool, true, false, none, some, List, [], ◌∷◌, ◌++◌, length, get_elem?, ltb,
  ◌==◌, if◌then◌else◌,
}
use product_intelligence.Text.Strings.{Text, text_eq}

-- `by_brand` and `brand_order` in one.
abbrev pub Buckets : Type 0 → Type 0
Buckets A = List (Text × List A)

module _ {A : Type 0} where
  abbrev pub append_to : Text → A → Buckets A → Buckets A
  append_to key x [] = (key, x ∷ []) ∷ []
  append_to key x ((k, bucket) ∷ buckets) =
      if text_eq k key
      then (k, bucket ++ (x ∷ [])) ∷ buckets
      else (k, bucket) ∷ append_to key x buckets

  abbrev pub group_by : (A → Text) → List A → Buckets A → Buckets A
  group_by key_of [] buckets = buckets
  group_by key_of (x ∷ xs) buckets = group_by key_of xs (append_to (key_of x) x buckets)

  -- One round: the list so far, and whether anything was added. A full list breaks the loop.
  unfoldable pub visit :
      (top_k round_index : ℕ) → Buckets A → List A → (added_this_round : Bool) → List A × Bool
  visit top_k i [] diversified added = (diversified, added)
  visit top_k i ((k, bucket) ∷ buckets) diversified added = elim (get_elem? bucket i) [
    | none ↦ visit top_k i buckets diversified added
    | some x ↦
        let longer : List A = diversified ++ (x ∷ []) in
        let rest = visit top_k i buckets longer true in
        if length longer == top_k then (longer, true) else rest
  ]

  -- The `while` loop; `fuel` is one more than the number of rounds.
  unfoldable pub rounds : (fuel top_k round_index : ℕ) → Buckets A → List A → List A
  unfolding visit
  rounds zero top_k i buckets diversified = diversified
  rounds (suc fuel) top_k i buckets diversified =
      let (longer, added) = visit top_k i buckets diversified false in
      let rest = rounds fuel top_k (i + 1) buckets longer in
      if ltb (length diversified) top_k then (if added then rest else longer) else diversified

  unfoldable pub diversify : (A → Text) → List A → (top_k : ℕ) → List A
  unfolding rounds
  diversify key_of xs top_k = rounds (length xs + 1) top_k 0 (group_by key_of xs []) []
