-- ===== src/Pricing/EstimateLaws.antt =====
-- What an estimate promises: an honest refusal, honest confidence, and no division by zero.
use mathlib.Core.List.Perm
use mathlib.Core.List.{Perm}
use product_intelligence.Base.{
  ℕ, ◌+◌, ◌≤◌, ◌<◌, ◌≡◌, ◌≢◌, ◌⊎◌, refl, List, [], ◌∷◌, arith, length, All, length-filter_by-le,
  Bool-cases, inl, inr,
}
use product_intelligence.Float.Interface.{Float, Numerics, IsOrdered, ◌≼◌}
use product_intelligence.Pricing.Comparable.{ComparableProduct}
use product_intelligence.Pricing.Estimate.{
  PriceEstimator, insert, sorted, trim, unless_trimmed_away, kept_after_trim, within_fence,
  remove_outliers, prices_of,
}

module _ {F : Type 0} ⦃f : Float F⦄ where
  insert-perm : (x : F) (xs : List F) → Perm (insert x xs) (x ∷ xs)
  insert-perm x [] = Perm.rfl
  insert-perm x (y ∷ ys) = elim (Bool-cases (f.lt y x)) [
    | inl e ↦ rw e (Perm.trans (Perm.cons y (insert-perm x ys)) (Perm.swap x y ys))
    | inr e ↦ rw e Perm.rfl
  ]

  sorted-perm : (xs : List F) → Perm (sorted xs) xs
  unfolding sorted
  sorted-perm [] = Perm.rfl
  sorted-perm (x ∷ xs) = Perm.trans (insert-perm x (sorted xs)) (Perm.cons x (sorted-perm xs))

  -- Each value is not above those behind it.
  abbrev pub IsSorted : List F → Type 0
  IsSorted [] = Unit
  IsSorted (x ∷ xs) = All (λ y. x ≼ y) xs × IsSorted xs

  module _ (laws : IsOrdered F) where
    All-insert :
        (z x : F) (xs : List F) → z ≼ x → All (λ y. z ≼ y) xs → All (λ y. z ≼ y) (insert x xs)
    All-insert z x [] h hs = (h, tt)
    All-insert z x (y ∷ ys) h (k, ks) = ground (arith, All-insert z x ys h ks)

    All-above : (x y : F) (ys : List F) → x ≼ y → All (λ z. y ≼ z) ys → All (λ z. x ≼ z) ys
    All-above x y [] h hs = tt
    All-above x y (z ∷ zs) h (k, ks) = (laws.le_trans x y z h k, All-above x y zs h ks)

    insert-IsSorted :
        (x : F) (xs : List F) → x ≼ x → All (λ y. y ≼ y) xs → IsSorted xs → IsSorted (insert x xs)
    insert-IsSorted x [] hx h s = ground arith
    insert-IsSorted x (y ∷ ys) hx (hy, h) (below, s) = elim (Bool-cases (f.lt y x)) [
      | inl e ↦ rw e (All-insert y x ys (laws.le_of_lt y x e) below, insert-IsSorted x ys hx h s)
      | inr e ↦
          let first : x ≼ y = laws.le_of_not_lt y x hy hx e in
          rw e ((first, All-above x y ys first below), (below, s))
    ]

    All-num-insert :
        (x : F) (xs : List F) → x ≼ x → All (λ y. y ≼ y) xs → All (λ y. y ≼ y) (insert x xs)
    All-num-insert x [] hx h = (hx, tt)
    All-num-insert x (y ∷ ys) hx (hy, h) = ground (arith, All-num-insert x ys hx h)

    sorted_lem :
        (xs : List F) → All (λ y. y ≼ y) xs → All (λ y. y ≼ y) (sorted xs) × IsSorted (sorted xs)
    unfolding sorted
    sorted_lem [] h = (tt, tt)
    sorted_lem (x ∷ xs) (hx, h) =
        let (nums, s) = sorted_lem xs h in
        (All-num-insert x (sorted xs) hx nums, insert-IsSorted x (sorted xs) hx nums s)

    -- Of prices that are numbers, `sorted` is a rearrangement in which none stands before a smaller.
    pub sorted-IsSorted :
        (xs : List F) → All (λ y. y ≼ y) xs → IsSorted (sorted xs) × Perm (sorted xs) xs
    sorted-IsSorted xs h = ((sorted_lem xs h).1, sorted-perm xs)

  -- Whatever the trim ratio, the slice that `_trimmed_mean` averages is not empty.
  pub kept_after_trim-ne-nil :
      (cut : ℕ) (ordered : List F) → ordered ≢ [] → 0 < length (kept_after_trim cut ordered)
  kept_after_trim-ne-nil cut ordered h = go (trim cut ordered)
    where
      nonempty : (xs : List F) → xs ≢ [] → 0 < length xs
      nonempty [] h = absurd (h refl)
      nonempty (x ∷ xs) h = omega arith

      go : (xs : List F) → 0 < length (unless_trimmed_away xs ordered)
      go [] = nonempty ordered h
      go (x ∷ xs) = omega arith

  module _ ⦃n : Numerics F⦄ (estimator : PriceEstimator F) where
    -- The outlier filter accounts for every comparable, and leaves fewer than four alone.
    pub remove_outliers_total :
        (cs : List (ComparableProduct F))
        → let (kept, removed) = remove_outliers estimator cs in
          (length kept + removed ≡ length cs) × ((4 ≤ length cs) ⊎ (kept ≡ cs))
    unfolding remove_outliers
    remove_outliers_total cs =
        ground (arith, length-filter_by-le (within_fence estimator (sorted (prices_of cs))) cs)
