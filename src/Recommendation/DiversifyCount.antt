-- ===== src/Recommendation/DiversifyCount.antt =====
-- `_diversify` loses and repeats no candidate.
use product_intelligence.Base.{
  ℕ, zero, suc, ◌+◌, ◌≤◌, ◌≡◌, refl, sym, ap, ◌∙◌, Bool, true, List, [], ◌∷◌, ◌++◌, drop, length,
  length-take, take, get_elem?, min, if◌then◌else◌, arith,
}
use product_intelligence.Text.Strings.{Text}
use product_intelligence.Recommendation.Diversify.{Buckets, append_to, group_by, diversify}
use product_intelligence.Recommendation.DiversifyLaws.{
  option_list, column, columns, diversify_lem, take_all,
}

module _ {A : Type 0} where
  abbrev pub count_by : (A → Bool) → List A → ℕ
  count_by p [] = 0
  count_by p (x ∷ xs) = if p x then suc (count_by p xs) else count_by p xs

  -- How often `p` holds at the `n` indices from `i` on, and anywhere.
  abbrev spanned : (A → Bool) → (n i : ℕ) → Buckets A → ℕ
  spanned p n i [] = 0
  spanned p n i ((k, bucket) ∷ buckets) =
      count_by p (take n (drop i bucket)) + spanned p n i buckets

  abbrev total : (A → Bool) → Buckets A → ℕ
  total p [] = 0
  total p ((k, bucket) ∷ buckets) = count_by p bucket + total p buckets

  count_by-append :
      (p : A → Bool) (xs ys : List A) → count_by p (xs ++ ys) ≡ count_by p xs + count_by p ys
  count_by-append p [] ys = omega arith
  count_by-append p (x ∷ xs) ys = ground (arith, count_by-append p xs ys)

  count_by-take-le : (p : A → Bool) (k : ℕ) (xs : List A) → count_by p (take k xs) ≤ count_by p xs
  count_by-take-le p zero xs = omega arith
  count_by-take-le p (suc k) [] = omega arith
  count_by-take-le p (suc k) (x ∷ xs) = ground (arith, count_by-take-le p k xs)

  count_by-true : (xs : List A) → count_by (λ x. true) xs ≡ length xs
  count_by-true [] = refl
  count_by-true (x ∷ xs) = ap suc (count_by-true xs)

  slice_step :
      (p : A → Bool) (n i : ℕ) (l : List A)
      → count_by p (option_list (get_elem? l i)) + count_by p (take n (drop (suc i) l))
        ≡ count_by p (take (suc n) (drop i l))
  slice_step p zero zero [] = refl
  slice_step p zero (suc i) [] = refl
  slice_step p (suc n) zero [] = refl
  slice_step p (suc n) (suc i) [] = refl
  slice_step p n zero (x ∷ l) = ground arith
  slice_step p n (suc i) (x ∷ l) = slice_step p n i l

  column_step :
      (p : A → Bool) (n i : ℕ) (buckets : Buckets A)
      → count_by p (column i buckets) + spanned p n (suc i) buckets ≡ spanned p (suc n) i buckets
  column_step p n i [] = omega arith
  column_step p n i ((k, bucket) ∷ buckets) = omega (
    arith,
    count_by-append p (option_list (get_elem? bucket i)) (column i buckets),
    column_step p n i buckets,
    slice_step p n i bucket,
  )

  count_by-columns :
      (p : A → Bool) (n i : ℕ) (buckets : Buckets A)
      → count_by p (columns n i buckets) ≡ spanned p n i buckets
  count_by-columns p zero i [] = refl
  count_by-columns p zero i ((k, bucket) ∷ buckets) =
      count_by-columns p zero i buckets ∙ omega arith
  count_by-columns p (suc n) i buckets =
      let next : i + 1 ≡ suc i = omega arith in
      count_by-append p (column i buckets) (columns n (i + 1) buckets)
      ∙ omega (
        arith,
        count_by-columns p n (i + 1) buckets ∙ ap (λ (j : ℕ). spanned p n j buckets) next,
        column_step p n i buckets,
      )

  spanned_all :
      (p : A → Bool) (n : ℕ) (buckets : Buckets A)
      → total (λ x. true) buckets ≤ n
      → spanned p n 0 buckets ≡ total p buckets
  spanned_all p n [] h = refl
  spanned_all p n ((k, bucket) ∷ buckets) h = omega (
    arith,
    spanned_all p n buckets (omega (arith, h)),
    ap (count_by p) (take_all n bucket (omega (arith, h, count_by-true bucket))),
  )

  total-append_to :
      (p : A → Bool) (key : Text) (x : A) (buckets : Buckets A)
      → total p (append_to key x buckets) ≡ total p buckets + count_by p (x ∷ [])
  total-append_to p key x [] = ground arith
  total-append_to p key x ((k, bucket) ∷ buckets) =
      ground (arith, total-append_to p key x buckets, count_by-append p bucket (x ∷ []))

  total-group_by :
      (p : A → Bool) (key_of : A → Text) (xs : List A) (buckets : Buckets A)
      → total p (group_by key_of xs buckets) ≡ total p buckets + count_by p xs
  total-group_by p key_of [] buckets = omega arith
  total-group_by p key_of (x ∷ xs) buckets = ground (
    arith,
    total-group_by p key_of xs (append_to (key_of x) x buckets),
    total-append_to p (key_of x) x buckets,
  )

  count_by-all :
      (p : A → Bool) (key_of : A → Text) (xs : List A)
      → count_by p (columns (length xs + 1) 0 (group_by key_of xs [])) ≡ count_by p xs
  count_by-all p key_of xs =
      count_by-columns p (length xs + 1) 0 (group_by key_of xs [])
      ∙ spanned_all p (length xs + 1) (group_by key_of xs [])
          (omega (arith, total-group_by (λ x. true) key_of xs [], count_by-true xs))
      ∙ omega (arith, total-group_by p key_of xs [])

  -- `_diversify` ends with as many candidates as asked for and available; none is taken more often
  -- than it was given, and with room for all, all are kept.
  pub diversify_counts :
      (key_of : A → Text) (xs : List A) (k : ℕ) (p : A → Bool)
      → let kept = diversify key_of xs k in
        (length kept ≡ min k (length xs))
        × (count_by p kept ≤ count_by p xs)
        × (length xs ≤ k → count_by p kept ≡ count_by p xs)
  diversify_counts key_of xs k p =
      let all : List A = columns (length xs + 1) 0 (group_by key_of xs []) in
      let all_counted : length all ≡ length xs =
        sym (count_by-true all) ∙ count_by-all (λ x. true) key_of xs ∙ count_by-true xs in
      rw (diversify_lem key_of xs k) (
        length-take k all ∙ ap (min k) all_counted,
        omega (arith, count_by-take-le p k all, count_by-all p key_of xs),
        λ room.
            ap (count_by p) (take_all k all (omega (arith, room, all_counted)))
            ∙ count_by-all p key_of xs,
      )
