-- ===== src/Recommendation/DiversifyLaws.antt =====
-- The loop of `_diversify` against a description: the candidates by columns of the buckets.
use mathlib.Core.List.{append-nil, append_assoc}
use product_intelligence.Base.{
  ℕ, zero, suc, ◌+◌, ◌≤◌, ◌<◌, ◌≡◌, refl, sym, ap, ◌∙◌, Bool, true, false, ◌||◌, Option, none, some,
  List, [], ◌∷◌, ◌++◌, length, length-append, length-take, take, get_elem?, ltb, ◌==◌, arith, inl,
  inr, Option-cases, Bool-cases,
}
use product_intelligence.Text.Strings.{Text}
use product_intelligence.Recommendation.Diversify.{Buckets, group_by, visit, rounds, diversify}

module _ {A : Type 0} where
  abbrev pub option_list : Option A → List A
  option_list none = []
  option_list (some x) = x ∷ []

  -- The candidates at one index of the buckets, and those at `n` indices from `i` on.
  abbrev pub column : ℕ → Buckets A → List A
  column i [] = []
  column i ((k, bucket) ∷ buckets) = option_list (get_elem? bucket i) ++ column i buckets

  abbrev pub columns : (n i : ℕ) → Buckets A → List A
  columns zero i buckets = []
  columns (suc n) i buckets = column i buckets ++ columns n (i + 1) buckets

  take-append_full : (k : ℕ) (xs ys : List A) → length xs ≡ k → take k (xs ++ ys) ≡ xs
  take-append_full zero [] ys h = refl
  take-append_full zero (x ∷ xs) ys h = absurd (omega (arith, h))
  take-append_full (suc k) [] ys h = absurd (omega (arith, h))
  take-append_full (suc k) (x ∷ xs) ys h =
      ap (λ (l : List A). x ∷ l) (take-append_full k xs ys (omega (arith, h)))

  pub take_all : (k : ℕ) (xs : List A) → length xs ≤ k → take k xs ≡ xs
  take_all zero [] h = refl
  take_all zero (x ∷ xs) h = absurd (omega (arith, h))
  take_all (suc k) [] h = refl
  take_all (suc k) (x ∷ xs) h = ap (λ (l : List A). x ∷ l) (take_all k xs (omega (arith, h)))

  abbrev is_cons : List A → Bool
  is_cons [] = false
  is_cons (x ∷ xs) = true

  take-take-append : (k : ℕ) (xs ys : List A) → take k (take k xs ++ ys) ≡ take k (xs ++ ys)
  take-take-append zero xs ys = refl
  take-take-append (suc k) [] ys = refl
  take-take-append (suc k) (x ∷ xs) ys = ap (λ (l : List A). x ∷ l) (take-take-append k xs ys)

  visit_lem :
      (k i : ℕ) (buckets : Buckets A) (d : List A) (added : Bool)
      → length d < k
      → ((visit k i buckets d added).0 ≡ take k (d ++ column i buckets))
        × ((visit k i buckets d added).1 ≡ added || is_cons (column i buckets))
  unfolding visit
  visit_lem k i [] d added h = (
    sym (take_all k (d ++ []) (omega (arith, h, length-append {0} d [])) ∙ append-nil d),
    ground arith,
  )
  visit_lem k i ((key, bucket) ∷ buckets) d added h = elim (Option-cases (get_elem? bucket i)) [
    | inl e ↦ rw (e, visit) (visit_lem k i buckets d added h)
    | inr (x, e) ↦
        let longer : List A = d ++ (x ∷ []) in
        let assoc : longer ++ column i buckets ≡ d ++ (x ∷ column i buckets) =
          append_assoc d (x ∷ []) (column i buckets) in
        elim (Bool-cases (length longer == k)) [
          | inl full ↦
              rw (e, visit, full)
                (
                  sym (
                      ap (take k) (sym assoc)
                      ∙ take-append_full k longer (column i buckets) (ground (arith, full))),
                  ground arith,
                )
          | inr room ↦
              let (same, more) =
                visit_lem k i buckets longer true
                  (ground (arith, h, room, length-append {0} d (x ∷ []))) in
              rw (e, visit, room) (same ∙ ap (take k) assoc, more ∙ ground arith)
        ]
  ]

  column_past :
      (i : ℕ) (buckets : Buckets A)
      → is_cons (column i buckets) ≡ false
      → is_cons (column (i + 1) buckets) ≡ false
  column_past i [] h = refl
  column_past i ((k, bucket) ∷ buckets) h = elim (Option-cases (get_elem? bucket i)) [
    | inl e ↦
        let past : get_elem? bucket (i + 1) ≡ none = get_elem?_past bucket i e in
        rw past (column_past i buckets (rw e at h))
    | inr (x, e) ↦ cc (rw e at h)
  ]
    where
      get_elem?_past : (l : List A) (i : ℕ) → get_elem? l i ≡ none → get_elem? l (i + 1) ≡ none
      get_elem?_past [] i h = ground arith
      get_elem?_past (x ∷ l) zero h = cc
      get_elem?_past (x ∷ l) (suc i) h = ground (arith, get_elem?_past l i h)

  columns_past :
      (n i : ℕ) (buckets : Buckets A)
      → is_cons (column i buckets) ≡ false
      → columns n i buckets ≡ []
  columns_past zero i buckets h = refl
  columns_past (suc n) i buckets h =
      nil_first (column i buckets) h (columns_past n (i + 1) buckets (column_past i buckets h))
    where
      nil_first : (xs : List A) {ys : List A} → is_cons xs ≡ false → ys ≡ [] → xs ++ ys ≡ []
      nil_first [] h e = e
      nil_first (x ∷ xs) h e = cc h

  rounds_lem :
      (fuel k i : ℕ) (buckets : Buckets A) (d : List A)
      → length d ≤ k
      → rounds fuel k i buckets d ≡ take k (d ++ columns fuel i buckets)
  unfolding rounds
  rounds_lem zero k i buckets d h =
      sym (take_all k (d ++ []) (omega (arith, h, length-append {0} d [])) ∙ append-nil d)
  rounds_lem (suc fuel) k i buckets d h = elim (Bool-cases (ltb (length d) k)) [
    | inr full ↦
        rw full
          (sym (take-append_full k d (columns (suc fuel) i buckets) (ground (arith, h, full))))
    | inl room ↦
        let (same, more) = visit_lem k i buckets d false (ground (arith, room)) in
        let c : List A = column i buckets in
        let cs : List A = columns fuel (i + 1) buckets in
        elim (Bool-cases (is_cons c)) [
          | inl added ↦
              rw (room, same, more, added)
                (rounds_lem fuel k (i + 1) buckets (take k (d ++ c))
                    (omega (arith, length-take {0} k (d ++ c)))
                  ∙ take-take-append k (d ++ c) cs
                  ∙ ap (take k) (append_assoc d c cs))
          | inr none_added ↦
              rw (room, same, more, none_added)
                (ap (λ (l : List A). take k (d ++ l))
                  (nil_last c
                    (columns_past fuel (i + 1) buckets (column_past i buckets none_added))))
        ]
  ]
    where
      nil_last : (xs : List A) {ys : List A} → ys ≡ [] → xs ≡ xs ++ ys
      nil_last xs e = sym (ap (λ (l : List A). xs ++ l) e ∙ append-nil xs)

  -- The candidates of `_diversify` are those of the buckets, read by columns: the first of every
  -- brand, then the second of every brand, and so on, cut off at `top_k`.
  pub diversify_lem :
      (key_of : A → Text) (xs : List A) (k : ℕ)
      → diversify key_of xs k ≡ take k (columns (length xs + 1) 0 (group_by key_of xs []))
  unfolding diversify
  diversify_lem key_of xs k =
      rounds_lem (length xs + 1) k 0 (group_by key_of xs []) [] (omega arith)
