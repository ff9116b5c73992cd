-- ===== src/Float/Ranking.antt =====
-- `sorted(xs, key=key, reverse=True)`: by descending key, ties in their original order.
use mathlib.Core.List.Perm
use mathlib.Core.List.{Perm}
use product_intelligence.Base.{
  any_by, ◌≡◌, Bool, true, List, [], ◌∷◌, arith, All, if◌then◌else◌, Bool-cases, inl, inr, length,
  suc, ap, ◌∙◌, refl,
}
use product_intelligence.Float.Interface.{Float, IsOrdered, ◌≼◌}

module _ {F A : Type 0} ⦃f : Float F⦄ (key : A → F) where
  abbrev pub place : A → List A → List A
  place x [] = x ∷ []
  place x (y ∷ ys) = if f.lt (key x) (key y) then y ∷ place x ys else x ∷ y ∷ ys

  unfoldable pub ranked : List A → List A
  ranked [] = []
  ranked (x ∷ xs) = place x (ranked xs)

  place-perm : (x : A) (xs : List A) → Perm (place x xs) (x ∷ xs)
  place-perm x [] = Perm.rfl
  place-perm x (y ∷ ys) = elim (Bool-cases (f.lt (key x) (key y))) [
    | inl e ↦ rw e (Perm.trans (Perm.cons y (place-perm x ys)) (Perm.swap x y ys))
    | inr e ↦ rw e Perm.rfl
  ]

  pub ranked-perm : (xs : List A) → Perm (ranked xs) xs
  unfolding ranked
  ranked-perm [] = Perm.rfl
  ranked-perm (x ∷ xs) = Perm.trans (place-perm x (ranked xs)) (Perm.cons x (ranked-perm xs))

  length-place : (x : A) (xs : List A) → length (place x xs) ≡ suc (length xs)
  length-place x [] = refl
  length-place x (y ∷ ys) = ground (arith, length-place x ys)

  pub length-ranked : (xs : List A) → length (ranked xs) ≡ length xs
  unfolding ranked
  length-ranked [] = refl
  length-ranked (x ∷ xs) = length-place x (ranked xs) ∙ ap suc (length-ranked xs)

  pub All-place {κ} : (P : A → Type κ) (x : A) (xs : List A) → P x → All P xs → All P (place x xs)
  All-place P x [] h hs = (h, tt)
  All-place P x (y ∷ ys) h (k, ks) = ground (arith, All-place P x ys h ks)

  pub All-ranked {κ} : (P : A → Type κ) (xs : List A) → All P xs → All P (ranked xs)
  unfolding ranked
  All-ranked P [] h = tt
  All-ranked P (x ∷ xs) (h, hs) = All-place P x (ranked xs) h (All-ranked P xs hs)

  All-unplace {κ} : (P : A → Type κ) (x : A) (xs : List A) → All P (place x xs) → P x × All P xs
  All-unplace P x [] (h, _) = (h, tt)
  All-unplace P x (y ∷ ys) h = ground (arith, h, All-unplace P x ys)

  -- What holds of all of a ranking holds of all that was ranked.
  pub All-unranked {κ} : (P : A → Type κ) (xs : List A) → All P (ranked xs) → All P xs
  unfolding ranked
  All-unranked P [] h = tt
  All-unranked P (x ∷ xs) h =
      let (first, rest) = All-unplace P x (ranked xs) h in (first, All-unranked P xs rest)

  any_by-place :
      (p : A → Bool) (x : A) (xs : List A)
      → any_by p (place x xs) ≡ (if p x then true else any_by p xs)
  any_by-place p x [] = refl
  any_by-place p x (y ∷ ys) = ground (arith, any_by-place p x ys)

  pub any_by-ranked : (p : A → Bool) (xs : List A) → any_by p (ranked xs) ≡ any_by p xs
  unfolding ranked
  any_by-ranked p [] = refl
  any_by-ranked p (x ∷ xs) = any_by-place p x (ranked xs) ∙ ground (arith, any_by-ranked p xs)

  -- The keys do not rise along the list.
  abbrev pub IsRanked : List A → Type 0
  IsRanked [] = Unit
  IsRanked (x ∷ xs) = All (λ y. key y ≼ key x) xs × IsRanked xs

  module _ (laws : IsOrdered F) where
    All-below :
        (x y : A) (ys : List A)
        → key y ≼ key x
        → All (λ z. key z ≼ key y) ys
        → All (λ z. key z ≼ key x) ys
    All-below x y [] h hs = tt
    All-below x y (z ∷ zs) h (k, ks) =
        (laws.le_trans (key z) (key y) (key x) k h, All-below x y zs h ks)

    place-IsRanked :
        (x : A) (xs : List A)
        → key x ≼ key x
        → All (λ y. key y ≼ key y) xs
        → IsRanked xs
        → IsRanked (place x xs)
    place-IsRanked x [] hx h s = ground arith
    place-IsRanked x (y ∷ ys) hx (hy, h) (below, s) = elim (Bool-cases (f.lt (key x) (key y))) [
      | inl e ↦ rw e (
        All-place (λ z. key z ≼ key y) x ys (laws.le_of_lt (key x) (key y) e) below,
        place-IsRanked x ys hx h s,
      )
      | inr e ↦
          let first : key y ≼ key x = laws.le_of_not_lt (key x) (key y) hx hy e in
          rw e ((first, All-below x y ys first below), (below, s))
    ]

    -- If no key is NaN, the ranking descends.
    pub ranked-IsRanked : (xs : List A) → All (λ y. key y ≼ key y) xs → IsRanked (ranked xs)
    unfolding ranked
    ranked-IsRanked [] h = tt
    ranked-IsRanked (x ∷ xs) (hx, h) =
        place-IsRanked x (ranked xs) hx (All-ranked (λ y. key y ≼ key y) xs h)
          (ranked-IsRanked xs h)
