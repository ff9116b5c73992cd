-- ===== src/Pricing/FilterLaws.antt =====
-- ComparableFilter accounts for every comparable, and keeps just the relevant ones.
use mathlib.Core.List.{append-nil, append_assoc}
use product_intelligence.Base.{
  ◌+◌, ◌≡◌, ◌⊎◌, refl, sym, ap, Bool, true, false, not, ◌&&◌, ◌||◌, Option, none, some, List, [],
  ◌∷◌, ◌++◌, arith, length, length-append, filter_by, All, All-map, All-filter_by_self, is_some,
}
use product_intelligence.Float.Interface.{Float}
use product_intelligence.Text.Strings.{Text, Unicode, text_eq_sound}
use product_intelligence.Pricing.Comparable.{ComparableProduct}
use product_intelligence.Pricing.Filter.{
  FilterOutcome, excluded_total, ComparableFilter, normalize_category, option_text_eq,
  wrong_category, too_weak, visit, visit_all, nothing_seen, apply,
}

option_text_eq_sound : (s t : Option Text) → option_text_eq s t ≡ true → s ≡ t
option_text_eq_sound none none h = refl
option_text_eq_sound none (some t) h = cc
option_text_eq_sound (some s) none h = cc
option_text_eq_sound (some s) (some t) h = ap some (text_eq_sound s t h)

module _ {F : Type 0} ⦃f : Float F⦄ ⦃u : Unicode⦄ (filter : ComparableFilter F) where
  visit_all_total :
      (target : Option Text) (cs : List (ComparableProduct F)) (o : FilterOutcome F)
      → let w = visit_all filter target cs o in
        length w.kept + excluded_total w ≡ length o.kept + excluded_total o + length cs
  visit_all_total target [] o = omega arith
  visit_all_total target (c ∷ cs) o =
      ground
        (arith, visit_all_total target cs (visit filter target c o), length-append o.kept (c ∷ []))

  abbrev relevant : Option Text → ComparableProduct F → Bool
  relevant target c = not (wrong_category filter target c || too_weak filter c)

  visit_all_kept :
      (target : Option Text) (cs : List (ComparableProduct F)) (o : FilterOutcome F)
      → (visit_all filter target cs o).kept ≡ o.kept ++ filter_by (relevant target) cs
  visit_all_kept target [] o = sym (append-nil o.kept)
  visit_all_kept target (c ∷ cs) o = ground (
    arith,
    visit_all_kept target cs (visit filter target c o),
    append_assoc o.kept (c ∷ []) (filter_by (relevant target) cs),
  )

  visit_all_by_category :
      (cs : List (ComparableProduct F)) (o : FilterOutcome F) (target : Option Text)
      → (filter.enforce_category && is_some target) ≡ false
      → let w = visit_all filter target cs o in
        (w.excluded_by_category ≡ o.excluded_by_category)
        × (w.applied_category ≡ o.applied_category)
  visit_all_by_category [] o target h = (refl, refl)
  visit_all_by_category (c ∷ cs) o target h =
      ground (arith, visit_all_by_category cs (visit filter target c o) target h)

  -- Every comparable is kept or counted in exactly one of the two exclusions.
  pub apply_total :
      (cs : List (ComparableProduct F)) (category : Option Text)
      → let o = apply filter cs category in length o.kept + excluded_total o ≡ length cs
  unfolding apply
  apply_total cs category =
      let target = normalize_category category in
      omega (arith, visit_all_total target cs (nothing_seen filter target))

  -- With the category rule on and the category of the subject known, whatever is kept has that
  -- category, up to case and surrounding space, and is not below the similarity floor.
  pub apply_kept :
      (cs : List (ComparableProduct F)) (category : Option Text) {target : Text}
      → filter.enforce_category ≡ true
      → normalize_category category ≡ some target
      → All
          (λ c.
            (normalize_category c.category ≡ some target)
            × (f.lt c.similarity filter.similarity_floor ≡ false))
          (apply filter cs category).kept
  unfolding apply
  apply_kept cs category {target} enforced known =
      rw
        (
          visit_all_kept (normalize_category category) cs
              (nothing_seen filter (normalize_category category)),
          known,
        )
        (All-map
          (λ c kept.
            ground (arith, option_text_eq_sound (normalize_category c.category) (some target)))
          (filter_by (relevant (some target)) cs) (All-filter_by_self (relevant (some target)) cs))

  -- With the rule off, or the category of the subject unknown, none is excluded for its category:
  -- a missing label is no refusal to price.
  pub apply_unlabelled :
      (cs : List (ComparableProduct F)) (category : Option Text)
      → (filter.enforce_category ≡ false) ⊎ (normalize_category category ≡ none)
      → let o = apply filter cs category in
        (o.excluded_by_category ≡ 0) × (o.applied_category ≡ none)
  unfolding apply
  apply_unlabelled cs category h =
      let target = normalize_category category in
      let skipped : (filter.enforce_category && is_some target) ≡ false = ground arith in
      ground (arith, skipped, visit_all_by_category cs (nothing_seen filter target) target skipped)
