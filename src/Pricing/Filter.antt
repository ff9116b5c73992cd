-- ===== src/Pricing/Filter.antt =====
-- backend/app/services/pricing/comparable_filter.py.
use product_intelligence.Base.{
  ℕ, ◌+◌, Bool, true, false, not, ◌&&◌, Option, none, some, List, [], ◌∷◌, ◌++◌, if◌then◌else◌,
  is_some,
}
use product_intelligence.Float.Interface.{Float}
use product_intelligence.Text.Strings.{Text, Unicode, strip, text_eq, is_empty}
use product_intelligence.Pricing.Comparable.{ComparableProduct}

pub record FilterOutcome (F : Type 0) : Type 0 where
  pub kept : List (ComparableProduct F)
  pub excluded_by_category : ℕ
  pub excluded_by_similarity : ℕ
  pub applied_similarity_floor : F
  pub applied_category : Option Text

abbrev pub excluded_total : {F : Type 0} → FilterOutcome F → ℕ
excluded_total o = o.excluded_by_category + o.excluded_by_similarity

pub record ComparableFilter (F : Type 0) : Type 0 where
  pub similarity_floor : F
  pub enforce_category : Bool

abbrev pub option_text_eq : Option Text → Option Text → Bool
option_text_eq none none = true
option_text_eq (some s) (some t) = text_eq s t
option_text_eq _ _ = false

-- `_normalize`
unfoldable pub normalize_category : ⦃u : Unicode⦄ → Option Text → Option Text
normalize_category ⦃u⦄ none = none
normalize_category ⦃u⦄ (some category) =
    let cleaned = u.casefold (strip category) in if is_empty cleaned then none else some cleaned

module _ {F : Type 0} ⦃f : Float F⦄ ⦃u : Unicode⦄ (filter : ComparableFilter F) where
  -- The two tests of the loop: `continue` for the wrong category, `continue` below the floor.
  abbrev pub wrong_category : Option Text → ComparableProduct F → Bool
  wrong_category target c =
      (filter.enforce_category && is_some target)
      && not (option_text_eq (normalize_category c.category) target)

  abbrev pub too_weak : ComparableProduct F → Bool
  too_weak c = f.lt c.similarity filter.similarity_floor

  abbrev pub visit : Option Text → ComparableProduct F → FilterOutcome F → FilterOutcome F
  visit target c o =
      if wrong_category target c
      then record o { excluded_by_category = o.excluded_by_category + 1 }
      else (if too_weak c
          then record o { excluded_by_similarity = o.excluded_by_similarity + 1 }
          else record o { kept = o.kept ++ (c ∷ []) })

  abbrev pub visit_all :
      Option Text → List (ComparableProduct F) → FilterOutcome F → FilterOutcome F
  visit_all target [] o = o
  visit_all target (c ∷ cs) o = visit_all target cs (visit target c o)

  abbrev pub nothing_seen : Option Text → FilterOutcome F
  nothing_seen target = record {
    kept = [];
    excluded_by_category = 0;
    excluded_by_similarity = 0;
    applied_similarity_floor = filter.similarity_floor;
    applied_category = if filter.enforce_category && is_some target then target else none;
  }

  unfoldable pub apply : List (ComparableProduct F) → (category : Option Text) → FilterOutcome F
  apply comparables category =
      let target = normalize_category category in visit_all target comparables (nothing_seen target)
