-- ===== src/Text/Represent.antt =====
-- backend/app/utils/text.py: one natural-language text from the fields of a product.
use product_intelligence.Base.{Option, none, some, [], ◌∷◌, ◌++◌, List, if◌then◌else◌}
use product_intelligence.Text.Strings.{Text, Unicode, strip, codes, is_empty}
use product_intelligence.Text.Metadata.{Metadata, get, as_text, Value, text}

-- `sep.join(parts)`
abbrev pub join : Text → List Text → Text
join sep [] = []
join sep (p ∷ []) = p
join sep (p ∷ q ∷ rest) = p ++ (sep ++ join sep (q ∷ rest))

module _ ⦃u : Unicode⦄ where
  -- `if part and part.strip(): parts.append(part.strip())`
  abbrev pub part : Option Text → List Text
  part none = []
  part (some t) = if is_empty (strip t) then [] else strip t ∷ []

  unfoldable pub build_text_representation :
      (name : Text) (brand category description : Option Text) → Text
  build_text_representation name brand category description =
      join (codes ". ") (strip name ∷ (part brand ++ (part category ++ part description)))

  abbrev pub text_or_empty : {F : Type 0} → Value F → Text
  text_or_empty (text t) = t
  text_or_empty _ = []

  unfoldable pub build_text_representation_from_metadata : {F : Type 0} → Metadata F → Text
  unfolding build_text_representation
  build_text_representation_from_metadata m =
      build_text_representation (text_or_empty (get "name" m)) (as_text (get "brand" m))
        (as_text (get "category" m)) (as_text (get "description" m))
