-- ===== src/Text/Metadata.antt =====
-- The metadata of a stored product, `dict[str, Any]`: text, number, Boolean and list values under
-- keys that the code writes as literals. `F` is the type of floats; a Python int is one of them.
use product_intelligence.Base.{
  String, Bool, Option, none, some, List, [], ◌∷◌, str_eq, if◌then◌else◌,
}
use product_intelligence.Text.Strings.{Text}

pub data Value (F : Type 0) : Type 0 where
  null : Value F
  bool : Bool → Value F
  number : F → Value F
  text : Text → Value F
  texts : List Text → Value F

abbrev pub Metadata : Type 0 → Type 0
Metadata F = List (String × Value F)

-- `metadata.get(key)`
abbrev pub get : {F : Type 0} → String → Metadata F → Value F
get key [] = null
get key ((k, v) ∷ m) = if str_eq k key then v else get key m

-- `value if isinstance(value, str) else None`
abbrev pub as_text : {F : Type 0} → Value F → Option Text
as_text (text t) = some t
as_text _ = none
