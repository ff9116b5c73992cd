-- ===== src/Text/Facet.antt =====
-- backend/app/utils/facets.py: the one canonical form of a facet value.
use product_intelligence.Base.{
  ℕ, Bool, true, false, ◌&&◌, ◌||◌, Option, none, some, [], ◌∷◌, leb, ◌==◌, if◌then◌else◌,
}
use product_intelligence.Text.Strings.{Text, Unicode, strip, strip_by, is_empty}

abbrev pub hyphen : ℕ
hyphen = b'-'

abbrev pub is_hyphen : ℕ → Bool
is_hyphen c = c == hyphen

-- `[a-z0-9]`
abbrev pub is_alnum : ℕ → Bool
is_alnum c = (leb b'a' c && leb c b'z') || (leb b'0' c && leb c b'9')

-- `re.sub(r"[^a-z0-9]+", "-", text)`, with whether the scan is inside a run of separators.
unfoldable pub collapse : (in_run : Bool) → Text → Text
collapse in_run [] = []
collapse in_run (c ∷ cs) =
    if is_alnum c
    then c ∷ collapse false cs
    else (if in_run then collapse true cs else hyphen ∷ collapse true cs)

abbrev pub unless_empty : Text → Option Text
unless_empty t = if is_empty t then none else some t

unfoldable pub normalize_facet : ⦃u : Unicode⦄ → Option Text → Option Text
unfolding collapse
normalize_facet ⦃u⦄ none = none
normalize_facet ⦃u⦄ (some value) =
    unless_empty (strip_by is_hyphen (collapse false (u.casefold (strip value))))
