-- ===== src/Text/FacetLaws.antt =====
-- The facet key is well formed, and canonical: normalising it again changes nothing.
use mathlib.Core.Option.{some-injective}
use mathlib.Core.Path.{subst}
use product_intelligence.Base.{
  ℕ, ◌≡◌, ◌||◌, ap, ◌∙◌, map, All-map, ◌⊎◌, inl, inr, refl, Bool, true, false, not, Option, none,
  some, [], ◌∷◌, arith, All,
}
use product_intelligence.Text.Strings.{
  Text, Unicode, ascii, ascii_lower, strip, strip_by, lstrip_by, rstrip_by, strip_by_none,
}
use product_intelligence.Text.Facet.{
  hyphen, is_hyphen, is_alnum, collapse, unless_empty, normalize_facet,
}

-- Letters and digits, and single hyphens between them; `after` tells whether a letter or digit
-- stands just before.
abbrev pub IsSlug : (after : Bool) → Text → Type 0
IsSlug after [] = after ≡ true
IsSlug after (c ∷ cs) =
    (is_alnum c ≡ true) × IsSlug true cs ⊎ (c ≡ hyphen) × (after ≡ true) × IsSlug false cs

-- The same, but for a hyphen at the end.
abbrev Runs : (after : Bool) → Text → Type 0
Runs after [] = Unit
Runs after (c ∷ cs) =
    (is_alnum c ≡ true) × Runs true cs ⊎ (c ≡ hyphen) × (after ≡ true) × Runs false cs

Runs-collapse : (in_run : Bool) (t : Text) → Runs (not in_run) (collapse in_run t)
unfolding collapse
Runs-collapse in_run [] = tt
Runs-collapse true (c ∷ cs) = ground (arith, Runs-collapse false cs, Runs-collapse true cs)
Runs-collapse false (c ∷ cs) = ground (arith, Runs-collapse false cs, Runs-collapse true cs)

Runs-lstrip : (after : Bool) (t : Text) → Runs after t → Runs false (lstrip_by is_hyphen t)
Runs-lstrip after [] h = tt
Runs-lstrip after (c ∷ cs) h = elim h [
  | inl (alnum, r) ↦ ground arith
  | inr (e, _, r) ↦ ground (arith, Runs-lstrip false cs r)
]

IsSlug-rstrip :
    (after : Bool) (t : Text)
    → Runs after t
    → (rstrip_by is_hyphen t ≡ []) ⊎ IsSlug after (rstrip_by is_hyphen t)
IsSlug-rstrip after [] h = inl refl
IsSlug-rstrip after (c ∷ cs) (inl (alnum, r)) =
    inr (elim (IsSlug-rstrip true cs r) [ inl e ↦ rw e (ground arith) | inr slug ↦ ground arith ])
IsSlug-rstrip after (c ∷ cs) (inr (e, a, r)) = elim (IsSlug-rstrip false cs r) [
  | inl none_left ↦ inl (ground arith)
  | inr slug ↦ inr (ground arith)
]

unless_empty-IsSlug :
    (t : Text) {key : Text}
    → (t ≡ []) ⊎ IsSlug false t
    → unless_empty t ≡ some key
    → IsSlug false key
unless_empty-IsSlug [] h e = cc
unless_empty-IsSlug (c ∷ cs) (inl empty) e = cc empty
unless_empty-IsSlug (c ∷ cs) (inr slug) e = subst (IsSlug false) (some-injective _ _ e) slug

-- A facet that filters anything is a slug: letters, digits and single inner hyphens, never empty.
pub normalize_facet-IsSlug :
    ⦃u : Unicode⦄ (value : Option Text) {key : Text}
    → normalize_facet value ≡ some key
    → IsSlug false key
unfolding normalize_facet
normalize_facet-IsSlug ⦃u⦄ none h = cc
normalize_facet-IsSlug ⦃u⦄ (some value) h =
    let runs : Text = collapse false (u.casefold (strip value)) in
    unless_empty-IsSlug (strip_by is_hyphen runs)
      (IsSlug-rstrip false (lstrip_by is_hyphen runs)
        (Runs-lstrip true runs (Runs-collapse false (u.casefold (strip value)))))
      h

IsSlug-collapse : (in_run : Bool) (t : Text) → IsSlug (not in_run) t → collapse in_run t ≡ t
unfolding collapse
IsSlug-collapse in_run [] h = refl
IsSlug-collapse in_run (c ∷ cs) h =
    ground (arith, IsSlug-collapse false cs, IsSlug-collapse true cs)

IsSlug-weaken : (t : Text) → IsSlug false t → IsSlug true t
IsSlug-weaken [] h = cc
IsSlug-weaken (c ∷ cs) h = ground arith

IsSlug-rstrip_same : (after : Bool) (t : Text) → IsSlug after t → rstrip_by is_hyphen t ≡ t
IsSlug-rstrip_same after [] h = refl
IsSlug-rstrip_same after (c ∷ []) h = ground arith
IsSlug-rstrip_same after (c ∷ d ∷ cs) (inl (alnum, r)) =
    ground (arith, IsSlug-rstrip_same true (d ∷ cs) r)
IsSlug-rstrip_same after (c ∷ d ∷ cs) (inr (e, a, r)) =
    ground (arith, IsSlug-rstrip_same false (d ∷ cs) r)

IsSlug-strip_same : (t : Text) → IsSlug false t → strip_by is_hyphen t ≡ t
IsSlug-strip_same [] h = refl
IsSlug-strip_same (c ∷ cs) h = ground (arith, IsSlug-rstrip_same false (c ∷ cs) h)

abbrev pub IsSlugChar : ℕ → Type 0
IsSlugChar c = (is_alnum c || is_hyphen c) ≡ true

-- What the code relies on in Unicode's tables: small letters, digits and the hyphen are no white
-- space, and are their own casefolding.
pub record IsUnicode (u : Unicode) : Type 0 where
  pub slug_not_space : (c : ℕ) → IsSlugChar c → u.is_space c ≡ false
  pub casefold_slug : (t : Text) → All IsSlugChar t → u.casefold t ≡ t

IsSlug-chars : (after : Bool) (t : Text) → IsSlug after t → All IsSlugChar t
IsSlug-chars after [] h = tt
IsSlug-chars after (c ∷ cs) (inl (alnum, r)) = (ground arith, IsSlug-chars true cs r)
IsSlug-chars after (c ∷ cs) (inr (e, a, r)) = (ground arith, IsSlug-chars false cs r)

normalize_facet-slug :
    ⦃u : Unicode⦄ (laws : IsUnicode u) (c : ℕ) (cs : Text)
    → IsSlug false (c ∷ cs)
    → normalize_facet (some (c ∷ cs)) ≡ some (c ∷ cs)
unfolding normalize_facet
normalize_facet-slug ⦃u⦄ laws c cs slug =
    let chars = IsSlug-chars false (c ∷ cs) slug in
    let stripped : strip (c ∷ cs) ≡ c ∷ cs =
      strip_by_none u.is_space (c ∷ cs) (All-map laws.slug_not_space (c ∷ cs) chars) in
    ap (λ (t : Text). unless_empty (strip_by is_hyphen (collapse false (u.casefold t)))) stripped
    ∙ ap (λ (t : Text). unless_empty (strip_by is_hyphen (collapse false t)))
        (laws.casefold_slug (c ∷ cs) chars)
    ∙ ap (λ (t : Text). unless_empty (strip_by is_hyphen t))
        (IsSlug-collapse false (c ∷ cs) (IsSlug-weaken (c ∷ cs) slug))
    ∙ ap unless_empty (IsSlug-strip_same (c ∷ cs) slug)

normalize_facet-key :
    ⦃u : Unicode⦄ (laws : IsUnicode u) (found : Option Text)
    → ((key : Text) → found ≡ some key → IsSlug false key)
    → normalize_facet found ≡ found
unfolding normalize_facet
normalize_facet-key laws none h = refl
normalize_facet-key laws (some []) h = absurd (ground (arith, h [] refl))
normalize_facet-key laws (some (c ∷ cs)) h = normalize_facet-slug laws c cs (h (c ∷ cs) refl)

-- Normalising is idempotent: the key stored at ingest is the key that a query for it looks up.
pub normalize_facet_idempotent :
    ⦃u : Unicode⦄ (laws : IsUnicode u) (value : Option Text)
    → normalize_facet (normalize_facet value) ≡ normalize_facet value
normalize_facet_idempotent laws value =
    normalize_facet-key laws (normalize_facet value) (λ key e. normalize_facet-IsSlug value e)

map_slug : (t : Text) → All IsSlugChar t → map ascii_lower t ≡ t
map_slug [] h = refl
map_slug (c ∷ cs) (h, hs) = ground (arith, map_slug cs hs)

pub ascii-IsUnicode : IsUnicode ascii
ascii-IsUnicode = record { slug_not_space = λ c h. ground arith; casefold_slug = map_slug }
