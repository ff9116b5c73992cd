-- ===== src/Catalog/MergeLaws.antt =====
-- What the merged tags of a product are like.
use product_intelligence.Base.{
  ℕ, zero, suc, ◌≤◌, ◌≡◌, refl, ◌∙◌, Bool, true, false, List, [], ◌∷◌, ◌++◌, length, take, length-take, All, All-take,
  All-map, arith, Bool-cases, inl, inr, ◌==◌, if◌then◌else◌, min,
}
use product_intelligence.Float.Interface.{Float}
use product_intelligence.Float.Ranking.{place, ranked, All-place, All-ranked}
use product_intelligence.Text.Strings.{Text, Unicode, is_empty, text_eq}
use product_intelligence.Recommendation.Diversify.{Buckets, append_to, group_by}
use product_intelligence.Catalog.Merge.{
  CatalogTag, tag_key, not_blank, best_confidence, merged_source, merge_tag_groups, merge_tags,
}

text_eq_comm : (s t : Text) → text_eq s t ≡ text_eq t s
text_eq_comm [] [] = refl
text_eq_comm [] (d ∷ ds) = refl
text_eq_comm (c ∷ cs) [] = refl
text_eq_comm (c ∷ cs) (d ∷ ds) = ground (arith, text_eq_comm cs ds)

module _ {A : Type 0} where
  abbrev KeysDistinct : Buckets A → Type 0
  KeysDistinct [] = Unit
  KeysDistinct (b ∷ buckets) = All (λ c. text_eq c.0 b.0 ≡ false) buckets × KeysDistinct buckets

  All-append_to :
      (P : Text → Type 0) (key : Text) (x : A) (buckets : Buckets A)
      → P key
      → All (λ b. P b.0) buckets
      → All (λ b. P b.0) (append_to key x buckets)
  All-append_to P key x [] p h = (p, tt)
  All-append_to P key x ((k, bucket) ∷ buckets) p (h, hs) = elim (Bool-cases (text_eq k key)) [
    | inl e ↦ rw e ((h, hs))
    | inr e ↦ rw e ((h, All-append_to P key x buckets p hs))
  ]

  append_to-KeysDistinct :
      (key : Text) (x : A) (buckets : Buckets A)
      → KeysDistinct buckets
      → KeysDistinct (append_to key x buckets)
  append_to-KeysDistinct key x [] h = (tt, tt)
  append_to-KeysDistinct key x ((k, bucket) ∷ buckets) (h, hs) = elim (Bool-cases (text_eq k key)) [
    | inl e ↦ rw e ((h, hs))
    | inr e ↦
        rw e
          ((
            All-append_to (λ j. text_eq j k ≡ false) key x buckets (text_eq_comm key k ∙ e) h,
            append_to-KeysDistinct key x buckets hs))
  ]

  group_by-lem :
      (P : Text → Type 0) (key_of : A → Text) (xs : List A) (buckets : Buckets A)
      → All (λ x. P (key_of x)) xs
      → All (λ b. P b.0) buckets × KeysDistinct buckets
      → All (λ b. P b.0) (group_by key_of xs buckets) × KeysDistinct (group_by key_of xs buckets)
  group_by-lem P key_of [] buckets p h = h
  group_by-lem P key_of (x ∷ xs) buckets (p, ps) (h, d) =
      group_by-lem P key_of xs (append_to (key_of x) x buckets) ps
        (All-append_to P (key_of x) x buckets p h, append_to-KeysDistinct (key_of x) x buckets d)

module _ {F : Type 0} ⦃f : Float F⦄ where
  -- No tag stands twice.
  abbrev pub AreDistinct : List (CatalogTag F) → Type 0
  AreDistinct [] = Unit
  AreDistinct (t ∷ tags) = All (λ s. text_eq s.tag t.tag ≡ false) tags × AreDistinct tags

  -- A tag that is worth keeping.
  abbrev pub IsKept : (threshold : F) → CatalogTag F → Type 0
  IsKept threshold t = (is_empty t.tag ≡ false) × (f.lt t.confidence threshold ≡ false)

  place-AreDistinct :
      (t : CatalogTag F) (tags : List (CatalogTag F))
      → All (λ s. text_eq s.tag t.tag ≡ false) tags
      → AreDistinct tags
      → AreDistinct (place (λ (s : CatalogTag F). s.confidence) t tags)
  place-AreDistinct t [] h d = (tt, tt)
  place-AreDistinct t (s ∷ tags) (h, hs) (d, ds) =
      elim (Bool-cases (f.lt t.confidence s.confidence)) [
        | inl e ↦
            rw e
              ((
                All-place (λ (s : CatalogTag F). s.confidence) (λ r. text_eq r.tag s.tag ≡ false) t tags
                  (text_eq_comm t.tag s.tag ∙ h) d,
                place-AreDistinct t tags hs ds))
        | inr e ↦ rw e (((h, hs), (d, ds)))
      ]

  ranked-AreDistinct :
      (tags : List (CatalogTag F))
      → AreDistinct tags
      → AreDistinct (ranked (λ (s : CatalogTag F). s.confidence) tags)
  unfolding ranked
  ranked-AreDistinct [] d = tt
  ranked-AreDistinct (t ∷ tags) (d, ds) =
      place-AreDistinct t (ranked (λ (s : CatalogTag F). s.confidence) tags)
        (All-ranked (λ (s : CatalogTag F). s.confidence) (λ s. text_eq s.tag t.tag ≡ false) tags d)
        (ranked-AreDistinct tags ds)

  take-AreDistinct :
      (n : ℕ) (tags : List (CatalogTag F)) → AreDistinct tags → AreDistinct (take n tags)
  take-AreDistinct zero tags d = tt
  take-AreDistinct (suc n) [] d = tt
  take-AreDistinct (suc n) (t ∷ tags) (d, ds) =
      (All-take (λ s. text_eq s.tag t.tag ≡ false) n tags d, take-AreDistinct n tags ds)

  merge_tag_groups-All :
      (P : Text → Type 0) (threshold : F) (groups : Buckets (CatalogTag F))
      → All (λ b. P b.0) groups
      → All (λ t. P t.tag × (f.lt t.confidence threshold ≡ false)) (merge_tag_groups threshold groups)
  merge_tag_groups-All P threshold [] h = tt
  merge_tag_groups-All P threshold ((key, []) ∷ groups) (h, hs) =
      merge_tag_groups-All P threshold groups hs
  merge_tag_groups-All P threshold ((key, t ∷ tags) ∷ groups) (h, hs) =
      elim (Bool-cases (f.lt (best_confidence t.confidence tags) threshold)) [
        | inl e ↦ rw e (merge_tag_groups-All P threshold groups hs)
        | inr e ↦ rw e (((h, e), merge_tag_groups-All P threshold groups hs))
      ]

  merge_tag_groups-AreDistinct :
      (threshold : F) (groups : Buckets (CatalogTag F))
      → KeysDistinct groups
      → AreDistinct (merge_tag_groups threshold groups)
  merge_tag_groups-AreDistinct threshold [] d = tt
  merge_tag_groups-AreDistinct threshold ((key, []) ∷ groups) (d, ds) =
      merge_tag_groups-AreDistinct threshold groups ds
  merge_tag_groups-AreDistinct threshold ((key, t ∷ tags) ∷ groups) (d, ds) =
      elim (Bool-cases (f.lt (best_confidence t.confidence tags) threshold)) [
        | inl e ↦ rw e (merge_tag_groups-AreDistinct threshold groups ds)
        | inr e ↦
            rw e
              ((
                All-map (λ s h. h.0) (merge_tag_groups threshold groups)
                  (merge_tag_groups-All (λ j. text_eq j key ≡ false) threshold groups d),
                merge_tag_groups-AreDistinct threshold groups ds))
      ]

  module _ ⦃u : Unicode⦄ where
    All-not_blank :
        (tags : List (CatalogTag F)) → All (λ t. is_empty (tag_key t) ≡ false) (not_blank tags)
    All-not_blank [] = tt
    All-not_blank (t ∷ tags) = elim (Bool-cases (is_empty (tag_key t))) [
      | inl e ↦ rw e (All-not_blank tags)
      | inr e ↦ rw e ((e, All-not_blank tags))
    ]

    -- The merged tags are at most `max_tags`, no two of them are the same text, none is blank, and the
    -- confidence of none is below the threshold.
    pub merge_tags-AreDistinct :
        (threshold : F) (max_tags : ℕ) (tags : List (CatalogTag F))
        → (length (merge_tags threshold max_tags tags) ≤ max_tags)
        × AreDistinct (merge_tags threshold max_tags tags)
        × All (IsKept threshold) (merge_tags threshold max_tags tags)
    unfolding merge_tags
    merge_tags-AreDistinct threshold max_tags tags =
        let groups = group_by tag_key (not_blank tags) [] in
        let (named, distinct) =
          group_by-lem (λ key. is_empty key ≡ false) tag_key (not_blank tags) [] (All-not_blank tags)
            (tt, tt) in
        let merged = merge_tag_groups threshold groups in
        let key = λ (t : CatalogTag F). t.confidence in
        (
          omega (arith, length-take max_tags (ranked key merged)),
          take-AreDistinct max_tags (ranked key merged)
            (ranked-AreDistinct merged (merge_tag_groups-AreDistinct threshold groups distinct)),
          All-take (IsKept threshold) max_tags (ranked key merged)
            (All-ranked key (IsKept threshold) merged
              (merge_tag_groups-All (λ t. is_empty t ≡ false) threshold groups named)))
