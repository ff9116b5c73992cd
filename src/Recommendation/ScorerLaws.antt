-- ===== src/Recommendation/ScorerLaws.antt =====
-- RecommendationScorer: bounds, and the overlap of two sets of tags.
use product_intelligence.Base.{
  suc, ◌+◌, ◌≡◌, refl, ap, ◌∙◌, Bool, not, ◌&&◌, ◌||◌, List, [], ◌∷◌, length, length-append,
  filter_by, arith, Bool-cases, inl, inr,
}
use product_intelligence.Float.Interface.{Float, IsOrdered, ◌≼◌, clamp_bounds}
use product_intelligence.Text.Strings.{Text, Unicode, text_eq, text_eq_sound}
use product_intelligence.Text.Metadata.{Metadata, Value}
use product_intelligence.Search.Results.{HybridSearchResult}
use product_intelligence.Recommendation.Scorer.{
  RecommendationScorer, mem_text, insert_text, sort_texts, intersection, difference, normalize_tags,
  shared_of, union_of, tag_match, ratio, score,
}

mem_text-insert_text :
    (t u : Text) (us : List Text) → mem_text t (insert_text u us) ≡ text_eq t u || mem_text t us
mem_text-insert_text t u [] = ground arith
mem_text-insert_text t u (v ∷ us) = ground (arith, mem_text-insert_text t u us)

mem_text-sort_texts : (t : Text) (ts : List Text) → mem_text t (sort_texts ts) ≡ mem_text t ts
unfolding sort_texts
mem_text-sort_texts t [] = refl
mem_text-sort_texts t (u ∷ ts) =
    mem_text-insert_text t u (sort_texts ts) ∙ ground (arith, mem_text-sort_texts t ts)

length-insert_text : (u : Text) (us : List Text) → length (insert_text u us) ≡ suc (length us)
length-insert_text u [] = refl
length-insert_text u (v ∷ us) = ground (arith, length-insert_text u us)

length-sort_texts : (ts : List Text) → length (sort_texts ts) ≡ length ts
unfolding sort_texts
length-sort_texts [] = refl
length-sort_texts (t ∷ ts) = length-insert_text t (sort_texts ts) ∙ ap suc (length-sort_texts ts)

mem_text-filter_by :
    (t : Text) (q : Text → Bool) (ts : List Text)
    → mem_text t (filter_by q ts) ≡ mem_text t ts && q t
mem_text-filter_by t q [] = ground arith
mem_text-filter_by t q (u ∷ ts) = elim (Bool-cases (text_eq t u)) [
  | inl same ↦
      let e : t ≡ u = text_eq_sound t u same in
      let qs : q t ≡ q u = ap q e in ground (arith, same, qs, mem_text-filter_by t q ts)
  | inr other ↦ ground (arith, other, mem_text-filter_by t q ts)
]

length-split :
    (q : Text → Bool) (ts : List Text)
    → length (filter_by q ts) + length (filter_by (λ t. not (q t)) ts) ≡ length ts
length-split q [] = omega arith
length-split q (t ∷ ts) = ground (arith, length-split q ts)

module _ {F : Type 0} ⦃f : Float F⦄ ⦃u : Unicode⦄ where
  -- The shared tags are those that both products have, the union counts each tag once, and the tag
  -- score is the share of the former in the latter, or 0 if there are no tags at all.
  pub tag_match_lem :
      (target_tags candidate_tags : Value F) (t : Text)
      → let target_set = normalize_tags target_tags in
        let candidate_set = normalize_tags candidate_tags in
        let (tag_score, shared) = tag_match target_tags candidate_tags in
        let union = union_of target_set candidate_set in
        (mem_text t shared ≡ mem_text t candidate_set && mem_text t target_set)
        × (length union + length shared ≡ length target_set + length candidate_set)
        × (tag_score ≡ ratio (length shared) (length union))
  unfolding tag_match shared_of
  tag_match_lem target_tags candidate_tags t =
      let target_set : List Text = normalize_tags target_tags in
      let candidate_set : List Text = normalize_tags candidate_tags in
      (
        mem_text-sort_texts t (intersection target_set candidate_set)
            ∙ mem_text-filter_by t (λ t. mem_text t target_set) candidate_set,
        omega (
          arith,
          length-sort_texts (intersection target_set candidate_set),
          length-append {0} target_set (difference candidate_set target_set),
          length-split (λ t. mem_text t target_set) candidate_set,
        ),
        refl,
      )

  -- The similarity, the quality and the final score of a recommendation lie in [0, 1], whatever the
  -- weights and the stored numbers are, NaN and infinities included.
  pub score-bounds :
      (laws : IsOrdered F) (scorer : RecommendationScorer F) (target : Metadata F)
      (candidate : HybridSearchResult F)
      → let c = score scorer target candidate in
        (f.nought ≼ c.similarity_score)
        × (c.similarity_score ≼ f.unity)
        × (f.nought ≼ c.quality_score)
        × (c.quality_score ≼ f.unity)
        × (f.nought ≼ c.final_score)
        × (c.final_score ≼ f.unity)
  unfolding score
  score-bounds laws scorer target candidate =
      let s = clamp_bounds laws candidate.score in
      let q = clamp_bounds laws _ in let t = clamp_bounds laws _ in (s.0, s.1, q.0, q.1, t.0, t.1)
