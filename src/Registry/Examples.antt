-- ===== src/Registry/Examples.antt =====
-- The theorems on the registry at concrete models.
use product_intelligence.Base.{◌≡◌, refl, [], ◌∷◌, arith}
use product_intelligence.Base.Result.{ok}
use product_intelligence.Text.Strings.{ascii, codes}
use product_intelligence.Registry.Models.{
  image_embedding, text_embedding, reranker, ModelStatus, active, inactive, ModelInfo, Registry,
  with_status, update_type, deactivate_all, get_active_model, get_model, activate,
  seed_from_settings,
}
use product_intelligence.Registry.Laws.{
  actives, HasOneActive, activates, here, next, Reach-HasOneActive, activate-get_active_model,
  seeded, seed_from_settings_total,
}

abbrev siglip : ModelStatus → ModelInfo
siglip status = record {
  model_name = codes "siglip";
  version = codes "2.0.0";
  model_type = image_embedding;
  dimension = 768;
  status = status;
}

abbrev clip : ModelInfo
clip = seeded image_embedding (codes "clip") 512

abbrev first_registry : Registry
first_registry = update_type (λ t. []) image_embedding (clip ∷ siglip inactive ∷ [])

activate-get_active_model_example :
    (s : Registry) × (activate image_embedding (codes "2.0.0") first_registry
      ≡ ok (s, siglip active))
    × (get_active_model image_embedding s ≡ ok (siglip active))
    × (actives (s image_embedding) ≡ siglip active ∷ [])
    × (s reranker ≡ first_registry reranker)
activate-get_active_model_example =
    activate-get_active_model image_embedding reranker (codes "2.0.0") first_registry
      (siglip inactive) found refl
  where
    found : get_model image_embedding (codes "2.0.0") first_registry ≡ ok (siglip inactive)
    found = unfold get_model in refl

abbrev second_registry : Registry
second_registry =
    update_type first_registry image_embedding (with_status inactive clip ∷ siglip active ∷ [])

activated :
    activate image_embedding (codes "2.0.0") first_registry ≡ ok (second_registry, siglip active)
unfolding activate get_model deactivate_all
activated = refl

Reach-HasOneActive_example : HasOneActive second_registry
Reach-HasOneActive_example =
    Reach-HasOneActive
      (next here (activates image_embedding (codes "2.0.0") (siglip active) _ _ activated)) one
  where
    one : HasOneActive first_registry
    one image_embedding = omega arith
    one text_embedding = omega arith
    one reranker = omega arith

seed_from_settings_total_example :
    (r : Registry) × (seed_from_settings ⦃u = ascii⦄
        (codes "clip")
        (codes "minilm")
        (codes "ce")
        512
        384
      ≡ ok r)
    × (r image_embedding ≡ clip ∷ [])
    × (r text_embedding ≡ seeded text_embedding (codes "minilm") 384 ∷ [])
    × (r reranker ≡ seeded reranker (codes "ce") 1 ∷ [])
seed_from_settings_total_example =
    seed_from_settings_total ⦃u = ascii⦄ (codes "clip") (codes "minilm") (codes "ce") 512 384 refl
      refl refl
