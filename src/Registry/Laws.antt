-- ===== src/Registry/Laws.antt =====
-- What the registry of models keeps true.
use product_intelligence.Base.{
  ℕ, ◌+◌, ◌≤◌, ◌≡◌, refl, ap, true, false, Option, none, some, List, [], ◌∷◌, filter_by, length,
  arith, Bool-cases, inl, inr, if◌then◌else◌,
}
use product_intelligence.Base.Result.{ok, Ensures, returns, raises, Ensures-after, Ensures-ok}
use product_intelligence.Text.Strings.{Text, Unicode, text_eq, strip, is_empty}
use product_intelligence.Registry.Models.{
  ModelType, image_embedding, text_embedding, reranker, active, inactive, ModelInfo, Registry,
  same_type, is_active, with_status, update_type, put_version, register_if_free, deactivate_all,
  register, get_active_model, get_model, activate, deactivate, initial_version, seed,
  seed_from_settings,
}

abbrev pub actives : List ModelInfo → List ModelInfo
actives infos = filter_by (λ (info : ModelInfo). is_active info.status) infos

-- At most one version of each type is active.
abbrev pub HasOneActive : Registry → Type 0
HasOneActive registry = (t : ModelType) → length (actives (registry t)) ≤ 1

actives-deactivate_all : (infos : List ModelInfo) → actives (deactivate_all infos) ≡ []
unfolding deactivate_all
actives-deactivate_all [] = refl
actives-deactivate_all (info ∷ infos) = elim (Bool-cases (is_active info.status)) [
  | inl e ↦ rw e (actives-deactivate_all infos)
  | inr e ↦ rw (e, e) (actives-deactivate_all infos)
]

actives-put_version :
    (version : Text) (info : ModelInfo) (infos : List ModelInfo)
    → length (actives (put_version version info infos))
      ≤ (if is_active info.status then 1 else 0) + length (actives infos)
actives-put_version version info [] = ground arith
actives-put_version version info (other ∷ infos) =
    ground (arith, actives-put_version version info infos)

-- The only active version, where none was.
actives-put_active :
    (version : Text) (info : ModelInfo) (infos : List ModelInfo)
    → is_active info.status ≡ true
    → actives infos ≡ []
    → actives (put_version version info infos) ≡ info ∷ []
actives-put_active version info [] e none_active = rw e
actives-put_active version info (other ∷ infos) e none_active =
    elim (Bool-cases (is_active other.status)) [
      | inl o ↦ ground arith
      | inr o ↦
          let rest : actives infos ≡ [] = ground arith in
          elim (Bool-cases (text_eq version other.version)) [
            | inl same ↦ rw (same, e, rest)
            | inr differ ↦ rw (differ, o) (actives-put_active version info infos e rest)
          ]
    ]

same_type_self : (t : ModelType) → same_type t t ≡ true
same_type_self image_embedding = refl
same_type_self text_embedding = refl
same_type_self reranker = refl

update_type-HasOneActive :
    (registry : Registry) (t : ModelType) (infos : List ModelInfo)
    → HasOneActive registry
    → length (actives infos) ≤ 1
    → HasOneActive (update_type registry t infos)
update_type-HasOneActive registry t infos h le u = elim (Bool-cases (same_type t u)) [
  | inl e ↦ rw e le
  | inr e ↦ rw e (h u)
]

-- A call that changes the registry.
pub data Step : Registry → Registry → Type 0 where
  registers : (info : ModelInfo) (r s : Registry) → register info r ≡ ok s → Step r s
  activates :
      (t : ModelType) (version : Text) (info : ModelInfo) (r s : Registry)
      → activate t version r ≡ ok (s, info)
      → Step r s
  deactivates :
      (t : ModelType) (version : Text) (info : ModelInfo) (r s : Registry)
      → deactivate t version r ≡ ok (s, info)
      → Step r s

pub data Reach (r : Registry) : Registry → Type 0 where
  here : Reach r r
  next : {s t : Registry} → Reach r s → Step s t → Reach r t

register_if_free-HasOneActive :
    (info : ModelInfo) (r : Registry) (taken : Option ModelInfo)
    → HasOneActive r
    → Ensures HasOneActive (register_if_free info r taken)
register_if_free-HasOneActive info r (some old) h = raises
register_if_free-HasOneActive info r none h =
    let entries =
      if is_active info.status then deactivate_all (r info.model_type) else r info.model_type in
    returns (
      update_type-HasOneActive r info.model_type (put_version info.version info entries) h (
        ground (
          arith,
          actives-put_version info.version info (deactivate_all (r info.model_type)),
          actives-put_version info.version info (r info.model_type),
          actives-deactivate_all (r info.model_type),
          h info.model_type,
        )))

register-HasOneActive :
    (info : ModelInfo) (r : Registry) → HasOneActive r → Ensures HasOneActive (register info r)
unfolding register
register-HasOneActive info r h = register_if_free-HasOneActive info r _ h

activate-HasOneActive :
    (t : ModelType) (version : Text) (r : Registry)
    → HasOneActive r
    → Ensures (λ (x : Registry × ModelInfo). HasOneActive x.0) (activate t version r)
unfolding activate
activate-HasOneActive t version r h = Ensures-after (get_model t version r) (λ info. returns (
    update_type-HasOneActive r t _ h (
      omega (
        arith,
        actives-put_version version (with_status active info) (deactivate_all (r t)),
        ap (λ (xs : List ModelInfo). length xs) (actives-deactivate_all (r t)),
      ))))

deactivate-HasOneActive :
    (t : ModelType) (version : Text) (r : Registry)
    → HasOneActive r
    → Ensures (λ (x : Registry × ModelInfo). HasOneActive x.0) (deactivate t version r)
unfolding deactivate
deactivate-HasOneActive t version r h = Ensures-after (get_model t version r) (λ info. returns (
    update_type-HasOneActive r t _ h
      (omega (arith, actives-put_version version (with_status inactive info) (r t), h t))))

Step-HasOneActive : {r s : Registry} → Step r s → HasOneActive r → HasOneActive s
Step-HasOneActive (registers info r s e) h = Ensures-ok (register-HasOneActive info r h) e
Step-HasOneActive (activates t version info r s e) h =
    Ensures-ok (activate-HasOneActive t version r h) e
Step-HasOneActive (deactivates t version info r s e) h =
    Ensures-ok (deactivate-HasOneActive t version r h) e

-- However models are registered, activated and deactivated, at most one version of each type is
-- active, if this was so before.
pub Reach-HasOneActive : {r s : Registry} → Reach r s → HasOneActive r → HasOneActive s
Reach-HasOneActive here h = h
Reach-HasOneActive (next reached st) h = Step-HasOneActive st (Reach-HasOneActive reached h)

-- Activating a version that is registered succeeds, and then this version is the active model of its
-- type, every other version of the type is inactive or otherwise out of use, and no other type
-- changes.
pub activate-get_active_model :
    (t other : ModelType) (version : Text) (r : Registry) (info : ModelInfo)
    → get_model t version r ≡ ok info
    → same_type t other ≡ false
    → (s : Registry) × (activate t version r ≡ ok (s, with_status active info))
      × (get_active_model t s ≡ ok (with_status active info))
      × (actives (s t) ≡ with_status active info ∷ [])
      × (s other ≡ r other)
unfolding activate get_active_model
activate-get_active_model t other version r info found apart =
    let entries = put_version version (with_status active info) (deactivate_all (r t)) in
    let only : actives entries ≡ with_status active info ∷ [] =
      actives-put_active version (with_status active info) (deactivate_all (r t)) refl
        (actives-deactivate_all (r t)) in
    (
      update_type r t entries,
      rw found,
      rw (same_type_self t, only),
      rw (same_type_self t) only,
      rw apart,
    )

abbrev pub seeded : ModelType → (model_name : Text) (dimension : ℕ) → ModelInfo
seeded t model_name dimension = record {
  model_name = model_name;
  version = initial_version;
  model_type = t;
  dimension = dimension;
  status = active;
}

-- With three names that are not blank the start succeeds, every type of model then has exactly one
-- version, and that is active and of the name and size in the settings.
pub seed_from_settings_total :
    ⦃u : Unicode⦄ (clip_name text_name reranker_name : Text) (image_size text_size : ℕ)
    → is_empty (strip clip_name) ≡ false
    → is_empty (strip text_name) ≡ false
    → is_empty (strip reranker_name) ≡ false
    → (r : Registry) × (seed_from_settings clip_name text_name reranker_name image_size text_size
        ≡ ok r)
      × (r image_embedding ≡ seeded image_embedding clip_name image_size ∷ [])
      × (r text_embedding ≡ seeded text_embedding text_name text_size ∷ [])
      × (r reranker ≡ seeded reranker reranker_name 1 ∷ [])
unfolding seed_from_settings seed register deactivate_all
seed_from_settings_total clip_name text_name reranker_name image_size text_size h k l = (
  update_type
      (update_type
        (update_type (λ t. []) image_embedding (seeded image_embedding clip_name image_size ∷ []))
        text_embedding (seeded text_embedding text_name text_size ∷ []))
      reranker (seeded reranker reranker_name 1 ∷ []),
  rw (h, k, l),
  refl,
  refl,
  refl,
)
