-- ===== src/Registry/Models.antt =====
-- backend/app/services/model_registry.py and models/model_info.py, model_type.py and model_status.py. The
-- registry is a dict of dicts: each type of model has its versions in the order of their insertion. A
-- version is a text that the model `ModelInfo` validates; logging is not modelled.
use product_intelligence.Base.{
  ℕ, Bool, true, false, Option, none, some, List, [], ◌∷◌, ◌++◌, map, filter_by, if◌then◌else◌,
}
use product_intelligence.Base.Result.{Result, ok, err, ◌>>=◌}
use product_intelligence.Text.Strings.{Text, Unicode, text_eq, strip, is_empty, codes}

pub data ModelType : Type 0 where
  image_embedding text_embedding reranker : ModelType

pub data ModelStatus : Type 0 where
  active inactive deprecated experimental : ModelStatus

pub record ModelInfo : Type 0 where
  pub model_name : Text
  pub version : Text
  pub model_type : ModelType
  pub dimension : ℕ
  pub status : ModelStatus

pub data RegistryError : Type 0 where
  conflict not_found startup : RegistryError

abbrev pub Registry : Type 0
Registry = ModelType → List ModelInfo

abbrev pub same_type : ModelType → ModelType → Bool
same_type image_embedding image_embedding = true
same_type text_embedding text_embedding = true
same_type reranker reranker = true
same_type _ _ = false

abbrev pub is_active : ModelStatus → Bool
is_active active = true
is_active _ = false

abbrev pub with_status : ModelStatus → ModelInfo → ModelInfo
with_status status info = record info { status = status }

-- `self._models[model_type] = by_version`, as the assignments to its entries leave it.
abbrev pub update_type : Registry → ModelType → List ModelInfo → Registry
update_type registry model_type by_version t =
    if same_type model_type t then by_version else registry t

-- `by_version.get(version)`
abbrev pub find_version : (version : Text) → List ModelInfo → Option ModelInfo
find_version version [] = none
find_version version (info ∷ infos) =
    if text_eq version info.version then some info else find_version version infos

-- `by_version[version] = info`, in the place of the entry with this version or at the end.
abbrev pub put_version : (version : Text) → ModelInfo → List ModelInfo → List ModelInfo
put_version version info [] = info ∷ []
put_version version info (other ∷ infos) =
    if text_eq version other.version then info ∷ infos else other ∷ put_version version info infos

abbrev pub deactivated : ModelInfo → ModelInfo
deactivated info = if is_active info.status then with_status inactive info else info

unfoldable pub deactivate_all : List ModelInfo → List ModelInfo
deactivate_all by_version = map deactivated by_version

-- Whether the version is taken, and if not, the new entry.
abbrev pub register_if_free :
    ModelInfo → Registry → (taken : Option ModelInfo) → Result RegistryError Registry
register_if_free info registry (some old) = err conflict
register_if_free info registry none = ok (
    update_type registry info.model_type (
      put_version info.version info (
        if is_active info.status
        then deactivate_all (registry info.model_type)
        else registry info.model_type)))

unfoldable pub register : ModelInfo → Registry → Result RegistryError Registry
register info registry =
    register_if_free info registry (find_version info.version (registry info.model_type))

abbrev pub first_or_not_found : List ModelInfo → Result RegistryError ModelInfo
first_or_not_found [] = err not_found
first_or_not_found (info ∷ infos) = ok info

unfoldable pub get_active_model : ModelType → Registry → Result RegistryError ModelInfo
get_active_model model_type registry =
    first_or_not_found
      (filter_by (λ (info : ModelInfo). is_active info.status) (registry model_type))

abbrev pub found_or_not_found : Option ModelInfo → Result RegistryError ModelInfo
found_or_not_found none = err not_found
found_or_not_found (some info) = ok info

unfoldable pub get_model : ModelType → (version : Text) → Registry → Result RegistryError ModelInfo
get_model model_type version registry =
    found_or_not_found (find_version version (registry model_type))

unfoldable pub list_models : Option ModelType → Registry → List ModelInfo
list_models (some model_type) registry = registry model_type
list_models none registry =
    registry image_embedding ++ (registry text_embedding ++ registry reranker)

unfoldable pub activate :
    ModelType → (version : Text) → Registry → Result RegistryError (Registry × ModelInfo)
unfolding deactivate_all get_model
activate model_type version registry = do
  info ← get_model model_type version registry
  let activated = with_status active info
  ok (
    update_type registry model_type
        (put_version version activated (deactivate_all (registry model_type))),
    activated,
  )

unfoldable pub deactivate :
    ModelType → (version : Text) → Registry → Result RegistryError (Registry × ModelInfo)
unfolding get_model
deactivate model_type version registry = do
  info ← get_model model_type version registry
  ok (
    update_type registry model_type
        (put_version version (with_status inactive info) (registry model_type)),
    with_status inactive info,
  )

-- What `_seed_from_settings` reads of the settings.
pub record Seed : Type 0 where
  pub model_type : ModelType
  pub model_name : Text
  pub dimension : ℕ

abbrev pub initial_version : Text
initial_version = codes "1.0.0"

abbrev pub reranker_dimension : ℕ
reranker_dimension = 1

unfoldable pub seed : ⦃u : Unicode⦄ → List Seed → Registry → Result RegistryError Registry
unfolding register
seed [] registry = ok registry
seed (s ∷ seeds) registry =
    let rest =
      register
        (record {
          model_name = s.model_name;
          version = initial_version;
          model_type = s.model_type;
          dimension = s.dimension;
          status = active;
        })
        registry
      >>= λ next. seed seeds next in
    if is_empty (strip s.model_name) then err startup else rest

-- The seeds of `_seed_from_settings`, and a registry with them.
unfoldable pub seed_from_settings :
    ⦃u : Unicode⦄
    → (clip_model_name text_model_name reranker_model_name : Text)
    → (image_vector_size text_vector_size : ℕ) → Result RegistryError Registry
unfolding seed
seed_from_settings clip_model_name text_model_name reranker_model_name image_size text_size =
    seed
      (record { model_type = image_embedding; model_name = clip_model_name; dimension = image_size }
        ∷ record {
          model_type = text_embedding;
          model_name = text_model_name;
          dimension = text_size;
        }
        ∷ record {
          model_type = reranker;
          model_name = reranker_model_name;
          dimension = reranker_dimension;
        }
        ∷ [])
      (λ t. [])
