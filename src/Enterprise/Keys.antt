-- ===== src/Enterprise/Keys.antt =====
-- API keys: backend/app/services/enterprise/api_keys.py and repositories/api_key_repository.py. Logging
-- is not modelled.
use product_intelligence.Base.{
  ℕ, Bool, true, ◌&&◌, Option, none, some, List, [], ◌∷◌, ◌++◌, take, length, leb,
}
use product_intelligence.Base.Result.{Result, ok, err, ◌>>=◌}
use product_intelligence.Text.Strings.{Text, text_eq, codes}
use product_intelligence.Enterprise.Models.{EnterpriseError, validation_error, ApiKey}
use product_intelligence.Enterprise.Redis.{Json, Uuids, Backend}

-- The bounds that the model `ApiKey` declares on its fields.
abbrev pub is_valid_api_key : ApiKey → Bool
is_valid_api_key k =
    leb 1 (length k.name)
    && leb (length k.name) 200
    && leb 1 (length k.prefix)
    && leb 1 (length k.key_hash)

abbrev pub prefix_length : ℕ
prefix_length = 12

-- `token` is what `secrets.token_urlsafe` returned.
abbrev pub generate_raw_key : (token : Text) → Text
generate_raw_key token = codes "pik_" ++ token

abbrev pub key_prefix : (raw_key : Text) → Text
key_prefix raw_key = take prefix_length raw_key

-- `sha256` is the hexadecimal digest of hashlib; `hmac.compare_digest` is equality.
abbrev pub hash_key : (Text → Text) → (raw_key : Text) → Text
hash_key sha256 raw_key = sha256 raw_key

abbrev pub verify_key : (Text → Text) → (raw_key key_hash : Text) → Bool
verify_key sha256 raw_key key_hash = text_eq (hash_key sha256 raw_key) key_hash

abbrev pub prefix_key : (prefix : Text) → Text
prefix_key prefix = codes "apikey:prefix:" ++ prefix

abbrev pub tenant_keys_key : Uuids → (tenant_id : ℕ) → Text
tenant_keys_key u tenant_id = codes "tenant:" ++ (u.str tenant_id ++ codes ":apikeys")

-- `model_validate_json(raw) if raw is not None else None`
abbrev pub validated : {A V : Type 0} → Json A V → Option V → Result EnterpriseError (Option A)
validated json none = ok none
validated json (some raw) = elim (json.validate raw) [
  | none ↦ err validation_error
  | some a ↦ ok (some a)
]

-- `model_copy(update={"revoked": True})`
abbrev pub revoked_copy : ApiKey → ApiKey
revoked_copy k = record k { revoked = true }

module _ {S V : Type 0} (b : Backend S V) where
  unfoldable pub save_key : ApiKey → S → S
  save_key api_key s = b.redis.set (prefix_key api_key.prefix) (b.api_keys.dump api_key) s

  unfoldable pub create : ApiKey → S → S
  unfolding save_key
  create api_key s =
      b.redis.sadd (tenant_keys_key b.uuids api_key.tenant_id) api_key.prefix (save_key api_key s)

  unfoldable pub get_by_prefix : (prefix : Text) → S → Result EnterpriseError (Option ApiKey)
  get_by_prefix prefix s = validated b.api_keys (b.redis.get (prefix_key prefix) s)

  -- The loop of `list_by_tenant` over the prefixes; a prefix without a record is skipped.
  abbrev pub found_keys : List Text → S → Result EnterpriseError (List ApiKey)
  unfolding get_by_prefix
  found_keys [] s = ok []
  found_keys (prefix ∷ prefixes) s = do
    key ← get_by_prefix prefix s
    keys ← found_keys prefixes s
    ok (elim key [ none ↦ keys | some k ↦ k ∷ keys ])

  unfoldable pub list_by_tenant : (tenant_id : ℕ) → S → Result EnterpriseError (List ApiKey)
  list_by_tenant tenant_id s = found_keys (b.redis.smembers (tenant_keys_key b.uuids tenant_id) s) s

  unfoldable pub revoke : (prefix : Text) → S → Result EnterpriseError (S × Option ApiKey)
  unfolding get_by_prefix save_key
  revoke prefix s = do
    api_key ← get_by_prefix prefix s
    ok (elim api_key [
      | none ↦ (s, none)
      | some k ↦ (save_key (revoked_copy k) s, some (revoked_copy k))
    ])
