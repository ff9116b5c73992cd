-- ===== src/Enterprise/Auth.antt =====
-- Authentication, the guards of the routes and the routes of API keys:
-- backend/app/services/enterprise/authentication_service.py, dependencies/enterprise.py and
-- api/enterprise.py. A response is the record that it is built from.
use product_intelligence.Base.{
  ℕ, Bool, true, false, Option, none, some, List, [], ◌∷◌, ◌==◌, if◌then◌else◌,
}
use product_intelligence.Base.Result.{Result, ok, err, ◌>>=◌}
use product_intelligence.Text.Strings.{Text, is_empty, codes}
use product_intelligence.Enterprise.Role.{
  Role, Permission, role_permissions, role_value, role_has_permission, manage_api_keys,
}
use product_intelligence.Enterprise.Models.{
  EnterpriseError, authentication, authorization, not_found, validation_error, assertion_error,
  ApiKey, ApiKeyCreation, AuthContext, AuditEvent,
}
use product_intelligence.Enterprise.Redis.{Backend}
use product_intelligence.Enterprise.Keys.{
  is_valid_api_key, generate_raw_key, key_prefix, hash_key, verify_key, create, get_by_prefix,
  revoke,
}
use product_intelligence.Enterprise.Audit.{append}

-- What Python draws for a new record: `uuid4()`, `datetime.now(UTC)`.
pub record Fresh : Type 0 where
  pub id : ℕ
  pub now : ℕ

abbrev pub context_of : ApiKey → AuthContext
context_of record_ = record {
  organization_id = record_.organization_id;
  tenant_id = record_.tenant_id;
  role = record_.role;
  api_key_id = record_.id;
  api_key_prefix = record_.prefix;
}

-- `ROLE_PERMISSIONS[role] <= ROLE_PERMISSIONS[other]`
abbrev pub all_granted : List Permission → Role → Bool
unfolding role_has_permission
all_granted [] role = true
all_granted (p ∷ ps) role = if role_has_permission role p then all_granted ps role else false

abbrev pub event_of :
    Fresh → AuthContext → (action : Text) → (resource : Text) → List (Text × Text) → AuditEvent
event_of fresh context action resource metadata = record {
  id = fresh.id;
  tenant_id = context.tenant_id;
  actor = context.api_key_prefix;
  action = action;
  resource = some resource;
  metadata = metadata;
  created_at = fresh.now;
}

abbrev pub revoked_or_absent :
    {S : Type 0} → S × Option ApiKey → Result EnterpriseError (S × ApiKey)
revoked_or_absent (s, none) = err assertion_error
revoked_or_absent (s, some k) = ok (s, k)

abbrev pub of_tenant : (tenant_id : ℕ) → Option ApiKey → Bool
of_tenant tenant_id none = false
of_tenant tenant_id (some existing) = existing.tenant_id == tenant_id

module _ {S V : Type 0} (b : Backend S V) where
  abbrev pub checked_key : (raw_key : Text) → Option ApiKey → Result EnterpriseError AuthContext
  checked_key raw_key none = err authentication
  checked_key raw_key (some record_) =
      if record_.revoked
      then err authentication
      else if verify_key b.sha256 raw_key record_.key_hash
      then ok (context_of record_)
      else err authentication

  unfoldable pub authenticate : Option Text → S → Result EnterpriseError AuthContext
  authenticate none s = err authentication
  authenticate (some raw_key) s =
      if is_empty raw_key
      then err authentication
      else (get_by_prefix b (key_prefix raw_key) s >>= checked_key raw_key)

  -- The service's `create_api_key`; `token` is what `secrets.token_urlsafe` returned.
  unfoldable pub create_api_key :
      (token : Text)
      → Fresh
      → (organization_id tenant_id : ℕ) → (name : Text) → Role
      → S
      → Result EnterpriseError (S × ApiKeyCreation)
  create_api_key token fresh organization_id tenant_id name role s =
      let raw_key = generate_raw_key token in
      let new_key : ApiKey = record {
        id = fresh.id;
        organization_id = organization_id;
        tenant_id = tenant_id;
        name = name;
        role = role;
        prefix = key_prefix raw_key;
        key_hash = hash_key b.sha256 raw_key;
        revoked = false;
        created_at = fresh.now;
      } in
      if is_valid_api_key new_key
      then ok (create b new_key s, record { api_key = new_key; key = raw_key })
      else err validation_error

  -- `get_auth_context`, whose header is the argument, and then `require_permission`.
  unfoldable pub require_permission :
      Permission → (header : Option Text) → S → Result EnterpriseError AuthContext
  require_permission permission header s = do
    context ← authenticate header s
    if role_has_permission context.role permission then ok context else err authorization

  -- POST /api-keys
  unfoldable pub post_api_key :
      (header : Option Text)
      → (token : Text) → (fresh audit : Fresh) → (name : Text) → Role
      → S
      → Result EnterpriseError (S × ApiKeyCreation)
  post_api_key header token fresh audit name role s = do
    context ← require_permission manage_api_keys header s
    if all_granted (role_permissions role) context.role
        then (create_api_key token fresh context.organization_id context.tenant_id name role s
            >>= λ created. ok (
              append b
                  (event_of audit context (codes "create_api_key") created.1.api_key.prefix
                    ((codes "role", role_value role) ∷ []))
                  created.0,
              created.1,
            ))
        else err authorization

  -- DELETE /api-keys/{prefix}
  unfoldable pub delete_api_key :
      (header : Option Text)
      → (audit : Fresh) → (prefix : Text) → S
      → Result EnterpriseError (S × ApiKey)
  delete_api_key header audit prefix s = do
    context ← require_permission manage_api_keys header s
    existing ← get_by_prefix b prefix s
    if of_tenant context.tenant_id existing
        then (revoke b prefix s >>= revoked_or_absent >>= λ revoked. ok (
          append b (event_of audit context (codes "revoke_api_key") prefix []) revoked.0,
          revoked.1,
        ))
        else err not_found
