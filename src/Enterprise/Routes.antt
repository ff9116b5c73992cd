-- ===== src/Enterprise/Routes.antt =====
-- What the routes of API keys grant: whose keys a caller can issue and revoke.
use product_intelligence.Base.{ℕ, ◌≡◌, ◌≤◌, refl, ap, true, Option, none, some, arith, ==_iff}
use product_intelligence.Base.Result.{
  ok, ◌>>=◌, Ensures, returns, Ensures->>=, Ensures-ok, Ensures-self, Ensures-unless,
}
use product_intelligence.Text.Strings.{Text}
use product_intelligence.Enterprise.Role.{
  Role, owner, admin, member, viewer, Permission, manage_api_keys, role_permissions,
  role_has_permission, rank,
}
use product_intelligence.Enterprise.Models.{
  authorization, not_found, validation_error, ApiKey, ApiKeyCreation, AuthContext,
}
use product_intelligence.Enterprise.Redis.{Backend, IsBackend}
use product_intelligence.Enterprise.Keys.{
  is_valid_api_key, save_key, get_by_prefix, revoke, revoked_copy,
}
use product_intelligence.Enterprise.Auth.{
  Fresh, authenticate, create_api_key, require_permission, all_granted, post_api_key,
  revoked_or_absent, of_tenant, delete_api_key,
}
use product_intelligence.Enterprise.AuthLaws.{
  new_key_of, get_by_prefix-save_key, get_by_prefix-append,
}
use product_intelligence.Enterprise.Revocation.{IsRevoked, IsRevoked-congr}

-- Who may issue which role.
all_granted-rank :
    (role caller : Role)
    → all_granted (role_permissions role) caller ≡ true
    → rank role ≤ rank caller
unfolding role_has_permission
all_granted-rank viewer caller h = omega arith
all_granted-rank role owner h = ground arith
all_granted-rank member viewer h = ground arith
all_granted-rank member member h = ground arith
all_granted-rank member admin h = ground arith
all_granted-rank admin viewer h = absurd (cc)
all_granted-rank admin member h = absurd (cc)
all_granted-rank admin admin h = ground arith
all_granted-rank owner viewer h = absurd (cc)
all_granted-rank owner member h = absurd (cc)
all_granted-rank owner admin h = absurd (cc)

module _ {S V : Type 0} (b : Backend S V) where
  -- The caller whom `require_permission` lets pass.
  abbrev pub IsCaller : Permission → (header : Option Text) → S → AuthContext → Type 0
  IsCaller permission header s context =
      (authenticate b header s ≡ ok context) × (role_has_permission context.role permission ≡ true)

  require_permission-IsCaller :
      (permission : Permission) (header : Option Text) (s : S)
      → Ensures (IsCaller permission header s) (require_permission b permission header s)
  unfolding require_permission
  require_permission-IsCaller permission header s =
      Ensures->>= (Ensures-self (authenticate b header s)) (λ context e.
        Ensures-unless (role_has_permission context.role permission) authorization
          (λ h. returns (e, h)))

  -- A key as the caller may issue it.
  abbrev pub IsIssuedBy : AuthContext → ApiKey → Type 0
  IsIssuedBy context k =
      (k.organization_id ≡ context.organization_id)
      × (k.tenant_id ≡ context.tenant_id)
      × (rank k.role ≤ rank context.role)

  create_api_key-Ensures :
      (token : Text) (fresh : Fresh) (organization_id tenant_id : ℕ) (name : Text) (role : Role)
      (s : S)
      → Ensures
          (λ (x : S × ApiKeyCreation).
            x.1.api_key ≡ new_key_of b token fresh organization_id tenant_id name role)
          (create_api_key b token fresh organization_id tenant_id name role s)
  unfolding create_api_key
  create_api_key-Ensures token fresh organization_id tenant_id name role s =
      Ensures-unless
        (is_valid_api_key (new_key_of b token fresh organization_id tenant_id name role))
        validation_error (λ _. returns refl)

  post_api_key-Ensures :
      (header : Option Text) (token : Text) (fresh audit : Fresh) (name : Text) (role : Role)
      (s : S)
      → Ensures
          (λ (x : S × ApiKeyCreation).
            (context : AuthContext) × IsCaller manage_api_keys header s context
            × IsIssuedBy context x.1.api_key)
          (post_api_key b header token fresh audit name role s)
  unfolding post_api_key
  post_api_key-Ensures header token fresh audit name role s =
      Ensures->>= (require_permission-IsCaller manage_api_keys header s) (λ context caller.
        Ensures-unless (all_granted (role_permissions role) context.role) authorization (λ granted.
          Ensures->>=
            (create_api_key-Ensures token fresh context.organization_id context.tenant_id name role
              s)
            (λ created e. returns (
              context,
              caller,
              (
                ap (λ (k : ApiKey). k.organization_id) e,
                ap (λ (k : ApiKey). k.tenant_id) e,
                rw e (all_granted-rank role context.role granted),
              ),
            ))))

  -- No escalation: whenever POST /api-keys answers with a key, the header authenticates a caller who
  -- may manage API keys, and the key is for the caller's own organization and tenant and of a role that
  -- is no higher than the caller's.
  pub post_api_key-IsIssuedBy :
      (header : Option Text) (token : Text) (fresh audit : Fresh) (name : Text) (role : Role)
      (s t : S) (made : ApiKeyCreation)
      → post_api_key b header token fresh audit name role s ≡ ok (t, made)
      → (context : AuthContext) × IsCaller manage_api_keys header s context
        × IsIssuedBy context made.api_key
  post_api_key-IsIssuedBy header token fresh audit name role s t made e =
      Ensures-ok (post_api_key-Ensures header token fresh audit name role s) e

  -- A key that was there and is the caller's, and that is revoked in the store.
  abbrev pub RevokedFor : (context : AuthContext) → (prefix : Text) → S → S × ApiKey → Type 0
  RevokedFor context prefix s x =
      (k : ApiKey) × (get_by_prefix b prefix s ≡ ok (some k))
      × (k.tenant_id ≡ context.tenant_id)
      × (x.1 ≡ revoked_copy k)
      × IsRevoked b k.prefix x.0

  module _ (laws : IsBackend b) where
    save_key-IsRevoked : (k : ApiKey) (s : S) → IsRevoked b k.prefix (save_key b (revoked_copy k) s)
    save_key-IsRevoked k s =
        (revoked_copy k, get_by_prefix-save_key b laws (revoked_copy k) s, refl)

    revoke-RevokedFor :
        (context : AuthContext) (prefix : Text) (s : S) (existing : Option ApiKey)
        → get_by_prefix b prefix s ≡ ok existing
        → of_tenant context.tenant_id existing ≡ true
        → Ensures (RevokedFor context prefix s) (revoke b prefix s >>= revoked_or_absent)
    unfolding revoke
    revoke-RevokedFor context prefix s none e own = absurd (cc)
    revoke-RevokedFor context prefix s (some k) e own =
        rw e (
          returns
            (k, e, (==_iff k.tenant_id context.tenant_id).0 own, refl, save_key-IsRevoked k s))

    delete_api_key-Ensures :
        (header : Option Text) (audit : Fresh) (prefix : Text) (s : S)
        → Ensures
            (λ (x : S × ApiKey).
              (context : AuthContext) × IsCaller manage_api_keys header s context
              × RevokedFor context prefix s x)
            (delete_api_key b header audit prefix s)
    unfolding delete_api_key
    delete_api_key-Ensures header audit prefix s =
        Ensures->>= (require_permission-IsCaller manage_api_keys header s) (λ context caller.
          Ensures->>= (Ensures-self (get_by_prefix b prefix s)) (λ existing e.
            Ensures-unless (of_tenant context.tenant_id existing) not_found (λ own.
              Ensures->>= (revoke-RevokedFor context prefix s existing e own)
                (λ x (k, found, tenant, same, gone). returns (
                  context,
                  caller,
                  (
                    k,
                    found,
                    tenant,
                    same,
                    IsRevoked-congr b k.prefix x.0 _ (get_by_prefix-append b laws k.prefix _ x.0)
                        gone,
                  ),
                )))))

    -- Tenants are isolated: whenever DELETE /api-keys/{prefix} answers, the header authenticates a
    -- caller who may manage API keys, the key under the prefix was one of the caller's own tenant,
    -- the answer is that key with `revoked` set, and the store holds it revoked.
    pub delete_api_key-RevokedFor :
        (header : Option Text) (audit : Fresh) (prefix : Text) (s t : S) (k : ApiKey)
        → delete_api_key b header audit prefix s ≡ ok (t, k)
        → (context : AuthContext) × IsCaller manage_api_keys header s context
          × RevokedFor context prefix s (t, k)
    delete_api_key-RevokedFor header audit prefix s t k e =
        Ensures-ok (delete_api_key-Ensures header audit prefix s) e
