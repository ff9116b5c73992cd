-- ===== src/Enterprise/Accounts.antt =====
-- Organizations and tenants: backend/app/repositories/organization_repository.py, the open route that
-- bootstraps an organization (api/enterprise.py) and services/enterprise/tenant_scope.py.
use product_intelligence.Base.{
  ℕ, Bool, ◌&&◌, Option, none, some, List, [], ◌∷◌, ◌++◌, length, leb, if◌then◌else◌,
}
use product_intelligence.Base.Result.{Result, ok, err, ◌>>=◌}
use product_intelligence.Text.Strings.{Text, codes, is_empty}
use product_intelligence.Enterprise.Role.{owner}
use product_intelligence.Enterprise.Models.{
  EnterpriseError, validation_error, ApiKeyCreation, Organization, Tenant,
}
use product_intelligence.Enterprise.Redis.{Uuids, Backend}
use product_intelligence.Enterprise.Keys.{validated}
use product_intelligence.Enterprise.Auth.{Fresh, create_api_key}

abbrev pub org_key : Uuids → (organization_id : ℕ) → Text
org_key u organization_id = codes "organization:" ++ u.str organization_id

abbrev pub tenant_key : Uuids → (tenant_id : ℕ) → Text
tenant_key u tenant_id = codes "tenant:" ++ u.str tenant_id

abbrev pub org_tenants_key : Uuids → (organization_id : ℕ) → Text
org_tenants_key u organization_id =
    codes "organization:" ++ (u.str organization_id ++ codes ":tenants")

-- The bounds that `Organization` and `Tenant` declare on a name.
abbrev pub is_valid_name : Text → Bool
is_valid_name name = leb 1 (length name) && leb (length name) 200

module _ {S V : Type 0} (b : Backend S V) where
  unfoldable pub save_tenant : Tenant → S → S
  save_tenant tenant s =
      b.redis.sadd (org_tenants_key b.uuids tenant.organization_id) (b.uuids.str tenant.id)
        (b.redis.set (tenant_key b.uuids tenant.id) (b.tenants.dump tenant) s)

  unfoldable pub create_organization :
      (fresh default_fresh : Fresh)
      → (name : Text) → S
      → Result EnterpriseError (S × (Organization × Tenant))
  unfolding save_tenant
  create_organization fresh default_fresh name s =
      let organization : Organization = record {
        id = fresh.id;
        name = name;
        created_at = fresh.now;
      } in
      let tenant : Tenant = record {
        id = default_fresh.id;
        organization_id = fresh.id;
        name = codes "default";
        created_at = default_fresh.now;
      } in
      if is_valid_name name
      then ok (
        save_tenant tenant (
            b.redis.sadd (codes "organizations") (b.uuids.str organization.id) (
              b.redis.set (org_key b.uuids organization.id) (b.organizations.dump organization) s)),
        (organization, tenant),
      )
      else err validation_error

  unfoldable pub get_organization :
      (organization_id : ℕ) → S → Result EnterpriseError (Option Organization)
  get_organization organization_id s =
      validated b.organizations (b.redis.get (org_key b.uuids organization_id) s)

  -- The loop of `list_organizations`; an id without a record is skipped.
  abbrev pub found_organizations : List Text → S → Result EnterpriseError (List Organization)
  unfolding get_organization
  found_organizations [] s = ok []
  found_organizations (org_id ∷ ids) s = do
    organization ← get_organization (b.uuids.parse org_id) s
    organizations ← found_organizations ids s
    ok (elim organization [ none ↦ organizations | some o ↦ o ∷ organizations ])

  unfoldable pub list_organizations : S → Result EnterpriseError (List Organization)
  list_organizations s = found_organizations (b.redis.smembers (codes "organizations") s) s

  unfoldable pub create_tenant :
      Fresh → (organization_id : ℕ) → (name : Text) → S → Result EnterpriseError (S × Tenant)
  unfolding save_tenant
  create_tenant fresh organization_id name s =
      let tenant : Tenant = record {
        id = fresh.id;
        organization_id = organization_id;
        name = name;
        created_at = fresh.now;
      } in
      if is_valid_name name then ok (save_tenant tenant s, tenant) else err validation_error

  unfoldable pub get_tenant : (tenant_id : ℕ) → S → Result EnterpriseError (Option Tenant)
  get_tenant tenant_id s = validated b.tenants (b.redis.get (tenant_key b.uuids tenant_id) s)

  -- The loop of `list_tenants`.
  abbrev pub found_tenants : List Text → S → Result EnterpriseError (List Tenant)
  unfolding get_tenant
  found_tenants [] s = ok []
  found_tenants (tenant_id ∷ ids) s = do
    tenant ← get_tenant (b.uuids.parse tenant_id) s
    tenants ← found_tenants ids s
    ok (elim tenant [ none ↦ tenants | some t ↦ t ∷ tenants ])

  unfoldable pub list_tenants : (organization_id : ℕ) → S → Result EnterpriseError (List Tenant)
  list_tenants organization_id s =
      found_tenants (b.redis.smembers (org_tenants_key b.uuids organization_id) s) s

  -- POST /organizations
  unfoldable pub post_organization :
      (fresh default_fresh key_fresh : Fresh)
      → (token name : Text) → S
      → Result EnterpriseError (S × (Organization × Tenant × ApiKeyCreation))
  unfolding create_organization create_api_key
  post_organization fresh default_fresh key_fresh token name s = do
    made ← create_organization fresh default_fresh name s
    created ← create_api_key b token key_fresh made.1.0.id made.1.1.id (codes "owner") owner made.0
    ok (created.0, (made.1.0, made.1.1, created.1))

-- TenantScope.
pub record TenantScope : Type 0 where
  pub tenant_id : ℕ
  pub collection_prefix : Text

unfoldable pub collection_name : Uuids → TenantScope → (base : Text) → Text
collection_name u scope base =
    scope.collection_prefix ++ (codes "_" ++ (u.str scope.tenant_id ++ (codes "_" ++ base)))

-- `":".join(parts)`
abbrev pub join_colon : List Text → Text
join_colon [] = []
join_colon (part ∷ []) = part
join_colon (part ∷ q ∷ parts) = part ++ (codes ":" ++ join_colon (q ∷ parts))

unfoldable pub redis_namespace : Uuids → TenantScope → (parts : List Text) → Text
redis_namespace u scope parts =
    let suffix = join_colon parts in
    let base = codes "tenant:" ++ u.str scope.tenant_id in
    if is_empty suffix then base else base ++ (codes ":" ++ suffix)
