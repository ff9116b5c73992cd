-- ===== src/Enterprise/Revocation.antt =====
-- Revocation over the life of the service: the requests that write are the steps of a relation.
use product_intelligence.Base.{
  ℕ, ◌≡◌, ◌≢◌, refl, ◌∙◌, ap, inl, inr, true, Option, none, some, arith,
}
use product_intelligence.Base.Result.{
  ok, err, Ensures, returns, raises, Ensures->>=, Ensures-after, Ensures-ok, Ensures-if,
}
use product_intelligence.Text.Strings.{Text, codes}
use product_intelligence.Enterprise.Role.{Role, role_permissions, manage_api_keys, owner}
use product_intelligence.Enterprise.Models.{
  authentication, ApiKey, ApiKeyCreation, AuthContext, Organization, Tenant,
}
use product_intelligence.Enterprise.Redis.{Backend, IsBackend}
use product_intelligence.Enterprise.Keys.{
  is_valid_api_key, generate_raw_key, key_prefix, prefix_key, save_key, get_by_prefix, revoke,
  revoked_copy,
}
use product_intelligence.Enterprise.Auth.{
  Fresh, authenticate, create_api_key, require_permission, all_granted, post_api_key,
  revoked_or_absent, of_tenant, delete_api_key,
}
use product_intelligence.Enterprise.Accounts.{
  is_valid_name, org_key, tenant_key, org_tenants_key, save_tenant, create_organization,
  create_tenant, post_organization,
}
use product_intelligence.Enterprise.Limits.{
  QuotaSettings, daily_key, minute_key, hit, enforce_quota,
}
use product_intelligence.Enterprise.KeySpace.{Text-cases, prefix_key-ne}
use product_intelligence.Enterprise.AuthLaws.{
  new_key_of, get_by_prefix-save_key, get_by_prefix-save_key_ne, get_by_prefix_congr,
  get_by_prefix-create_ne, get_by_prefix-append,
}

module _ {S V : Type 0} (b : Backend S V) where
  -- The record under the prefix is there, and revoked.
  abbrev pub IsRevoked : (p : Text) → S → Type 0
  IsRevoked p s = (k : ApiKey) × (get_by_prefix b p s ≡ ok (some k)) × (k.revoked ≡ true)

  -- A request that writes, and that issues no key with the prefix `p`.
  pub data Step (p : Text) : S → S → Type 0 where
    posted :
        (header : Option Text) (token name : Text) (fresh audit : Fresh) (role : Role) (s t : S)
        (made : ApiKeyCreation)
        → p ≢ key_prefix (generate_raw_key token)
        → post_api_key b header token fresh audit name role s ≡ ok (t, made)
        → Step p s t
    deleted :
        (header : Option Text) (audit : Fresh) (prefix : Text) (s t : S) (k : ApiKey)
        → delete_api_key b header audit prefix s ≡ ok (t, k)
        → Step p s t
    bootstrapped :
        (fresh default_fresh key_fresh : Fresh) (token name : Text) (s t : S)
        (made : Organization × Tenant × ApiKeyCreation)
        → p ≢ key_prefix (generate_raw_key token)
        → post_organization b fresh default_fresh key_fresh token name s ≡ ok (t, made)
        → Step p s t
    tenant_created :
        (fresh : Fresh) (organization_id : ℕ) (name : Text) (s t : S) (tenant : Tenant)
        → create_tenant b fresh organization_id name s ≡ ok (t, tenant)
        → Step p s t
    counted :
        (limits : QuotaSettings) (context : AuthContext) (now : ℕ) (s t : S)
        → t ≡ (enforce_quota b limits context now s).0
        → Step p s t

  pub data Reach (p : Text) (s : S) : S → Type 0 where
    here : Reach p s s
    next : {t u : S} → Reach p s t → Step p t u → Reach p s u

  -- Only the record under the prefix counts.
  pub IsRevoked-congr :
      (p : Text) (s t : S)
      → get_by_prefix b p t ≡ get_by_prefix b p s
      → IsRevoked p s
      → IsRevoked p t
  IsRevoked-congr p s t e (k, found, revoked) = (k, e ∙ found, revoked)

  module _ (laws : IsBackend b) (p : Text) where
    abbrev Kept : {A : Type 0} → S → S × A → Type 0
    Kept s x = get_by_prefix b p x.0 ≡ get_by_prefix b p s

    abbrev Revoked : {A : Type 0} → S × A → Type 0
    Revoked x = IsRevoked p x.0

    create_api_key-Kept :
        (token : Text) (fresh : Fresh) (organization_id tenant_id : ℕ) (name : Text) (role : Role)
        (s : S)
        → p ≢ key_prefix (generate_raw_key token)
        → Ensures (Kept s) (create_api_key b token fresh organization_id tenant_id name role s)
    unfolding create_api_key
    create_api_key-Kept token fresh organization_id tenant_id name role s ne =
        let k = new_key_of b token fresh organization_id tenant_id name role in
        Ensures-if (is_valid_api_key k) (returns (get_by_prefix-create_ne b laws k p s ne)) raises

    post_api_key-Kept :
        (header : Option Text) (token : Text) (fresh audit : Fresh) (name : Text) (role : Role)
        (s : S)
        → p ≢ key_prefix (generate_raw_key token)
        → Ensures (Kept s) (post_api_key b header token fresh audit name role s)
    unfolding post_api_key
    post_api_key-Kept header token fresh audit name role s ne =
        Ensures-after (require_permission b manage_api_keys header s) (λ context.
          Ensures-if (all_granted (role_permissions role) context.role)
            (Ensures->>=
              (create_api_key-Kept token fresh context.organization_id context.tenant_id name role s
                ne)
              (λ created same. returns (get_by_prefix-append b laws p _ created.0 ∙ same)))
            raises)

    save_key-IsRevoked :
        (k : ApiKey) (s : S) → IsRevoked p s → IsRevoked p (save_key b (revoked_copy k) s)
    save_key-IsRevoked k s r = elim (Text-cases p k.prefix) [
      | inl same ↦ (
        revoked_copy k,
        ap (λ (q : Text). get_by_prefix b q (save_key b (revoked_copy k) s)) same
            ∙ get_by_prefix-save_key b laws (revoked_copy k) s,
        refl,
      )
      | inr differ ↦
          IsRevoked-congr p s _ (get_by_prefix-save_key_ne b laws (revoked_copy k) p s differ) r
    ]

    revoke-IsRevoked : (prefix : Text) (s : S) → IsRevoked p s → Ensures Revoked (revoke b prefix s)
    unfolding revoke
    revoke-IsRevoked prefix s r = Ensures-after (get_by_prefix b prefix s) (λ o.
        returns
          (elim o
            as (λ o. Revoked {A = Option ApiKey} (elim o [
              | none ↦ (s, none)
              | some k ↦ (save_key b (revoked_copy k) s, some (revoked_copy k))
            ])) [ none ↦ r | some k ↦ save_key-IsRevoked k s r ]))

    revoked_or_absent-Revoked :
        (x : S × Option ApiKey) → Revoked x → Ensures Revoked (revoked_or_absent x)
    revoked_or_absent-Revoked (s, none) h = raises
    revoked_or_absent-Revoked (s, some k) h = returns h

    delete_api_key-IsRevoked :
        (header : Option Text) (audit : Fresh) (prefix : Text) (s : S)
        → IsRevoked p s
        → Ensures Revoked (delete_api_key b header audit prefix s)
    unfolding delete_api_key
    delete_api_key-IsRevoked header audit prefix s r =
        Ensures-after (require_permission b manage_api_keys header s) (λ context.
          Ensures-after (get_by_prefix b prefix s) (λ existing.
            Ensures-if (of_tenant context.tenant_id existing)
              (Ensures->>= (Ensures->>= (revoke-IsRevoked prefix s r) revoked_or_absent-Revoked)
                (λ x h. returns (IsRevoked-congr p x.0 _ (get_by_prefix-append b laws p _ x.0) h)))
              raises))

    save_tenant-kept :
        (tenant : Tenant) (s : S) → get_by_prefix b p (save_tenant b tenant s) ≡ get_by_prefix b p s
    unfolding save_tenant
    save_tenant-kept tenant s = get_by_prefix_congr b laws p s _ (
        laws.redis.get-sadd (org_tenants_key b.uuids tenant.organization_id) (prefix_key p) _ _
          (prefix_key-ne p _ 111 (omega arith))
        ∙ laws.redis.get-set_ne (tenant_key b.uuids tenant.id) (prefix_key p) _ s
            (prefix_key-ne p _ 116 (omega arith)))

    create_organization-Kept :
        (fresh default_fresh : Fresh) (name : Text) (s : S)
        → Ensures (Kept s) (create_organization b fresh default_fresh name s)
    unfolding create_organization
    create_organization-Kept fresh default_fresh name s =
        Ensures-if (is_valid_name name)
          (returns (
            save_tenant-kept _ _
            ∙ get_by_prefix_congr b laws p s _ (
                laws.redis.get-sadd (codes "organizations") (prefix_key p) _ _
                  (prefix_key-ne p _ 111 (omega arith))
                ∙ laws.redis.get-set_ne (org_key b.uuids fresh.id) (prefix_key p) _ s
                    (prefix_key-ne p _ 111 (omega arith)))))
          raises

    post_organization-Kept :
        (fresh default_fresh key_fresh : Fresh) (token name : Text) (s : S)
        → p ≢ key_prefix (generate_raw_key token)
        → Ensures (Kept s) (post_organization b fresh default_fresh key_fresh token name s)
    unfolding post_organization
    post_organization-Kept fresh default_fresh key_fresh token name s ne =
        Ensures->>= (create_organization-Kept fresh default_fresh name s) (λ made same.
          Ensures->>=
            (create_api_key-Kept token key_fresh made.1.0.id made.1.1.id (codes "owner") owner
              made.0 ne)
            (λ created kept. returns (kept ∙ same)))

    create_tenant-Kept :
        (fresh : Fresh) (organization_id : ℕ) (name : Text) (s : S)
        → Ensures (Kept s) (create_tenant b fresh organization_id name s)
    unfolding create_tenant
    create_tenant-Kept fresh organization_id name s =
        Ensures-if (is_valid_name name) (returns (save_tenant-kept _ s)) raises

    enforce_quota-kept :
        (limits : QuotaSettings) (context : AuthContext) (now : ℕ) (s : S)
        → get_by_prefix b p (enforce_quota b limits context now s).0 ≡ get_by_prefix b p s
    unfolding enforce_quota hit
    enforce_quota-kept limits context now s = get_by_prefix_congr b laws p s _ (
        laws.redis.get-expire (minute_key b context.tenant_id now) (prefix_key p) _ _
        ∙ laws.redis.get-incr_ne (minute_key b context.tenant_id now) (prefix_key p) _
            (prefix_key-ne p _ 113 (omega arith))
        ∙ laws.redis.get-expire (daily_key b context.tenant_id now) (prefix_key p) _ _
        ∙ laws.redis.get-incr_ne (daily_key b context.tenant_id now) (prefix_key p) s
            (prefix_key-ne p _ 113 (omega arith)))

    Step-IsRevoked : {s t : S} → Step p s t → IsRevoked p s → IsRevoked p t
    Step-IsRevoked {s} {t} (posted header token name fresh audit role _ _ made ne e) r =
        IsRevoked-congr p s t
          (Ensures-ok (post_api_key-Kept header token fresh audit name role s ne) e) r
    Step-IsRevoked {s} {t} (deleted header audit prefix _ _ k e) r =
        Ensures-ok (delete_api_key-IsRevoked header audit prefix s r) e
    Step-IsRevoked {s} {t} (bootstrapped fresh default_fresh key_fresh token name _ _ made ne e) r =
        IsRevoked-congr p s t
          (Ensures-ok (post_organization-Kept fresh default_fresh key_fresh token name s ne) e) r
    Step-IsRevoked {s} {t} (tenant_created fresh organization_id name _ _ tenant e) r =
        IsRevoked-congr p s t (Ensures-ok (create_tenant-Kept fresh organization_id name s) e) r
    Step-IsRevoked {s} {t} (counted limits context now _ _ e) r =
        IsRevoked-congr p s t
          (ap (λ (x : S). get_by_prefix b p x) e ∙ enforce_quota-kept limits context now s) r

    Reach-IsRevoked : {s t : S} → Reach p s t → IsRevoked p s → IsRevoked p t
    Reach-IsRevoked here r = r
    Reach-IsRevoked (next reached st) r = Step-IsRevoked st (Reach-IsRevoked reached r)

    -- A revoked key stays revoked: after any number of requests that write (keys posted or deleted,
    -- organizations and tenants created, requests counted) none of which issues a key with the same
    -- prefix, no raw key with this prefix authenticates. The prefix is that of the raw key that was
    -- revoked.
    pub authenticate-Reach :
        {s t : S} (raw_key : Text)
        → IsRevoked p s
        → Reach p s t
        → key_prefix raw_key ≡ p
        → authenticate b (some raw_key) t ≡ err authentication
    unfolding authenticate
    authenticate-Reach {s} {t} raw_key r reached e =
        let (k, found, revoked) = Reach-IsRevoked reached r in rw (e, found, revoked) (ground arith)
