-- ===== src/Enterprise/Examples.antt =====
-- The theorems on the enterprise layer at concrete requests, on the server in memory.
use product_intelligence.Base.{ℕ, ◌≡◌, refl, Option, none, some, List, [], ◌∷◌, take, arith}
use product_intelligence.Base.Result.{ok, err}
use product_intelligence.Text.Strings.{Text, codes}
use product_intelligence.Enterprise.Role.{
  owner, member, viewer, role_has_permission, manage_api_keys,
}
use product_intelligence.Enterprise.Models.{
  authentication, authorization, quota_exceeded, ApiKey, ApiKeyCreation, AuthContext, AuditEvent,
}
use product_intelligence.Enterprise.Keys.{
  generate_raw_key, key_prefix, save_key, create, get_by_prefix, revoke, revoked_copy,
}
use product_intelligence.Enterprise.Audit.{append, list_for_tenant}
use product_intelligence.Enterprise.Auth.{
  Fresh, event_of, context_of, authenticate, create_api_key, require_permission, post_api_key,
  delete_api_key,
}
use product_intelligence.Enterprise.Limits.{QuotaSettings, hit, enforce_quota}
use product_intelligence.Enterprise.AuthLaws.{new_key_of, create_api_key-authenticate}
use product_intelligence.Enterprise.Revocation.{IsRevoked, posted, here, next, authenticate-Reach}
use product_intelligence.Enterprise.Routes.{
  IsCaller, IsIssuedBy, post_api_key-IsIssuedBy, RevokedFor, delete_api_key-RevokedFor,
}
use product_intelligence.Enterprise.LimitsLaws.{serve}
use product_intelligence.Enterprise.AuditLaws.{append_all, newest_first, list_for_tenant-append_all}
use product_intelligence.Enterprise.Memory.{Memory, server, server-IsBackend, fresh_memory}

abbrev at : ℕ → Fresh
at n = record { id = n; now = n }

abbrev owner_key : ApiKey
owner_key = new_key_of server (codes "ownertoken") (at 1) 7 8 (codes "owner") owner

abbrev member_key : ApiKey
member_key = new_key_of server (codes "membertoken") (at 2) 7 8 (codes "ci") member

abbrev owner_header : Option Text
owner_header = some (generate_raw_key (codes "ownertoken"))

abbrev member_header : Option Text
member_header = some (generate_raw_key (codes "membertoken"))

abbrev founded : Memory
founded = create server owner_key fresh_memory

abbrev hired : Memory
hired =
    append server
      (event_of (at 3) (context_of owner_key) (codes "create_api_key") member_key.prefix
        ((codes "role", codes "member") ∷ []))
      (create server member_key founded)

abbrev hired_key : ApiKeyCreation
hired_key = record { api_key = member_key; key = generate_raw_key (codes "membertoken") }

hires :
    post_api_key server owner_header (codes "membertoken") (at 2) (at 3) (codes "ci") member founded
    ≡ ok (hired, hired_key)
unfolding post_api_key create_api_key require_permission authenticate get_by_prefix create save_key
    append role_has_permission
hires = refl

post_api_key-IsIssuedBy_example :
    (context : AuthContext) × IsCaller server manage_api_keys owner_header founded context
    × IsIssuedBy server context member_key
post_api_key-IsIssuedBy_example =
    post_api_key-IsIssuedBy server owner_header (codes "membertoken") (at 2) (at 3) (codes "ci")
      member founded hired hired_key hires

-- A member may not issue keys, and an admin no key of an owner.
member_is_refused :
    post_api_key server member_header (codes "third") (at 4) (at 5) (codes "x") viewer hired
    ≡ err authorization
unfolding post_api_key create_api_key require_permission authenticate get_by_prefix create save_key
    append role_has_permission
member_is_refused = refl

create_api_key-authenticate_example :
    (t : Memory) × (made : ApiKeyCreation) × (create_api_key server
        (codes "membertoken")
        (at 2)
        7
        8
        (codes "ci")
        member
        founded
      ≡ ok (t, made))
    × (authenticate server (some made.key) t
        ≡ ok (record {
          organization_id = 7;
          tenant_id = 8;
          role = member;
          api_key_id = 2;
          api_key_prefix = key_prefix made.key;
        }))
    × (get_by_prefix server owner_key.prefix t ≡ get_by_prefix server owner_key.prefix founded)
create_api_key-authenticate_example =
    create_api_key-authenticate server server-IsBackend (codes "membertoken") (at 2) 7 8
      (codes "ci") member founded owner_key.prefix (omega arith) (omega arith) (λ e. ground arith)

abbrev fired : Memory
fired =
    append server
      (event_of (at 6) (context_of owner_key) (codes "revoke_api_key") member_key.prefix [])
      (save_key server (revoked_copy member_key) hired)

fires :
    delete_api_key server owner_header (at 6) member_key.prefix hired
    ≡ ok (fired, revoked_copy member_key)
unfolding delete_api_key require_permission authenticate get_by_prefix create save_key append revoke
    role_has_permission
fires = refl

delete_api_key-RevokedFor_example :
    (context : AuthContext) × IsCaller server manage_api_keys owner_header hired context
    × RevokedFor server context member_key.prefix hired (fired, revoked_copy member_key)
delete_api_key-RevokedFor_example =
    delete_api_key-RevokedFor server server-IsBackend owner_header (at 6) member_key.prefix hired
      fired (revoked_copy member_key) fires

fired-IsRevoked : IsRevoked server member_key.prefix fired
unfolding get_by_prefix create save_key append
fired-IsRevoked = (revoked_copy member_key, refl, refl)

abbrev later : Memory
later =
    append server
      (event_of (at 8) (context_of owner_key) (codes "create_api_key")
        (key_prefix (generate_raw_key (codes "othertoken"))) ((codes "role", codes "viewer") ∷ []))
      (create server (new_key_of server (codes "othertoken") (at 7) 7 8 (codes "ro") viewer) fired)

hires_again :
    post_api_key server owner_header (codes "othertoken") (at 7) (at 8) (codes "ro") viewer fired
    ≡ ok (
      later,
      record {
        api_key = new_key_of server (codes "othertoken") (at 7) 7 8 (codes "ro") viewer;
        key = generate_raw_key (codes "othertoken");
      },
    )
unfolding post_api_key create_api_key require_permission authenticate get_by_prefix create save_key
    append role_has_permission
hires_again = refl

authenticate-Reach_example : authenticate server member_header later ≡ err authentication
authenticate-Reach_example =
    authenticate-Reach server server-IsBackend member_key.prefix
      (generate_raw_key (codes "membertoken")) fired-IsRevoked
      (next here (
        posted owner_header (codes "othertoken") (codes "ro") (at 7) (at 8) viewer fired later _
          (λ e. ground arith) hires_again))
      refl

abbrev limits : QuotaSettings
limits = record { daily_request_quota = 3; rate_limit_per_minute = 0 }

-- Two requests of the tenant on one day, one of another tenant, and then a third of the tenant.
abbrev traffic : List (AuthContext × ℕ)
traffic =
    (context_of owner_key, 10)
    ∷ (context_of (new_key_of server (codes "z") (at 9) 7 9 (codes "z") viewer), 10)
    ∷ (context_of member_key, 11)
    ∷ []

-- The third passes and a fourth does not.
third_passes :
    (enforce_quota server limits
      (context_of owner_key)
      12
      (serve server limits traffic fresh_memory)).1
    ≡ ok (context_of owner_key)
unfolding enforce_quota hit
third_passes = refl

fourth_fails :
    (enforce_quota server limits
      (context_of owner_key)
      12
      (serve server limits ((context_of owner_key, 9) ∷ traffic) fresh_memory)).1
    ≡ err quota_exceeded
unfolding enforce_quota hit
fourth_fails = refl

abbrev event : ℕ → ℕ → AuditEvent
event id tenant_id = record {
  id = id;
  tenant_id = tenant_id;
  actor = codes "pik_ownertok";
  action = codes "create_api_key";
  resource = none;
  metadata = [];
  created_at = id;
}

list_for_tenant-append_all_example :
    list_for_tenant server 8 2
      (append_all server (event 1 8 ∷ event 2 9 ∷ event 3 8 ∷ event 4 8 ∷ []) fresh_memory)
    ≡ ok (take 2 (newest_first 8 (event 1 8 ∷ event 2 9 ∷ event 3 8 ∷ event 4 8 ∷ []) []))
list_for_tenant-append_all_example =
    list_for_tenant-append_all server server-IsBackend 8 2 []
      (event 1 8 ∷ event 2 9 ∷ event 3 8 ∷ event 4 8 ∷ []) fresh_memory (omega arith) (omega arith)
      refl

newest_two :
    newest_first 8 (event 1 8 ∷ event 2 9 ∷ event 3 8 ∷ event 4 8 ∷ []) []
    ≡ event 4 8 ∷ event 3 8 ∷ event 1 8 ∷ []
newest_two = refl
