-- ===== src/Enterprise/Models.antt =====
-- backend/app/models: api_key.py, auth_context.py, organization.py and audit_event.py, the records of the
-- enterprise layer. A UUID, and a point in time, is a number.
use product_intelligence.Base.{ℕ, Bool, Option, List}
use product_intelligence.Text.Strings.{Text}
use product_intelligence.Enterprise.Role.{Role}

pub data EnterpriseError : Type 0 where
  authentication authorization quota_exceeded not_found validation_error assertion_error :
      EnterpriseError

pub record ApiKey : Type 0 where
  pub id : ℕ
  pub organization_id : ℕ
  pub tenant_id : ℕ
  pub name : Text
  pub role : Role
  pub prefix : Text
  pub key_hash : Text
  pub revoked : Bool
  pub created_at : ℕ

pub record ApiKeyCreation : Type 0 where
  pub api_key : ApiKey
  pub key : Text

pub record AuthContext : Type 0 where
  pub organization_id : ℕ
  pub tenant_id : ℕ
  pub role : Role
  pub api_key_id : ℕ
  pub api_key_prefix : Text

pub record Organization : Type 0 where
  pub id : ℕ
  pub name : Text
  pub created_at : ℕ

pub record Tenant : Type 0 where
  pub id : ℕ
  pub organization_id : ℕ
  pub name : Text
  pub created_at : ℕ

pub record AuditEvent : Type 0 where
  pub id : ℕ
  pub tenant_id : ℕ
  pub actor : Text
  pub action : Text
  pub resource : Option Text
  pub metadata : List (Text × Text)
  pub created_at : ℕ
