-- ===== src/Enterprise/Audit.antt =====
-- backend/app/repositories/audit_repository.py: the log of each tenant. Logging is not modelled.
use product_intelligence.Base.{ℕ, suc, zero, ◌-◌, none, some, List, [], ◌∷◌, ◌++◌}
use product_intelligence.Base.Result.{Result, ok, err, ◌>>=◌}
use product_intelligence.Text.Strings.{Text, codes}
use product_intelligence.Enterprise.Models.{EnterpriseError, validation_error, AuditEvent}
use product_intelligence.Enterprise.Redis.{Uuids, Backend, ℤ, pos, negsuc}

abbrev pub max_events_per_tenant : ℕ
max_events_per_tenant = 1000

abbrev pub audit_key : Uuids → (tenant_id : ℕ) → Text
audit_key u tenant_id = codes "tenant:" ++ (u.str tenant_id ++ codes ":audit")

-- `limit - 1`
abbrev pub pred_ℤ : ℕ → ℤ
pred_ℤ zero = negsuc 0
pred_ℤ (suc n) = pos n

module _ {S V : Type 0} (b : Backend S V) where
  unfoldable pub append : AuditEvent → S → S
  append event s =
      let key = audit_key b.uuids event.tenant_id in
      b.redis.ltrim key (pos (max_events_per_tenant - 1))
        (b.redis.lpush key (b.events.dump event) s)

  -- `[AuditEvent.model_validate_json(raw) for raw in raw_events]`
  abbrev pub validated_events : List V → Result EnterpriseError (List AuditEvent)
  validated_events [] = ok []
  validated_events (raw ∷ raws) = elim (b.events.validate raw) [
    | none ↦ err validation_error
    | some event ↦ (validated_events raws >>= λ events. ok (event ∷ events))
  ]

  -- A limit that is not negative.
  unfoldable pub list_for_tenant :
      (tenant_id : ℕ) → (limit : ℕ) → S → Result EnterpriseError (List AuditEvent)
  list_for_tenant tenant_id limit s =
      validated_events (b.redis.lrange (audit_key b.uuids tenant_id) (pred_ℤ limit) s)
