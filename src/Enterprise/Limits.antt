-- ===== src/Enterprise/Limits.antt =====
-- Quotas: backend/app/repositories/quota_repository.py and the guard `enforce_quota` of
-- dependencies/enterprise.py, whose `context` is that of `get_auth_context`.
use product_intelligence.Base.{ℕ, ◌*◌, not, ◌&&◌, ◌++◌, ltb, ◌==◌, if◌then◌else◌}
use product_intelligence.Base.Result.{Result, ok, err}
use product_intelligence.Text.Strings.{Text, codes}
use product_intelligence.Enterprise.Models.{EnterpriseError, quota_exceeded, AuthContext}
use product_intelligence.Enterprise.Redis.{Backend, int_or_zero}

abbrev pub daily_ttl_seconds : ℕ
daily_ttl_seconds = 2 * 24 * 60 * 60

abbrev pub minute_ttl_seconds : ℕ
minute_ttl_seconds = 120

-- `settings.enterprise`
pub record QuotaSettings : Type 0 where
  pub daily_request_quota : ℕ
  pub rate_limit_per_minute : ℕ

module _ {S V : Type 0} (b : Backend S V) where
  abbrev pub daily_key : (tenant_id now : ℕ) → Text
  daily_key tenant_id now =
      codes "quota:daily:" ++ (b.uuids.str tenant_id ++ (codes ":" ++ b.day now))

  abbrev pub minute_key : (tenant_id now : ℕ) → Text
  minute_key tenant_id now =
      codes "quota:minute:" ++ (b.uuids.str tenant_id ++ (codes ":" ++ b.minute now))

  unfoldable pub hit : (tenant_id now : ℕ) → S → S × ℕ × ℕ
  hit tenant_id now s =
      let daily = b.redis.incr (daily_key tenant_id now) s in
      let minute =
        b.redis.incr (minute_key tenant_id now)
          (b.redis.expire (daily_key tenant_id now) daily_ttl_seconds daily.0) in
      (b.redis.expire (minute_key tenant_id now) minute_ttl_seconds minute.0, daily.1, minute.1)

  unfoldable pub usage : (tenant_id now : ℕ) → S → ℕ
  usage tenant_id now s = int_or_zero b.int (b.redis.get (daily_key tenant_id now) s)

  -- The request is counted whatever the outcome.
  unfoldable pub enforce_quota :
      QuotaSettings → AuthContext → (now : ℕ) → S → S × Result EnterpriseError AuthContext
  unfolding hit
  enforce_quota limits context now s =
      let counted = hit context.tenant_id now s in
      (
        counted.0,
        if not (limits.daily_request_quota == 0) && ltb limits.daily_request_quota counted.1
            then err quota_exceeded
            else if not (limits.rate_limit_per_minute == 0)
                && ltb limits.rate_limit_per_minute counted.2
            then err quota_exceeded
            else ok context,
      )
