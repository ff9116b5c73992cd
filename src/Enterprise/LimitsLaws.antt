-- ===== src/Enterprise/LimitsLaws.antt =====
-- The counters of the quotas are exact, and each tenant has its own.
use product_intelligence.Base.{
  ℕ, ◌+◌, ◌≤◌, ◌≡◌, ◌⊎◌, Bool, ◌&&◌, List, [], ◌∷◌, ◌==◌, if◌then◌else◌,
}
use product_intelligence.Text.Strings.{Text, text_eq}
use product_intelligence.Enterprise.Models.{AuthContext}
use product_intelligence.Enterprise.Redis.{Backend, IsBackend, int_or_zero}
use product_intelligence.Enterprise.Limits.{QuotaSettings, minute_key, enforce_quota}

-- A window of the clock: the day or the minute of a point in time.
abbrev pub same_window : (ℕ → Text) → (tenant now tenant' now' : ℕ) → Bool
same_window window tenant now tenant' now' = tenant == tenant' && text_eq (window now) (window now')

-- How many requests of the tenant fall in the window of `now`.
abbrev pub served : (ℕ → Text) → (tenant now : ℕ) → List (AuthContext × ℕ) → ℕ
served window tenant now [] = 0
served window tenant now ((context, at) ∷ requests) =
    (if same_window window tenant now context.tenant_id at then 1 else 0)
    + served window tenant now requests

-- A limit of 0 is no limit.
abbrev pub Allows : (limit count : ℕ) → Type 0
Allows limit count = (limit ≡ 0) ⊎ (count ≤ limit)

module _ {S V : Type 0} (b : Backend S V) where
  -- What the key of the minute holds.
  abbrev pub minute_usage : (tenant now : ℕ) → S → ℕ
  minute_usage tenant now s = int_or_zero b.int (b.redis.get (minute_key b tenant now) s)

  -- The requests are guarded one after the other.
  abbrev pub serve : QuotaSettings → List (AuthContext × ℕ) → S → S
  serve limits [] s = s
  serve limits ((context, at) ∷ requests) s =
      serve limits requests (enforce_quota b limits context at s).0

  module _ (laws : IsBackend b) where
    abbrev value : Text → S → ℕ
    value k s = int_or_zero b.int (b.redis.get k s)
