-- ===== src/Analytics/Engine.antt =====
-- backend/app/services/analytics/analytics_engine.py. A date before the first, `date.min` with ordinal 1,
-- raises OverflowError, which is `none`; today is an argument where the code has a default.
use mathlib.Core.Option
use product_intelligence.Base.{
  ℕ, zero, suc, ◌+◌, ◌-◌, ◌*◌, Option, none, some, List, [], ◌∷◌, length, filter_by, ltb, ◌==◌,
  if◌then◌else◌,
}
use product_intelligence.Float.Interface.{Float, Numerics}
use product_intelligence.Text.Strings.{Text}
use product_intelligence.Registry.Models.{
  ModelType, image_embedding, text_embedding, reranker, ModelStatus, ModelInfo, Registry, is_active,
  list_models,
}
use product_intelligence.Analytics.Repository.{
  AnalyticsEvent, upload, duplicate_check, recommendation, search, Server, total, count_range,
  latency_range,
}

infixl 5 ◌>>=◌
abbrev pub ◌>>=◌ : {A B : Type 0} → Option A → (A → Option B) → Option B
none >>= next = none
some a >>= next = next a

pub record UsageMetrics (F : Type 0) : Type 0 where
  pub uploads : ℕ
  pub duplicate_checks : ℕ
  pub recommendations : ℕ
  pub searches : ℕ
  pub average_processing_seconds : F

pub record DashboardSummary (F : Type 0) : Type 0 where
  pub today : UsageMetrics F
  pub window : UsageMetrics F
  pub window_days : ℕ
  pub active_models : ℕ

pub record ModelUsage : Type 0 where
  pub model_type : ModelType
  pub active_model : Option Text
  pub active_version : Option Text
  pub status : Option ModelStatus
  pub registered_versions : ℕ

pub record AnalyticsReport (F : Type 0) : Type 0 where
  pub period : Text
  pub start_date : ℕ
  pub end_date : ℕ
  pub usage : UsageMetrics F

pub record TrendPoint : Type 0 where
  pub period_start : ℕ
  pub value : ℕ

pub data TrendGranularity : Type 0 where
  daily weekly monthly : TrendGranularity

abbrev pub granularity_days : TrendGranularity → ℕ
granularity_days daily = 1
granularity_days weekly = 7
granularity_days monthly = 30

-- `day - timedelta(days=n)`
abbrev pub minus_days : (day n : ℕ) → Option ℕ
minus_days day n = if ltb n day then some (day - n) else none

-- `[end - timedelta(days=offset) for offset in range(n - 1, -1, -1)]`
unfoldable pub last_n_days : (n end : ℕ) → Option (List ℕ)
last_n_days zero end = some []
last_n_days (suc offset) end = do
  day ← minus_days end offset
  days ← last_n_days offset end
  some (day ∷ days)

-- `[start + timedelta(days=offset) for offset in range(span)]`
abbrev pub span_from : (start span : ℕ) → List ℕ
span_from start zero = []
span_from start (suc span) = start ∷ span_from (start + 1) span

unfoldable pub days_in_range : (start end : ℕ) → List ℕ
days_in_range start end = span_from start (end + 1 - start)

module _ {S V F : Type 0} ⦃f : Float F⦄ ⦃n : Numerics F⦄ (server : Server S V F) where
  abbrev pub sum_range : AnalyticsEvent → (days : List ℕ) → S → ℕ
  unfolding count_range
  sum_range event days s = total (count_range server event days s)

  abbrev pub average_of : F × ℕ → F
  average_of latency = if latency.1 == 0 then f.nought else f.div latency.0 (f.of_ℕ latency.1)

  unfoldable pub usage : (days end : ℕ) → S → Option (UsageMetrics F)
  unfolding last_n_days count_range latency_range
  usage days end s = do
    dates ← last_n_days days end
    some (record {
      uploads = total (count_range server upload dates s);
      duplicate_checks = total (count_range server duplicate_check dates s);
      recommendations = total (count_range server recommendation dates s);
      searches = total (count_range server search dates s);
      average_processing_seconds = n.round_to 4 (average_of (latency_range server dates s));
    })

  unfoldable pub dashboard : (window_days today : ℕ) → Registry → S → Option (DashboardSummary F)
  unfolding usage list_models
  dashboard window_days today registry s = do
    now ← usage 1 today s
    window ← usage window_days today s
    some (record {
      today = now;
      window = window;
      window_days = window_days;
      active_models =
          length (filter_by (λ (m : ModelInfo). is_active m.status) (list_models none registry));
    })

  -- `next((m for m in versions if m.status is ModelStatus.ACTIVE), None)`
  abbrev pub first_active : List ModelInfo → Option ModelInfo
  first_active [] = none
  first_active (m ∷ ms) = if is_active m.status then some m else first_active ms

  abbrev pub model_usage : ModelType → Registry → ModelUsage
  model_usage t registry =
      let active = first_active (list_models (some t) registry) in
      record {
        model_type = t;
        active_model = Option.map (λ (m : ModelInfo). m.model_name) active;
        active_version = Option.map (λ (m : ModelInfo). m.version) active;
        status = Option.map (λ (m : ModelInfo). m.status) active;
        registered_versions = length (list_models (some t) registry);
      }

  unfoldable pub model_analytics :
      (window_days today : ℕ) → Registry → S → Option (List ModelUsage × UsageMetrics F)
  unfolding usage list_models
  model_analytics window_days today registry s = do
    window ← usage window_days today s
    some (
      model_usage image_embedding registry
          ∷ model_usage text_embedding registry
          ∷ model_usage reranker registry
          ∷ [],
      window,
    )

  unfoldable pub report : (days : ℕ) → (period : Text) → (end : ℕ) → S → Option (AnalyticsReport F)
  unfolding usage
  report days period end s = do
    used ← usage days end s
    start ← minus_days (end + 1) days
    some (record { period = period; start_date = start; end_date = end; usage = used })

module _ {S V F : Type 0} (server : Server S V F) where
  -- The points of the trend from the window that is `periods - 1` windows before the newest.
  unfoldable pub trend :
      AnalyticsEvent → (window_days periods end : ℕ) → S → Option (List TrendPoint)
  unfolding count_range days_in_range
  trend event window_days zero end s = some []
  trend event window_days (suc windows_from_newest) end s = do
    period_end ← minus_days end (windows_from_newest * window_days)
    period_start ← minus_days (period_end + 1) window_days
    rest ← trend event window_days windows_from_newest end s
    some (
        record {
          period_start = period_start;
          value = total (count_range server event (days_in_range period_start period_end) s);
        }
        ∷ rest)
