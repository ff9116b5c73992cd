-- ===== src/Analytics/Repository.antt =====
-- backend/app/repositories/analytics_repository.py. A date is its ordinal. The server is a parameter whose
-- commands may raise, which is `none`; recording is fail-soft, and reading lets the exception through.
use product_intelligence.Base.{ℕ, ◌+◌, ◌*◌, Option, none, some, List, [], ◌∷◌, ◌++◌, map}
use product_intelligence.Float.Interface.{Float, sum}
use product_intelligence.Text.Strings.{Text, codes}

pub data AnalyticsEvent : Type 0 where
  upload duplicate_check recommendation search : AnalyticsEvent

-- `event.value`
abbrev pub event_value : AnalyticsEvent → Text
event_value upload = codes "upload"
event_value duplicate_check = codes "duplicate_check"
event_value recommendation = codes "recommendation"
event_value search = codes "search"

-- Redis with state `S` and stored texts `V`, Python's `int(raw)` and `float(raw)`, and `isoformat`.
pub record Server (S V F : Type 0) : Type 0 where
  pub incr : Text → S → Option S
  pub incrbyfloat : Text → F → S → Option S
  pub expire : Text → (seconds : ℕ) → S → Option S
  pub mget : List Text → S → List (Option V)
  pub get : Text → S → Option V
  pub int : V → ℕ
  pub float : V → F
  pub isoformat : (day : ℕ) → Text

abbrev pub retention_days : ℕ
retention_days = 90

abbrev pub ttl_seconds : ℕ
ttl_seconds = retention_days * 24 * 60 * 60

-- A command after another, which may have raised; what came before stays done.
infixl 5 ◌then_try◌
abbrev pub ◌then_try◌ : {S : Type 0} → S → (S → Option S) → S
s then_try command = elim (command s) [ none ↦ s | some t ↦ t ]

abbrev pub int_or_zero : {V : Type 0} → (V → ℕ) → Option V → ℕ
int_or_zero int none = 0
int_or_zero int (some raw) = int raw

abbrev pub total : List ℕ → ℕ
total [] = 0
total (n ∷ ns) = n + total ns

-- `float(value) for value in sums if value is not None`
abbrev pub present_values : {V A : Type 0} → (V → A) → List (Option V) → List A
present_values read [] = []
present_values read (none ∷ values) = present_values read values
present_values read (some raw ∷ values) = read raw ∷ present_values read values

module _ {S V F : Type 0} (server : Server S V F) where
  abbrev pub count_key : AnalyticsEvent → (day : ℕ) → Text
  count_key event day =
      codes "analytics:count:" ++ (event_value event ++ (codes ":" ++ server.isoformat day))

  abbrev pub latency_sum_key : (day : ℕ) → Text
  latency_sum_key day = codes "analytics:latency_sum:" ++ server.isoformat day

  abbrev pub latency_count_key : (day : ℕ) → Text
  latency_count_key day = codes "analytics:latency_count:" ++ server.isoformat day

  -- Two commands of one `try`: if the first raises, the second is not sent.
  unfoldable pub record_event : AnalyticsEvent → (day : ℕ) → S → S
  record_event event day s = elim (server.incr (count_key event day) s) [
    | none ↦ s
    | some t ↦ t then_try server.expire (count_key event day) ttl_seconds
  ]

  unfoldable pub record_latency : (seconds : F) → (day : ℕ) → S → S
  record_latency seconds day s = elim (server.incrbyfloat (latency_sum_key day) seconds s) [
    | none ↦ s
    | some t ↦ elim (server.incr (latency_count_key day) t) [
      | none ↦ t
      | some u ↦ elim (server.expire (latency_sum_key day) ttl_seconds u) [
        | none ↦ u
        | some v ↦ v then_try server.expire (latency_count_key day) ttl_seconds
      ]
    ]
  ]

  unfoldable pub count_for : AnalyticsEvent → (day : ℕ) → S → ℕ
  count_for event day s = int_or_zero server.int (server.get (count_key event day) s)

  unfoldable pub count_range : AnalyticsEvent → (days : List ℕ) → S → List ℕ
  count_range event [] s = []
  count_range event (day ∷ days) s =
      map (int_or_zero server.int) (server.mget (map (count_key event) (day ∷ days)) s)

  unfoldable pub latency_range : ⦃f : Float F⦄ → (days : List ℕ) → S → F × ℕ
  latency_range ⦃f⦄ [] s = (f.nought, 0)
  latency_range (day ∷ days) s = (
    sum (present_values server.float (server.mget (map latency_sum_key (day ∷ days)) s)),
    total (present_values server.int (server.mget (map latency_count_key (day ∷ days)) s)),
  )
