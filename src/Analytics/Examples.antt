-- ===== src/Analytics/Examples.antt =====
-- The theorem on trends at two weeks of a counter that holds the ordinal of each day.
use product_intelligence.Base.{
  ℕ, ◌*◌, ◌≡◌, refl, Option, none, some, List, [], ◌∷◌, map, length, arith,
}
use product_intelligence.Text.Strings.{Text}
use product_intelligence.Analytics.Repository.{upload, Server, total, count_range}
use product_intelligence.Analytics.Engine.{TrendPoint, last_n_days, trend}
use product_intelligence.Analytics.Windows.{IsServer, sum_of_values, trend-last_n_days}

abbrev last_of : Text → Option ℕ
last_of [] = none
last_of (c ∷ []) = some c
last_of (c ∷ d ∷ cs) = last_of (d ∷ cs)

abbrev server : Server ℕ ℕ ℕ
server = record {
  incr = λ k s. some s;
  incrbyfloat = λ k x s. some s;
  expire = λ k n s. some s;
  mget = λ keys s. map last_of keys;
  get = λ k s. last_of k;
  int = λ n. n;
  float = λ n. n;
  isoformat = λ day. day ∷ [];
}

map-last_of : (keys : List Text) → map last_of keys ≡ map (λ (k : Text). last_of k) keys
map-last_of keys = refl

server-IsServer : IsServer server
server-IsServer = record { mget-get = λ keys s. map-last_of keys }

trend-last_n_days_example :
    (points : List TrendPoint) × (days : List ℕ) × (trend server upload 7 2 100 0 ≡ some points)
    × (length points ≡ 2)
    × (last_n_days (2 * 7) 100 ≡ some days)
    × (sum_of_values points ≡ total (count_range server upload days 0))
trend-last_n_days_example =
    trend-last_n_days server server-IsServer upload 7 2 100 0 (omega arith) (omega arith)

two_weeks :
    trend server upload 7 2 100 0
    ≡ some
        (record { period_start = 87; value = 630 } ∷ record { period_start = 94; value = 679 } ∷ [])
unfolding trend count_range
two_weeks = refl
