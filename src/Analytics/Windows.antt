-- ===== src/Analytics/Windows.antt =====
-- The windows of a trend are the days of the whole period, each in one window.
use native.Mathlib.Nat.{zero-mul}
use product_intelligence.Base.{
  ℕ, zero, suc, ◌+◌, ◌-◌, ◌*◌, ◌≤◌, ◌<◌, ◌≡◌, refl, sym, ◌∙◌, ap, Option, some, List, [], ◌∷◌, ◌++◌,
  map, length, lt→ltb, arith,
}
use product_intelligence.Text.Strings.{Text}
use product_intelligence.Analytics.Repository.{
  AnalyticsEvent, Server, int_or_zero, total, count_key, count_for, count_range,
}
use product_intelligence.Analytics.Engine.{
  TrendPoint, minus_days, last_n_days, span_from, days_in_range, trend,
}

-- MGET answers what GET of each key does.
pub record IsServer {S V F : Type 0} (server : Server S V F) : Type 0 where
  pub mget-get :
      (keys : List Text) (s : S) → server.mget keys s ≡ map (λ (k : Text). server.get k s) keys

minus_days_lem : (day n : ℕ) → n < day → minus_days day n ≡ some (day - n)
minus_days_lem day n h = rw (lt→ltb n day h)

span_from-append :
    (start m n : ℕ) → span_from start (m + n) ≡ span_from start m ++ span_from (start + m) n
span_from-append start zero n =
    let front : zero + n ≡ n = omega arith in
    let here : start + zero ≡ start = omega arith in rw (front, here)
span_from-append start (suc m) n =
    let more : suc m + n ≡ suc (m + n) = omega arith in
    let on : start + 1 + m ≡ start + suc m = omega arith in
    ap (λ (k : ℕ). span_from start k) more
    ∙ ap (λ (days : List ℕ). start ∷ days)
        (span_from-append (start + 1) m n
          ∙ ap (λ (a : ℕ). span_from (start + 1) m ++ span_from a n) on)

last_n_days_lem : (n end : ℕ) → n ≤ end → last_n_days n end ≡ some (span_from (end + 1 - n) n)
unfolding last_n_days
last_n_days_lem zero end h = refl
last_n_days_lem (suc offset) end h =
    rw (minus_days_lem end offset (omega arith), last_n_days_lem offset end (omega arith))
      (ap (λ (days : List ℕ). some days)
        (let next : end + 1 - offset ≡ end - offset + 1 = omega arith in
          let first : end - offset ≡ end + 1 - suc offset = omega arith in
          ap (λ (a : ℕ). (end - offset) ∷ span_from a offset) next
          ∙ ap (λ (a : ℕ). span_from a (suc offset)) first))

abbrev pub sum_of_values : List TrendPoint → ℕ
sum_of_values [] = 0
sum_of_values (p ∷ points) = p.value + sum_of_values points

module _ {S V F : Type 0} (server : Server S V F) (laws : IsServer server)
    (event : AnalyticsEvent) where
  -- How often the event happened on the days.
  abbrev pub count_of : List ℕ → S → ℕ
  count_of [] s = 0
  count_of (day ∷ days) s = count_for server event day s + count_of days s

  total-mget :
      (days : List ℕ) (s : S)
      → total (
          map
            (int_or_zero server.int)
            (map (λ (k : Text). server.get k s) (map (count_key server event) days)))
        ≡ count_of days s
  unfolding count_for
  total-mget [] s = refl
  total-mget (day ∷ days) s = omega (arith, total-mget days s)

  total-count_range :
      (days : List ℕ) (s : S) → total (count_range server event days s) ≡ count_of days s
  unfolding count_range
  total-count_range [] s = refl
  total-count_range (day ∷ days) s =
      ap (λ (values : List (Option V)). total (map (int_or_zero server.int) values))
        (laws.mget-get (map (count_key server event) (day ∷ days)) s)
      ∙ total-mget (day ∷ days) s

  count_of-append :
      (days more : List ℕ) (s : S) → count_of (days ++ more) s ≡ count_of days s + count_of more s
  count_of-append [] more s = omega arith
  count_of-append (day ∷ days) more s = omega (arith, count_of-append days more s)

  -- One window, and the windows after it.
  abbrev IsTrend : (window_days periods end : ℕ) → S → List TrendPoint → Type 0
  IsTrend window_days periods end s points =
      (trend server event window_days periods end s ≡ some points)
      × (length points ≡ periods)
      × (sum_of_values points
          ≡ count_of (span_from (end + 1 - periods * window_days) (periods * window_days)) s)

  days_of_window :
      (window_days rest end : ℕ)
      → 1 ≤ window_days
      → window_days + rest ≤ end
      → days_in_range (end - rest + 1 - window_days) (end - rest) ++ span_from (end + 1 - rest) rest
        ≡ span_from (end + 1 - (window_days + rest)) (window_days + rest)
  unfolding days_in_range
  days_of_window window_days rest end low h =
      let start = end + 1 - (window_days + rest) in
      let first : end - rest + 1 - window_days ≡ start = omega arith in
      let size : end - rest + 1 - start ≡ window_days = omega arith in
      let then_on : end + 1 - rest ≡ start + window_days = omega arith in
      ap (λ (a : ℕ). span_from a (end - rest + 1 - a) ++ span_from (end + 1 - rest) rest) first
      ∙ ap (λ (k : ℕ). span_from start k ++ span_from (end + 1 - rest) rest) size
      ∙ ap (λ (a : ℕ). span_from start window_days ++ span_from a rest) then_on
      ∙ sym (span_from-append start window_days rest)

  trend_lem :
      (window_days periods end : ℕ) (s : S)
      → 1 ≤ window_days
      → periods * window_days ≤ end
      → (points : List TrendPoint) × IsTrend window_days periods end s points
  unfolding trend
  trend_lem window_days zero end s low h = ([], (refl, refl, rw (zero-mul window_days)))
  trend_lem window_days (suc w) end s low h =
      let rest = w * window_days in
      let e : suc w * window_days ≡ window_days + rest = grind arith in
      let (points, (found, counted, summed)) = trend_lem window_days w end s low (omega arith) in
      let period_end = end - rest in
      let start = period_end + 1 - window_days in
      let days = days_in_range start period_end in
      (
        record { period_start = start; value = total (count_range server event days s) } ∷ points,
        (
          rw (
            minus_days_lem end rest (omega arith),
            minus_days_lem (period_end + 1) window_days (omega arith),
            found,
          ),
          ap suc counted,
          omega (
            arith,
            total-count_range days s,
            summed,
            count_of-append days (span_from (end + 1 - rest) rest) s,
          )
              ∙ ap (λ (ds : List ℕ). count_of ds s)
                  (days_of_window window_days rest end low (omega arith))
              ∙ ap (λ (n : ℕ). count_of (span_from (end + 1 - n) n) s) (sym e),
        ),
      )

  -- With the whole period within the calendar a trend has as many points as asked for, and its windows
  -- lose no day and count no day twice: the values of all points add up to the event's counts on the
  -- last `periods * window_days` days.
  pub trend-last_n_days :
      (window_days periods end : ℕ) (s : S)
      → 1 ≤ window_days
      → periods * window_days ≤ end
      → (points : List TrendPoint) × (days : List ℕ) × (trend server event window_days periods end s
          ≡ some points)
        × (length points ≡ periods)
        × (last_n_days (periods * window_days) end ≡ some days)
        × (sum_of_values points ≡ total (count_range server event days s))
  trend-last_n_days window_days periods end s low h =
      let (points, (found, counted, summed)) = trend_lem window_days periods end s low h in
      let days = span_from (end + 1 - periods * window_days) (periods * window_days) in
      (
        points,
        days,
        found,
        counted,
        last_n_days_lem (periods * window_days) end h,
        summed ∙ sym (total-count_range days s),
      )
