-- ===== src/Queue/Retry.antt =====
-- RedisQueue.retry: when a job is given up, how long it waits otherwise, and what stays as it was.
use mathlib.Core.Path.{subst}
use product_intelligence.Base.{
  ℕ, zero, suc, ◌+◌, ◌-◌, ◌*◌, ◌^◌, ◌≤◌, ◌<◌, ◌≡◌, ◌↔◌, sym, refl, ap, ◌∙◌, String, none, some, [],
  ◌∷◌, ◌++◌, arith,
}
use product_intelligence.Queue.Job.{Job, failed, retrying}
use product_intelligence.Queue.Redis.{Redis, IsRedis, View, Prog, ret, run, ◌>>=◌}
use product_intelligence.Queue.RedisQueue.{retry}
use product_intelligence.Queue.Refinement.{outcome, run-bind, outcome-retry}
use product_intelligence.Queue.Transitions.{retried_job}

module _ {P : Type 0} where
  abbrev pub IsGivenUp : Job P → View P → Job P × View P → Type 0
  IsGivenUp job v o =
      (o.0.status ≡ failed)
      × (o.1.dead_letter ≡ v.dead_letter ++ (job.job_id ∷ []))
      × (o.1.delayed ≡ v.delayed)
      × (o.1.pending ≡ v.pending)
      × (o.1.processing job.job_id ≡ none)
      × (o.1.jobs job.job_id ≡ some o.0)

  abbrev pub IsWaiting : ℕ → Job P → View P → Job P × View P → Type 0
  IsWaiting ready_at job v o =
      (o.0.status ≡ retrying)
      × (o.1.delayed job.job_id ≡ some ready_at)
      × (o.1.dead_letter ≡ v.dead_letter)
      × (o.1.pending ≡ v.pending)
      × (o.1.processing job.job_id ≡ none)
      × (o.1.jobs job.job_id ≡ some o.0)

  module _ (R : Redis P) (laws : IsRedis R) (retry_delay updated_at now : ℕ) (error : String)
      (job : Job P) (s : R.State) where
    -- A job with no attempt left, by `max_retries` of the job, goes to the end of the dead-letter
    -- list with status FAILED, leaves `processing`, and is neither delayed nor pending anew.
    pub retry_gives_up :
        job.max_retries ≤ job.retry_count
        → IsGivenUp job (R.view s) (outcome R (retry retry_delay updated_at now error job) s)
    retry_gives_up spent =
        subst (IsGivenUp job (R.view s))
          (sym (outcome-retry R laws retry_delay updated_at now error job s)) (ground arith)

    -- Any other job gets status RETRYING and becomes due `retry_delay * 2 ^ n` after now, with n the
    -- number of its earlier failures; the dead-letter list stays as it was.
    pub retry_waits :
        job.retry_count < job.max_retries
        → IsWaiting
            (now + retry_delay * 2 ^ job.retry_count)
            job
            (R.view s)
            (outcome R (retry retry_delay updated_at now error job) s)
    retry_waits left =
        subst (IsWaiting (now + retry_delay * 2 ^ job.retry_count) job (R.view s))
          (sym (outcome-retry R laws retry_delay updated_at now error job s))
          (let same : job.retry_count + 1 - 1 ≡ job.retry_count = omega arith in
            ground (arith, same))

  -- `k` calls of `retry` in a row, for the same job.
  abbrev pub retry_times :
      (k : ℕ) (retry_delay updated_at now : ℕ) → String → Job P → Prog P (Job P)
  retry_times zero d t now error job = ret job
  retry_times (suc k) d t now error job = do
    job' ← retry d t now error job
    retry_times k d t now error job'

  abbrev failures : ℕ → String → ℕ → Job P → Job P
  failures zero error t job = job
  failures (suc k) error t job = failures k error t (retried_job error t job)

  failures-status :
      (k : ℕ) (error : String) (t : ℕ) (job : Job P)
      → ((failures (suc k) error t job).status ≡ failed) ↔ (job.max_retries ≤ job.retry_count + k)
  failures-status zero error t job = ground arith
  failures-status (suc k) error t job =
      ground (arith, failures-status k error t (retried_job error t job))

  module _ (R : Redis P) (laws : IsRedis R) where
    retry_times_result :
        (k d t now : ℕ) (error : String) (job : Job P) (s : R.State)
        → (run R (retry_times k d t now error job) s).0 ≡ failures k error t job
    retry_times_result zero d t now error job s = refl
    retry_times_result (suc k) d t now error job s =
        ap (λ (o : Job P × R.State). o.0)
          (run-bind R (retry d t now error job) (λ j. retry_times k d t now error j) s)
        ∙ retry_times_result k d t now error _ _
        ∙ ap (λ (o : Job P × View P). failures k error t o.0)
            (outcome-retry R laws d t now error job s)

    -- A job that has not failed yet is given up at its attempt number `max_retries + 1`, not before:
    -- after `k + 1` failures its status is FAILED exactly if `max_retries` is at most `k`.
    pub retry_times-status :
        (k d t now : ℕ) (error : String) (job : Job P) (s : R.State)
        → job.retry_count ≡ 0
        → ((run R (retry_times (suc k) d t now error job) s).0.status ≡ failed)
          ↔ (job.max_retries ≤ k)
    retry_times-status k d t now error job s new =
        rw (retry_times_result (suc k) d t now error job s)
          (ground (arith, failures-status k error t job))
