-- ===== src/Queue/RedisQueue.antt =====
-- backend/app/queue/redis_queue.py. Each method is the sequence of Redis commands that it awaits; the
-- clock readings that it takes are its arguments, in ticks. A method that assigns to the fields of
-- its job returns the job as it leaves it.
use product_intelligence.Base.{
  ℕ, ◌+◌, ◌-◌, ◌*◌, ◌^◌, String, Option, none, some, List, [], ◌∷◌, ltb, if◌then◌else◌,
}
use product_intelligence.Queue.Job.{Job, running, failed, retrying}
use product_intelligence.Queue.Redis.{
  Prog, ret, rpush, lpop, lrange, hset, hdel, hgetall, zadd, zrem, zrangebyscore, set_job, get_job,
  set_index, get_index, pending, dead_letter, perform, ◌>>=◌, ◌>>◌,
}

abbrev pub backoff : (retry_delay retry_count : ℕ) → ℕ
backoff retry_delay retry_count = retry_delay * 2 ^ (retry_count - 1)

abbrev pub stale_error : String
stale_error = "Worker did not complete this job in time."

module _ {P : Type 0} where
  unfoldable pub save : Job P → Prog P Unit
  save job = do perform (set_job job); perform (set_index job.product_id job.job_id)

  unfoldable pub enqueue : Job P → Prog P Unit
  unfolding save
  enqueue job = do save job; perform (rpush pending job.job_id)

  unfoldable pub promote_each : List ℕ → Prog P Unit
  promote_each [] = ret tt
  promote_each (i ∷ ids) = do perform (zrem i); perform (rpush pending i); promote_each ids

  unfoldable pub promote_due_delayed_jobs : (now : ℕ) → Prog P Unit
  promote_due_delayed_jobs now = do ids ← perform (zrangebyscore now); promote_each ids

  -- The part of `dequeue` after the record is read: a missing record drops the id.
  unfoldable pub hold : (held_at updated_at : ℕ) → Option (Job P) → Prog P (Option (Job P))
  unfolding save
  hold held_at updated_at none = ret none
  hold held_at updated_at (some job) = do
    perform (hset job.job_id held_at)
    let job' = record job { status = running; updated_at = updated_at }
    save job'
    ret (some job')

  unfoldable pub take_popped : (held_at updated_at : ℕ) → Option ℕ → Prog P (Option (Job P))
  unfolding hold
  take_popped held_at updated_at none = ret none
  take_popped held_at updated_at (some i) = do
    found ← perform (get_job i)
    hold held_at updated_at found

  unfoldable pub dequeue : (promoted_at held_at updated_at : ℕ) → Prog P (Option (Job P))
  dequeue promoted_at held_at updated_at = do
    promote_due_delayed_jobs promoted_at
    popped ← perform (lpop pending)
    take_popped held_at updated_at popped

  unfoldable pub ack : Job P → Prog P Unit
  ack job = perform (hdel job.job_id)

  -- The job with one more failed attempt.
  abbrev pub charge : String → ℕ → Job P → Job P
  charge error updated_at job = record job {
    retry_count = job.retry_count + 1;
    error = some error;
    updated_at = updated_at;
  }

  unfoldable pub reschedule : (retry_delay now : ℕ) → Job P → Prog P (Job P)
  unfolding save
  reschedule retry_delay now job =
      if ltb job.max_retries job.retry_count
      then (do
        let job' = record job { status = failed }
        save job'
        perform (rpush dead_letter job.job_id)
        ret job')
      else (do
        let job' = record job { status = retrying }
        save job'
        perform (zadd job.job_id (now + backoff retry_delay job.retry_count))
        ret job')

  unfoldable pub retry : (retry_delay updated_at now : ℕ) → String → Job P → Prog P (Job P)
  unfolding reschedule
  retry retry_delay updated_at now error job = do
    perform (hdel job.job_id)
    reschedule retry_delay now (charge error updated_at job)

  unfoldable pub get : ℕ → Prog P (Option (Job P))
  get i = perform (get_job i)

  unfoldable pub get_indexed : Option ℕ → Prog P (Option (Job P))
  unfolding get
  get_indexed none = ret none
  get_indexed (some i) = get i

  unfoldable pub get_by_product_id : ℕ → Prog P (Option (Job P))
  unfolding get_indexed
  get_by_product_id product_id = do found ← perform (get_index product_id); get_indexed found

  unfoldable pub get_dead_letter_job_ids : Prog P (List ℕ)
  get_dead_letter_job_ids = perform (lrange dead_letter)

  -- What the loop of `requeue_stale_jobs` does with the record of a stale entry; the result is the
  -- number of jobs that it requeues.
  unfoldable pub recover_record : (retry_delay : ℕ) (at : ℕ → ℕ) (i : ℕ) → Option (Job P) → Prog P ℕ
  unfolding retry
  recover_record retry_delay at i none = do perform (hdel i); ret 0
  recover_record retry_delay at i (some job) = do
    retried ← retry retry_delay (at i) (at i) stale_error job
    ret 1

  unfoldable pub recover : (retry_delay older_than now : ℕ) (at : ℕ → ℕ) (i t : ℕ) → Prog P ℕ
  unfolding recover_record
  recover retry_delay older_than now at i t =
      if ltb now (t + older_than)
      then ret 0
      else (do found ← perform (get_job i); recover_record retry_delay at i found)

  unfoldable pub recover_each :
      (retry_delay older_than now : ℕ) (at : ℕ → ℕ) → List (ℕ × ℕ) → (requeued : ℕ) → Prog P ℕ
  recover_each retry_delay older_than now at [] requeued = ret requeued
  recover_each retry_delay older_than now at ((i, t) ∷ rest) requeued = do
    k ← recover retry_delay older_than now at i t
    recover_each retry_delay older_than now at rest (requeued + k)

  unfoldable pub requeue_stale_jobs : (retry_delay older_than now : ℕ) (at : ℕ → ℕ) → Prog P ℕ
  requeue_stale_jobs retry_delay older_than now at = do
    in_flight ← perform hgetall
    recover_each retry_delay older_than now at in_flight 0
