-- ===== src/Queue/Transitions.antt =====
-- What the methods of RedisQueue promise: transitions of the content of the keys.
use product_intelligence.Base.{
  ℕ, ◌+◌, ◌≡◌, String, Option, none, some, List, [], ◌∷◌, ◌++◌, ltb, if◌then◌else◌, count,
}
use product_intelligence.Queue.Job.{Job, running, failed, retrying}
use product_intelligence.Queue.Redis.{View, update, due, lookup, keys, present}
use product_intelligence.Queue.RedisQueue.{backoff, charge, stale_error}

-- An entry that is kept while it is younger than the threshold.
abbrev pub unless_stale : (older_than now : ℕ) → Option ℕ → Option ℕ
unless_stale older_than now none = none
unless_stale older_than now (some t) = if ltb now (t + older_than) then some t else none

module _ {P : Type 0} where
  abbrev pub saved : Job P → View P → View P
  saved job v = record v {
    jobs = update v.jobs job.job_id (some job);
    index = update v.index job.product_id (some job.job_id);
  }

  -- The record behind an entry of the index.
  abbrev pub indexed_record : Option ℕ → View P → Option (Job P)
  indexed_record none v = none
  indexed_record (some i) v = v.jobs i

  abbrev pub enqueued : Job P → View P → View P
  enqueued job v = record (saved job v) { pending = v.pending ++ (job.job_id ∷ []) }

  abbrev pub promoted_one : ℕ → View P → View P
  promoted_one i v = record v { pending = v.pending ++ (i ∷ []); delayed = update v.delayed i none }

  abbrev pub promoted : List ℕ → View P → View P
  promoted [] v = v
  promoted (i ∷ ids) v = promoted ids (promoted_one i v)

  -- The ids that are due, in the order in which the server lists them.
  abbrev pub AreDue : ℕ → List ℕ → View P → Type 0
  AreDue now ids v = (i : ℕ) → count i ids ≡ due now (v.delayed i)

  -- The entries of `processing`, each once.
  abbrev pub AreEntries : List (ℕ × ℕ) → View P → Type 0
  AreEntries entries v =
      (i : ℕ)
      → (lookup i entries ≡ v.processing i) × (count i (keys entries) ≡ present (v.processing i))

  abbrev pub started : ℕ → Job P → Job P
  started updated_at job = record job { status = running; updated_at = updated_at }

  abbrev pub popped_record :
      (held_at updated_at : ℕ) → Option (Job P) → View P → Option (Job P) × View P
  popped_record held_at updated_at none v = (none, v)
  popped_record held_at updated_at (some job) v = (
    some (started updated_at job),
    saved (started updated_at job)
        (record v { processing = update v.processing job.job_id (some held_at) }),
  )

  abbrev pub popped : (held_at updated_at : ℕ) → List ℕ → View P → Option (Job P) × View P
  popped held_at updated_at [] v = (none, record v { pending = [] })
  popped held_at updated_at (i ∷ rest) v =
      popped_record held_at updated_at (v.jobs i) (record v { pending = rest })

  abbrev pub acked : Job P → View P → View P
  acked job v = record v { processing = update v.processing job.job_id none }

  -- The job after one more failure: out of attempts, or due again after the backoff.
  abbrev pub retried_job : String → ℕ → Job P → Job P
  retried_job error updated_at job = record (charge error updated_at job) {
    status = if ltb job.max_retries (job.retry_count + 1) then failed else retrying;
  }

  abbrev pub retried : (retry_delay updated_at now : ℕ) → String → Job P → View P → View P
  retried retry_delay updated_at now error job v =
      if ltb job.max_retries (job.retry_count + 1)
      then record (saved (retried_job error updated_at job) (acked job v)) {
        dead_letter = v.dead_letter ++ (job.job_id ∷ []);
      }
      else record (saved (retried_job error updated_at job) (acked job v)) {
        delayed =
            update v.delayed job.job_id (some (now + backoff retry_delay (job.retry_count + 1)));
      }

  abbrev pub recovered_record :
      (retry_delay : ℕ) (at : ℕ → ℕ) (i : ℕ) → Option (Job P) → View P → ℕ × View P
  recovered_record retry_delay at i none v =
      (0, record v { processing = update v.processing i none })
  recovered_record retry_delay at i (some job) v =
      (1, retried retry_delay (at i) (at i) stale_error job v)

  abbrev pub recovered_one :
      (retry_delay older_than now : ℕ) (at : ℕ → ℕ) (i t : ℕ) → View P → ℕ × View P
  recovered_one retry_delay older_than now at i t v =
      if ltb now (t + older_than) then (0, v) else recovered_record retry_delay at i (v.jobs i) v

  abbrev pub recovered :
      (retry_delay older_than now : ℕ) (at : ℕ → ℕ) → List (ℕ × ℕ) → ℕ → View P → ℕ × View P
  recovered retry_delay older_than now at [] n v = (n, v)
  recovered retry_delay older_than now at ((i, t) ∷ rest) n v =
      let (k, v') = recovered_one retry_delay older_than now at i t v in
      recovered retry_delay older_than now at rest (n + k) v'
