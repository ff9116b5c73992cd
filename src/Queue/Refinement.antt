-- ===== src/Queue/Refinement.antt =====
-- Over any server that behaves as documented, the methods of RedisQueue implement the transitions.
use mathlib.Core.Path.{ap₂}
use mathlib.Core.Option.{some-injective}
use product_intelligence.Base.{
  ℕ, ◌+◌, ◌≡◌, refl, ap, drop, ◌∙◌, inl, inr, String, Option, none, some, List, [], ◌∷◌, ltb,
  Bool-cases, ==_refl,
}
use product_intelligence.Queue.Job.{Job}
use product_intelligence.Queue.Redis.{
  Redis, IsRedis, head?, effect, Prog, ret, call, run, ◌>>=◌, lpop, hgetall, zrangebyscore, get_job,
  get_index, lrange, pending, dead_letter, View,
}
use product_intelligence.Queue.RedisQueue.{
  save, enqueue, promote_each, promote_due_delayed_jobs, hold, take_popped, dequeue, ack,
  reschedule, retry, recover_record, recover, recover_each, requeue_stale_jobs, get_by_product_id,
  get_indexed, get_dead_letter_job_ids, stale_error,
}
use product_intelligence.Queue.Transitions.{
  indexed_record, saved, enqueued, promoted, AreDue, AreEntries, popped_record, popped, acked,
  retried_job, retried, recovered_record, recovered_one, recovered,
}

module _ {P : Type 0} (R : Redis P) where
  pub run-bind :
      {A B : Type 0} (m : Prog P A) (g : A → Prog P B) (s : R.State)
      → run R (m >>= g) s ≡ run R (g (run R m s).0) (run R m s).1
  run-bind (ret a) g s = refl
  run-bind (call c k) g s = run-bind (k (R.exec c s).0) g (R.exec c s).1

  -- The result of a run, and the keys that it leaves.
  abbrev pub outcome : {A : Type 0} → Prog P A → R.State → A × View P
  outcome m s = ((run R m s).0, R.view (run R m s).1)

  -- The outcome of a sequence, from the outcomes of its parts.
  pub outcome-bind :
      {A B : Type 0} (m : Prog P A) (g : A → Prog P B) (s : R.State) {a : A} {v : View P}
      {o : B × View P}
      → outcome m s ≡ (a, v)
      → ((s' : R.State) → R.view s' ≡ v → outcome (g a) s' ≡ o)
      → outcome (m >>= g) s ≡ o
  outcome-bind {A} {B} m g s e rest =
      ap (λ (o : B × R.State). (o.0, R.view o.1)) (run-bind m g s)
      ∙ ap (λ (a : A). outcome (g a) (run R m s).1) (ap (λ (o : A × View P). o.0) e)
      ∙ rest (run R m s).1 (ap (λ (o : A × View P). o.1) e)

  module _ (laws : IsRedis R) where
    pub save_view :
        (job : Job P) (s : R.State) → R.view (run R (save job) s).1 ≡ saved job (R.view s)
    unfolding save
    save_view job s = simp laws.view-exec

    pub enqueue_view :
        (job : Job P) (s : R.State) → R.view (run R (enqueue job) s).1 ≡ enqueued job (R.view s)
    unfolding enqueue
    enqueue_view job s = simp laws.view-exec

    promote_each_view :
        (ids : List ℕ) (s : R.State)
        → R.view (run R (promote_each ids) s).1 ≡ promoted ids (R.view s)
    unfolding promote_each
    promote_each_view [] s = refl
    promote_each_view (i ∷ ids) s =
        promote_each_view ids _ ∙ ap (promoted ids) (simp laws.view-exec)

    pub promote_view :
        (now : ℕ) (s : R.State)
        → (ids : List ℕ) × AreDue now ids (R.view s)
          × (R.view (run R (promote_due_delayed_jobs now) s).1 ≡ promoted ids (R.view s))
    unfolding promote_due_delayed_jobs
    promote_view now s = (
      (R.exec (zrangebyscore now) s).0,
      laws.exec-Answers (zrangebyscore now) s,
      promote_each_view (R.exec (zrangebyscore now) s).0 (R.exec (zrangebyscore now) s).1
          ∙ ap (promoted (R.exec (zrangebyscore now) s).0) (laws.view-exec (zrangebyscore now) s),
    )

    outcome-hold :
        (held_at updated_at : ℕ) (found : Option (Job P)) (s : R.State)
        → outcome (hold held_at updated_at found) s
          ≡ popped_record held_at updated_at found (R.view s)
    unfolding hold
    outcome-hold held_at updated_at none s = refl
    outcome-hold held_at updated_at (some job) s = simp laws.view-exec

    outcome-take_popped :
        (held_at updated_at : ℕ) (head : Option ℕ) (xs : List ℕ) (v : View P) (s : R.State)
        → head ≡ head? xs
        → R.view s ≡ record v { pending = drop 1 xs }
        → outcome (take_popped held_at updated_at head) s ≡ popped held_at updated_at xs v
    unfolding take_popped
    outcome-take_popped held_at updated_at none [] v s h e = rw e
    outcome-take_popped held_at updated_at none (i ∷ rest) v s h e = cc
    outcome-take_popped held_at updated_at (some i) [] v s h e = cc
    outcome-take_popped held_at updated_at (some i) (j ∷ rest) v s h e =
        let same : R.view (R.exec (get_job i) s).1 ≡ record v { pending = rest } =
          laws.view-exec (get_job i) s ∙ e in
        let found : (R.exec (get_job i) s).0 ≡ v.jobs j =
          laws.exec-Answers (get_job i) s
          ∙ ap (λ (w : View P). w.jobs i) e
          ∙ ap v.jobs (some-injective _ _ h) in
        outcome-hold held_at updated_at _ _ ∙ ap₂ (popped_record held_at updated_at) found same

    -- `dequeue` promotes the jobs that are due, in some order, and takes the head of the list.
    pub dequeue-outcome :
        (promoted_at held_at updated_at : ℕ) (s : R.State)
        → (ids : List ℕ) × AreDue promoted_at ids (R.view s)
          × (outcome (dequeue promoted_at held_at updated_at) s
              ≡ popped held_at updated_at
                  (promoted ids (R.view s)).pending
                  (promoted ids (R.view s)))
    unfolding dequeue
    dequeue-outcome promoted_at held_at updated_at s =
        let (ids, are_due, e) = promote_view promoted_at s in
        (
          ids,
          are_due,
          ap (λ (o : Option (Job P) × R.State). (o.0, R.view o.1))
                (run-bind (promote_due_delayed_jobs promoted_at)
                  (λ _. call (lpop pending) (take_popped held_at updated_at)) s)
              ∙ outcome-take_popped held_at updated_at _ (promoted ids (R.view s)).pending _ _
                  (laws.exec-Answers (lpop pending) _ ∙ ap (λ (v : View P). head? v.pending) e)
                  (laws.view-exec (lpop pending) _ ∙ ap (effect (lpop pending)) e),
        )

    pub ack_view : (job : Job P) (s : R.State) → R.view (run R (ack job) s).1 ≡ acked job (R.view s)
    unfolding ack
    ack_view job s = simp laws.view-exec

    -- `retry` returns the job that it has stored.
    pub outcome-retry :
        (retry_delay updated_at now : ℕ) (error : String) (job : Job P) (s : R.State)
        → outcome (retry retry_delay updated_at now error job) s ≡ (
          retried_job error updated_at job,
          retried retry_delay updated_at now error job (R.view s),
        )
    unfolding retry
    outcome-retry retry_delay updated_at now error job s =
        elim (Bool-cases (ltb job.max_retries (job.retry_count + 1))) [
          | inl e ↦ rw (e, reschedule) (simp laws.view-exec)
          | inr e ↦ rw (e, reschedule) (simp laws.view-exec)
        ]

    outcome-recover_record :
        (retry_delay : ℕ) (at : ℕ → ℕ) (i : ℕ) (found : Option (Job P)) (s : R.State)
        → outcome (recover_record retry_delay at i found) s
          ≡ recovered_record retry_delay at i found (R.view s)
    unfolding recover_record
    outcome-recover_record retry_delay at i none s = simp laws.view-exec
    outcome-recover_record retry_delay at i (some job) s =
        ap (λ (o : ℕ × R.State). (o.0, R.view o.1))
          (run-bind (retry retry_delay (at i) (at i) stale_error job) (λ _. ret 1) s)
        ∙ ap (λ (o : Job P × View P). let n : ℕ = 1 in (n, o.1))
            (outcome-retry retry_delay (at i) (at i) stale_error job s)

    outcome-recover :
        (retry_delay older_than now : ℕ) (at : ℕ → ℕ) (i t : ℕ) (s : R.State)
        → outcome (recover retry_delay older_than now at i t) s
          ≡ recovered_one retry_delay older_than now at i t (R.view s)
    unfolding recover
    outcome-recover retry_delay older_than now at i t s =
        elim (Bool-cases (ltb now (t + older_than))) [
          | inl e ↦ rw e
          | inr e ↦ rw e (
              outcome-recover_record retry_delay at i _ _
              ∙ ap₂ (recovered_record retry_delay at i) (laws.exec-Answers (get_job i) s)
                  (laws.view-exec (get_job i) s))
        ]

    outcome-recover_each :
        (retry_delay older_than now : ℕ) (at : ℕ → ℕ) (entries : List (ℕ × ℕ)) (n : ℕ) (s : R.State)
        → outcome (recover_each retry_delay older_than now at entries n) s
          ≡ recovered retry_delay older_than now at entries n (R.view s)
    unfolding recover_each
    outcome-recover_each retry_delay older_than now at [] n s = refl
    outcome-recover_each retry_delay older_than now at ((i, t) ∷ rest) n s =
        ap (λ (o : ℕ × R.State). (o.0, R.view o.1))
          (run-bind (recover retry_delay older_than now at i t)
            (λ k. recover_each retry_delay older_than now at rest (n + k)) s)
        ∙ outcome-recover_each retry_delay older_than now at rest _ _
        ∙ ap (λ (o : ℕ × View P). recovered retry_delay older_than now at rest (n + o.0) o.1)
            (outcome-recover retry_delay older_than now at i t s)

    -- `requeue_stale_jobs` goes through the entries of `processing`, each once, in some order.
    pub requeue_stale_jobs-outcome :
        (retry_delay older_than now : ℕ) (at : ℕ → ℕ) (s : R.State)
        → (entries : List (ℕ × ℕ)) × AreEntries entries (R.view s)
          × (outcome (requeue_stale_jobs retry_delay older_than now at) s
              ≡ recovered retry_delay older_than now at entries 0 (R.view s))
    unfolding requeue_stale_jobs
    requeue_stale_jobs-outcome retry_delay older_than now at s = (
      (R.exec hgetall s).0,
      laws.exec-Answers hgetall s,
      outcome-recover_each retry_delay older_than now at (R.exec hgetall s).0 0 (R.exec hgetall s).1
          ∙ ap (recovered retry_delay older_than now at (R.exec hgetall s).0 0)
              (laws.view-exec hgetall s),
    )

    get_indexed_result :
        (found : Option ℕ) (v : View P) (s : R.State)
        → R.view s ≡ v
        → (run R (get_indexed found) s).0 ≡ indexed_record found v
    unfolding get_indexed
    get_indexed_result none v s e = refl
    get_indexed_result (some i) v s e =
        laws.exec-Answers (get_job i) s ∙ ap (λ (w : View P). w.jobs i) e

    pub get_by_product_id_result :
        (product_id : ℕ) (s : R.State)
        → (run R (get_by_product_id product_id) s).0
          ≡ indexed_record ((R.view s).index product_id) (R.view s)
    unfolding get_by_product_id
    get_by_product_id_result product_id s =
        get_indexed_result _ (R.view s) _ (laws.view-exec (get_index product_id) s)
        ∙ ap (λ (o : Option ℕ). indexed_record o (R.view s))
            (laws.exec-Answers (get_index product_id) s)

    -- The last job saved for a product is the one that its status endpoint reads.
    pub get_by_product_id-save :
        (job : Job P) (s : R.State)
        → (run R (get_by_product_id job.product_id) (run R (save job) s).1).0 ≡ some job
    get_by_product_id-save job s =
        get_by_product_id_result job.product_id _ ∙ rw (save_view job s) (simp ==_refl)

    pub get_dead_letter_job_ids_result :
        (s : R.State) → (run R get_dead_letter_job_ids s).0 ≡ (R.view s).dead_letter
    unfolding get_dead_letter_job_ids
    get_dead_letter_job_ids_result s = laws.exec-Answers (lrange dead_letter) s
