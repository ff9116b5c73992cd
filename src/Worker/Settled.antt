-- ===== src/Worker/Settled.antt =====
-- What one round leaves in the keys of the queue, as a function of what it found there.
use product_intelligence.Base.{
  ℕ, ◌+◌, ◌≡◌, refl, ap, ◌∙◌, String, Bool, true, false, Option, none, some, List,
}
use product_intelligence.Base.Result.{Result, ok, err}
use product_intelligence.Queue.Job.{Job}
use product_intelligence.Queue.Redis.{Redis, IsRedis, View, ret, ◌>>=◌}
use product_intelligence.Queue.RedisQueue.{dequeue, save, ack}
use product_intelligence.Queue.Refinement.{
  outcome, run-bind, outcome-bind, save_view, ack_view, outcome-retry, dequeue-outcome,
}
use product_intelligence.Queue.Transitions.{saved, acked, retried, AreDue, promoted, popped}
use product_intelligence.Worker.Rounds.{
  Times, stage_processing, stage_caching_recommendations, stage_validating, progressed, finished,
  attempted, report_progress, complete, fail, finish_upload, run_upload, handle, process_one,
}

module _ {P Upload : Type 0} (parse_payload : P → Result String Upload)
    (process_upload : Upload → (product_id : ℕ) → Result String ℕ) (retry_delay : ℕ)
    (times : Times) where
  abbrev pub failed_view : (attempt : ℕ) → String → Job P → View P → View P
  failed_view attempt error job v =
      retried retry_delay times.retried_at times.now error (attempted times attempt error job) v

  abbrev pub completed_view : (attempt : ℕ) → Job P → View P → View P
  completed_view attempt job v =
      acked (finished times attempt job) (saved (finished times attempt job) v)

  abbrev pub upload_view : (attempt : ℕ) → Job P → Result String ℕ → View P → View P
  upload_view attempt job (err error) v = failed_view attempt error job v
  upload_view attempt job (ok id) v =
      let job' = progressed 80 stage_caching_recommendations times.caching_at job in
      completed_view attempt job' (saved job' v)

  abbrev pub parsed_view : (attempt : ℕ) → Job P → Result String Upload → View P → View P
  parsed_view attempt job (err error) v = failed_view attempt error job v
  parsed_view attempt job (ok upload) v =
      let job' = progressed 40 stage_processing times.processing_at job in
      upload_view attempt job' (process_upload upload job'.product_id) (saved job' v)

  -- The result of the round, and the keys.
  abbrev pub handled : Option (Job P) × View P → Bool × View P
  handled (none, v) = (false, v)
  handled (some job, v) =
      let job' = progressed 10 stage_validating times.validating_at job in
      (true, parsed_view (job.retry_count + 1) job' (parse_payload job'.payload) (saved job' v))

  module _ (R : Redis P) (laws : IsRedis R) where
    abbrev seen : {A : Type 0} → A × R.State → A × View P
    seen o = (o.0, R.view o.1)

    outcome-report_progress :
        (progress : ℕ) (stage : String) (t : ℕ) (job : Job P) (s : R.State)
        → outcome R (report_progress progress stage t job) s
          ≡ (progressed progress stage t job, saved (progressed progress stage t job) (R.view s))
    unfolding report_progress
    outcome-report_progress progress stage t job s =
        ap seen (run-bind R (save (progressed progress stage t job)) (λ _. ret _) s)
        ∙ rw (save_view R laws)

    outcome-complete :
        (attempt : ℕ) (job : Job P) (s : R.State)
        → outcome R (complete times attempt job) s ≡ (tt, completed_view attempt job (R.view s))
    unfolding complete
    outcome-complete attempt job s =
        let done : Job P = finished times attempt job in
        outcome-bind R (save done) (λ _. ack done) s
          (ap (λ (v : View P). (tt, v)) (save_view R laws done s))
          λ s' e. ap (λ (v : View P). (tt, v)) (ack_view R laws done s' ∙ ap (acked done) e)

    fail_then :
        (attempt : ℕ) (error : String) (job : Job P) (s : R.State)
        → outcome R (fail retry_delay times attempt error job >>= λ _. ret true) s
          ≡ (true, failed_view attempt error job (R.view s))
    unfolding fail
    fail_then attempt error job s =
        outcome-bind R (fail retry_delay times attempt error job) (λ _. ret true) s
          (outcome-retry R laws retry_delay times.retried_at times.now error
            (attempted times attempt error job) s)
          λ s' e. ap (λ (v : View P). (true, v)) e

    outcome-finish_upload :
        (attempt : ℕ) (job : Job P) (uploaded : Result String ℕ) (s : R.State)
        → outcome R
            (finish_upload parse_payload process_upload retry_delay times attempt job uploaded)
            s
          ≡ (true, upload_view attempt job uploaded (R.view s))
    unfolding finish_upload
    outcome-finish_upload attempt job (err error) s = fail_then attempt error job s
    outcome-finish_upload attempt job (ok id) s =
        let job' : Job P = progressed 80 stage_caching_recommendations times.caching_at job in
        outcome-bind R (report_progress 80 stage_caching_recommendations times.caching_at job) _ s
          (outcome-report_progress 80 stage_caching_recommendations times.caching_at job s)
          λ s' e.
            outcome-bind R (complete times attempt job') (λ _. ret true) s'
              (outcome-complete attempt job' s')
              λ s'' e'. ap (λ (v : View P). (true, v)) (e' ∙ ap (completed_view attempt job') e)

    outcome-run_upload :
        (attempt : ℕ) (job : Job P) (parsed : Result String Upload) (s : R.State)
        → outcome R (run_upload parse_payload process_upload retry_delay times attempt job parsed) s
          ≡ (true, parsed_view attempt job parsed (R.view s))
    unfolding run_upload
    outcome-run_upload attempt job (err error) s = fail_then attempt error job s
    outcome-run_upload attempt job (ok upload) s =
        let job' : Job P = progressed 40 stage_processing times.processing_at job in
        outcome-bind R (report_progress 40 stage_processing times.processing_at job) _ s
          (outcome-report_progress 40 stage_processing times.processing_at job s)
          λ s' e.
            outcome-finish_upload attempt job' (process_upload upload job'.product_id) s'
            ∙ ap
                (λ (v : View P).
                  (true, upload_view attempt job' (process_upload upload job'.product_id) v))
                e

    outcome-handle :
        (taken : Option (Job P)) (s : R.State)
        → outcome R (handle parse_payload process_upload retry_delay times taken) s
          ≡ handled (taken, R.view s)
    unfolding handle
    outcome-handle none s = refl
    outcome-handle (some job) s =
        let job' : Job P = progressed 10 stage_validating times.validating_at job in
        outcome-bind R (report_progress 10 stage_validating times.validating_at job) _ s
          (outcome-report_progress 10 stage_validating times.validating_at job s)
          λ s' e.
            outcome-run_upload (job.retry_count + 1) job' (parse_payload job'.payload) s'
            ∙ ap
                (λ (v : View P).
                  (true, parsed_view (job.retry_count + 1) job' (parse_payload job'.payload) v))
                e

    -- A round promotes what is due, takes the head of the pending list, and settles it.
    pub process_one-outcome :
        (s : R.State)
        → (ids : List ℕ) × AreDue times.promoted_at ids (R.view s)
          × (outcome R (process_one parse_payload process_upload retry_delay times) s
              ≡ handled (
                  popped times.held_at times.started_at
                    (promoted ids (R.view s)).pending
                    (promoted ids (R.view s))))
    unfolding process_one
    process_one-outcome s =
        let (ids, are_due, e) =
          dequeue-outcome R laws times.promoted_at times.held_at times.started_at s in
        let v : View P = promoted ids (R.view s) in
        let taken : Option (Job P) × View P = popped times.held_at times.started_at v.pending v in
        (
          ids,
          are_due,
          outcome-bind R (dequeue times.promoted_at times.held_at times.started_at) _ s e
              λ s' e'. outcome-handle taken.0 s' ∙ ap (λ (w : View P). handled (taken.0, w)) e',
        )
