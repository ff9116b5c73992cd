-- ===== src/Worker/Outcomes.antt =====
-- What a round of a worker does to its job, in each case.
use mathlib.Core.Option
use mathlib.Core.Path.{subst}
use product_intelligence.Base.{
  ℕ, ◌+◌, ◌≡◌, refl, sym, ap, ◌∙◌, String, Bool, true, false, Option, none, some, List, [], ◌∷◌,
  ◌++◌, arith, ltb, if◌then◌else◌, inl, inr, Option-cases,
}
use product_intelligence.Base.Result.{Result, ok, err, ◌>>=◌}
use product_intelligence.Queue.Job.{Job, running, failed, retrying}
use product_intelligence.Queue.Redis.{Redis, IsRedis, View, update}
use product_intelligence.Queue.RedisQueue.{backoff}
use product_intelligence.Queue.Refinement.{outcome}
use product_intelligence.Queue.Transitions.{saved, promoted, popped, started, popped_record}
use product_intelligence.Queue.Placement.{
  IsPlaced, IsHeld, promoted-IsPlaced, popped-IsPlaced, saved-IsPlaced, acked-IsPlaced,
  retried-IsPlaced,
}
use product_intelligence.Queue.Fifo.{NothingDue, empty_of_count}
use product_intelligence.Worker.Rounds.{
  Times, progressed, finished, attempted, process_one, stage_processing, stage_validating,
  stage_caching_recommendations,
}
use product_intelligence.Worker.Settled.{
  failed_view, completed_view, upload_view, parsed_view, handled, process_one-outcome,
}

module _ {P Upload : Type 0} (parse_payload : P → Result String Upload)
    (process_upload : Upload → (product_id : ℕ) → Result String ℕ) (retry_delay : ℕ)
    (times : Times) where
  abbrev IsWorking : Job P → View P → Type 0
  IsWorking job v = IsHeld job v × (job.status ≡ running) × IsPlaced v

  progress-IsWorking :
      (progress : ℕ) (stage : String) (t : ℕ) (job : Job P) (v : View P)
      → IsWorking job v
      → let job' = progressed progress stage t job in IsWorking job' (saved job' v)
  progress-IsWorking progress stage t job v (held, status, placed) =
      (held, status, saved-IsPlaced (progressed progress stage t job) v held (inl status) placed)

  completed-IsPlaced :
      (attempt : ℕ) (job : Job P) (v : View P)
      → IsWorking job v
      → IsPlaced (completed_view parse_payload process_upload retry_delay times attempt job v)
  completed-IsPlaced attempt job v (held, status, placed) =
      let done : Job P = finished times attempt job in
      acked-IsPlaced done (saved done v) {stored = done} (ground arith) refl
        (saved-IsPlaced done v held (inr refl) placed)

  failed-IsPlaced :
      (attempt : ℕ) (error : String) (job : Job P) (v : View P)
      → IsWorking job v
      → IsPlaced (failed_view parse_payload process_upload retry_delay times attempt error job v)
  failed-IsPlaced attempt error job v (held, status, placed) =
      retried-IsPlaced retry_delay times.retried_at times.now error
        (attempted times attempt error job) v held placed

  upload-IsPlaced :
      (attempt : ℕ) (job : Job P) (uploaded : Result String ℕ) (v : View P)
      → IsWorking job v
      → IsPlaced (upload_view parse_payload process_upload retry_delay times attempt job uploaded v)
  upload-IsPlaced attempt job (err error) v w = failed-IsPlaced attempt error job v w
  upload-IsPlaced attempt job (ok id) v w =
      let job' : Job P = progressed 80 stage_caching_recommendations times.caching_at job in
      completed-IsPlaced attempt job' (saved job' v)
        (progress-IsWorking 80 stage_caching_recommendations times.caching_at job v w)

  parsed-IsPlaced :
      (attempt : ℕ) (job : Job P) (parsed : Result String Upload) (v : View P)
      → IsWorking job v
      → IsPlaced (parsed_view parse_payload process_upload retry_delay times attempt job parsed v)
  parsed-IsPlaced attempt job (err error) v w = failed-IsPlaced attempt error job v w
  parsed-IsPlaced attempt job (ok upload) v w =
      let job' : Job P = progressed 40 stage_processing times.processing_at job in
      upload-IsPlaced attempt job' (process_upload upload job'.product_id) (saved job' v)
        (progress-IsWorking 40 stage_processing times.processing_at job v w)

  handled-IsPlaced :
      (xs : List ℕ) (v : View P)
      → v.pending ≡ xs
      → IsPlaced v
      → IsPlaced
          (handled parse_payload process_upload retry_delay times
            (popped times.held_at times.started_at xs v)).1
  handled-IsPlaced [] v e placed = popped-IsPlaced times.held_at times.started_at [] v e placed
  handled-IsPlaced (i ∷ rest) v e placed = elim (Option-cases (v.jobs i)) [
    | inl missing ↦ absurd (ground (arith, placed i))
    | inr (job, found) ↦
        let t : ℕ = times.held_at in
        let job' : Job P = started times.started_at job in
        let w : View P =
          saved job'
            (record v { pending = rest; processing = update v.processing job.job_id (some t) }) in
        let placed' : IsPlaced w =
          subst
            (λ (o : Option (Job P)).
              IsPlaced (popped_record t times.started_at o (record v { pending = rest })).1)
            found (popped-IsPlaced t times.started_at (i ∷ rest) v e placed) in
        let first : Job P = progressed 10 stage_validating times.validating_at job' in
        subst
          (λ (o : Option (Job P)).
            IsPlaced
              (handled parse_payload process_upload retry_delay times
                (popped_record t times.started_at o (record v { pending = rest }))).1)
          (sym found)
          (parsed-IsPlaced (job.retry_count + 1) first (parse_payload first.payload) (saved first w)
            (progress-IsWorking 10 stage_validating times.validating_at job' w
              (ground arith, refl, placed')))
  ]

  module _ (R : Redis P) (laws : IsRedis R) where
    abbrev pub round : R.State → Bool × View P
    round s = outcome R (process_one parse_payload process_upload retry_delay times) s

    -- A round of a worker, whatever the payload and the pipeline do, leaves every id where its
    -- record says, if each stood there before.
    pub process_one-IsPlaced : (s : R.State) → IsPlaced (R.view s) → IsPlaced (round s).1
    process_one-IsPlaced s placed =
        let (ids, are_due, e) =
          process_one-outcome parse_payload process_upload retry_delay times R laws s in
        subst (λ (o : Bool × View P). IsPlaced o.1) (sym e)
          (handled-IsPlaced (promoted ids (R.view s)).pending (promoted ids (R.view s)) refl
            (promoted-IsPlaced times.promoted_at ids (R.view s) are_due placed))

    round_not_due :
        (s : R.State)
        → NothingDue times.promoted_at (R.view s)
        → round s
          ≡ handled parse_payload process_upload retry_delay times
              (popped times.held_at times.started_at (R.view s).pending (R.view s))
    round_not_due s idle =
        let (ids, are_due, e) =
          process_one-outcome parse_payload process_upload retry_delay times R laws s in
        let none_due : ids ≡ [] = empty_of_count ids (λ i. are_due i ∙ idle i) in
        e
        ∙ ap
            (λ (l : List ℕ). handled parse_payload process_upload retry_delay times (
              popped times.held_at times.started_at (promoted l (R.view s)).pending
                (promoted l (R.view s))))
            none_due

    -- With nothing pending and nothing due a round reports that there was no job, and changes nothing.
    pub process_one_idle :
        (s : R.State)
        → (R.view s).pending ≡ []
        → NothingDue times.promoted_at (R.view s)
        → round s ≡ (false, R.view s)
    process_one_idle s none_pending idle =
        round_not_due s idle ∙ rw none_pending (ground (arith, none_pending))

    module _ (job : Job P) (rest : List ℕ) (s : R.State)
        (head : (R.view s).pending ≡ job.job_id ∷ rest)
        (idle : NothingDue times.promoted_at (R.view s))
        (found : (R.view s).jobs job.job_id ≡ some job) where
      abbrev pub result : Result String ℕ
      result = parse_payload job.payload >>= λ upload. process_upload upload job.product_id

      abbrev pub Completes : Bool × View P → Type 0
      Completes o =
          (o.0 ≡ true)
          × (o.1.jobs job.job_id ≡ some (finished times (job.retry_count + 1) job))
          × (o.1.processing job.job_id ≡ none)
          × (o.1.pending ≡ rest)
          × (o.1.delayed ≡ (R.view s).delayed)
          × (o.1.dead_letter ≡ (R.view s).dead_letter)

      abbrev pub spent : Bool
      spent = ltb job.max_retries (job.retry_count + 1)

      abbrev pub HandsBack : String → Bool × View P → Type 0
      HandsBack error o =
          (o.0 ≡ true)
          × (Option.map (λ (j : Job P). j.status) (o.1.jobs job.job_id)
              ≡ some (if spent then failed else retrying))
          × (Option.map (λ (j : Job P). j.retry_count) (o.1.jobs job.job_id)
              ≡ some (job.retry_count + 1))
          × (Option.map (λ (j : Job P). j.error) (o.1.jobs job.job_id) ≡ some (some error))
          × (Option.map (λ (j : Job P). j.retry_history) (o.1.jobs job.job_id)
              ≡ some (attempted times (job.retry_count + 1) error job).retry_history)
          × (o.1.processing job.job_id ≡ none)
          × (o.1.pending ≡ rest)
          × (o.1.dead_letter ≡ (
              if spent
              then (R.view s).dead_letter ++ (job.job_id ∷ [])
              else (R.view s).dead_letter))
          × (o.1.delayed job.job_id ≡ (
              if spent
              then (R.view s).delayed job.job_id
              else some (times.now + backoff retry_delay (job.retry_count + 1))))
