-- ===== src/Worker/Rounds.antt =====
-- ProductWorker: dequeue a job, process it, and complete it or hand it back. Parsing the payload
-- (pydantic), ProductService.process_upload and the warming of the recommendation cache are
-- parameters; the warming returns nothing that the worker looks at, and never fails the job.
use product_intelligence.Base.{ℕ, ◌+◌, String, Bool, true, false, Option, none, some, [], ◌∷◌, ◌++◌}
use product_intelligence.Base.Result.{Result, ok, err}
use product_intelligence.Queue.Job.{Job, completed}
use product_intelligence.Queue.Redis.{Prog, ret, ◌>>=◌, ◌>>◌}
use product_intelligence.Queue.RedisQueue.{dequeue, save, ack, retry}

-- The readings of the clock that one round takes.
pub record Times : Type 0 where
  pub promoted_at : ℕ
  pub held_at : ℕ
  pub started_at : ℕ
  pub validating_at : ℕ
  pub processing_at : ℕ
  pub caching_at : ℕ
  pub finished_at : ℕ
  pub duration : ℕ
  pub retried_at : ℕ
  pub now : ℕ

abbrev pub stage_validating : String
stage_validating = "Validating Upload"

abbrev pub stage_processing : String
stage_processing = "Processing Upload"

abbrev pub stage_caching_recommendations : String
stage_caching_recommendations = "Generating Recommendations"

abbrev pub stage_completed : String
stage_completed = "Completed"

module _ {P : Type 0} where
  abbrev pub progressed : (progress : ℕ) (stage : String) (updated_at : ℕ) → Job P → Job P
  progressed progress stage updated_at job = record job {
    progress = progress;
    current_stage = stage;
    updated_at = updated_at;
  }

  unfoldable pub report_progress :
      (progress : ℕ) (stage : String) (updated_at : ℕ) → Job P → Prog P (Job P)
  report_progress progress stage updated_at job = do
    save (progressed progress stage updated_at job)
    ret (progressed progress stage updated_at job)

  abbrev pub finished : Times → (attempt : ℕ) → Job P → Job P
  finished times attempt job = record job {
    status = completed;
    progress = 100;
    current_stage = stage_completed;
    error = none;
    updated_at = times.finished_at;
    retry_history =
        job.retry_history
        ++ (record {
          attempt = attempt;
          success = true;
          error = none;
          duration_seconds = times.duration;
          completed_at = times.finished_at;
        }
            ∷ []);
  }

  unfoldable pub complete : Times → (attempt : ℕ) → Job P → Prog P Unit
  complete times attempt job = do
    save (finished times attempt job)
    ack (finished times attempt job)

  abbrev pub attempted : Times → (attempt : ℕ) → String → Job P → Job P
  attempted times attempt error job = record job {
    retry_history =
        job.retry_history
        ++ (record {
          attempt = attempt;
          success = false;
          error = some error;
          duration_seconds = times.duration;
          completed_at = times.finished_at;
        }
            ∷ []);
  }

  unfoldable pub fail : (retry_delay : ℕ) → Times → (attempt : ℕ) → String → Job P → Prog P (Job P)
  fail retry_delay times attempt error job =
      retry retry_delay times.retried_at times.now error (attempted times attempt error job)

module _ {P Upload : Type 0} (parse_payload : P → Result String Upload)
    (process_upload : Upload → (product_id : ℕ) → Result String ℕ) (retry_delay : ℕ)
    (times : Times) where
  unfoldable pub finish_upload : (attempt : ℕ) → Job P → Result String ℕ → Prog P Bool
  unfolding complete fail report_progress
  finish_upload attempt job (err error) = do
    failed ← fail retry_delay times attempt error job
    ret true
  finish_upload attempt job (ok processed_id) = do
    job' ← report_progress 80 stage_caching_recommendations times.caching_at job
    complete times attempt job'
    ret true

  unfoldable pub run_upload : (attempt : ℕ) → Job P → Result String Upload → Prog P Bool
  unfolding finish_upload
  run_upload attempt job (err error) = do
    failed ← fail retry_delay times attempt error job
    ret true
  run_upload attempt job (ok upload) = do
    job' ← report_progress 40 stage_processing times.processing_at job
    finish_upload attempt job' (process_upload upload job'.product_id)

  unfoldable pub handle : Option (Job P) → Prog P Bool
  unfolding run_upload
  handle none = ret false
  handle (some job) = do
    job' ← report_progress 10 stage_validating times.validating_at job
    run_upload (job.retry_count + 1) job' (parse_payload job'.payload)

  -- Whether a job was there to process.
  unfoldable pub process_one : Prog P Bool
  unfolding handle
  process_one = do taken ← dequeue times.promoted_at times.held_at times.started_at; handle taken
