-- ===== src/Queue/Job.antt =====
-- backend/app/jobs: the job record, its lifecycle states and the outcome of one attempt. UUIDs and
-- timestamps are numbers; `P` is the type of the JSON payload, which the queue never looks into.
use product_intelligence.Base.{ℕ, String, Bool, Option, List}

pub data JobType : Type 0 where
  product_processing : JobType

pub data JobStatus : Type 0 where
  pending running completed failed retrying : JobStatus

pub record JobResult : Type 0 where
  pub attempt : ℕ
  pub success : Bool
  pub error : Option String
  pub duration_seconds : ℕ
  pub completed_at : ℕ

pub record Job (P : Type 0) : Type 0 where
  pub job_id : ℕ
  pub product_id : ℕ
  pub job_type : JobType
  pub status : JobStatus
  pub payload : P
  pub created_at : ℕ
  pub updated_at : ℕ
  pub retry_count : ℕ
  pub max_retries : ℕ
  pub progress : ℕ
  pub current_stage : String
  pub error : Option String
  pub retry_history : List JobResult
