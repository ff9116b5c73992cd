-- ===== src/Worker/Examples.antt =====
-- The theorems on a worker at concrete inputs: a queue with one job, over the server in memory.
use product_intelligence.Base.{ℕ, String, none, [], arith}
use product_intelligence.Base.Result.{Result, ok, err}
use product_intelligence.Queue.Job.{Job, product_processing, pending}
use product_intelligence.Queue.Redis.{Redis, run}
use product_intelligence.Queue.RedisQueue.{enqueue}
use product_intelligence.Queue.Placement.{IsPlaced}
use product_intelligence.Queue.Memory.{memory, empty, memory-IsRedis}
use product_intelligence.Worker.Rounds.{Times}
use product_intelligence.Worker.Outcomes.{round, process_one-IsPlaced}

abbrev shoe : Job ℕ
shoe = record {
  job_id = 7;
  product_id = 70;
  job_type = product_processing;
  status = pending;
  payload = 5;
  created_at = 1;
  updated_at = 1;
  retry_count = 0;
  max_retries = 3;
  progress = 0;
  current_stage = "Queued";
  error = none;
  retry_history = [];
}

abbrev server : Redis ℕ
server = memory ℕ

abbrev with_shoe : server.State
with_shoe = (run server (enqueue shoe) empty).1

abbrev clock : Times
clock = record {
  promoted_at = 10;
  held_at = 11;
  started_at = 12;
  validating_at = 13;
  processing_at = 14;
  caching_at = 15;
  finished_at = 16;
  duration = 4;
  retried_at = 17;
  now = 18;
}

-- A payload parser that takes every payload, and two pipelines.
abbrev parse : ℕ → Result String ℕ
parse payload = ok payload

abbrev accept : ℕ → ℕ → Result String ℕ
accept upload product_id = ok product_id

abbrev refuse : ℕ → ℕ → Result String ℕ
refuse upload product_id = err "no image"

with_shoe-IsPlaced : IsPlaced (server.view with_shoe)
unfolding enqueue
with_shoe-IsPlaced i = ground arith

process_one-IsPlaced_example :
    IsPlaced (round parse refuse 2 clock server (memory-IsRedis ℕ) with_shoe).1
process_one-IsPlaced_example =
    process_one-IsPlaced parse refuse 2 clock server (memory-IsRedis ℕ) with_shoe with_shoe-IsPlaced
