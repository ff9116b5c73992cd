-- ===== src/Queue/Examples.antt =====
-- The theorems on the queue at concrete inputs, over the server in memory.
use product_intelligence.Base.{
  ℕ, ◌+◌, ◌*◌, ◌^◌, ◌≤◌, ◌≡◌, ◌↔◌, refl, true, is_some, none, some, [], ◌∷◌, arith, count,
}
use product_intelligence.Queue.Job.{Job, product_processing, pending, running, failed}
use product_intelligence.Queue.Redis.{Redis, run, present, ◌>>◌}
use product_intelligence.Queue.RedisQueue.{enqueue, dequeue, retry, requeue_stale_jobs}
use product_intelligence.Queue.Transitions.{started, unless_stale}
use product_intelligence.Queue.Refinement.{outcome}
use product_intelligence.Queue.Placement.{IsPlaced}
use product_intelligence.Queue.Lifecycle.{
  Reach, here, next, enqueue_step, dequeue_step, Reach-IsPlaced,
}
use product_intelligence.Queue.Recovery.{requeue_stale_jobs-IsPlaced}
use product_intelligence.Queue.Retry.{
  IsGivenUp, IsWaiting, retry_gives_up, retry_waits, retry_times, retry_times-status,
}
use product_intelligence.Queue.Fifo.{enqueue_each, dequeue_each, dequeue_each-enqueue_each}
use product_intelligence.Queue.Crash.{run_until, dequeue_crash_loses}
use product_intelligence.Queue.Memory.{memory, empty, memory-IsRedis}

abbrev shoe : Job Unit
shoe = record {
  job_id = 7;
  product_id = 70;
  job_type = product_processing;
  status = pending;
  payload = tt;
  created_at = 1;
  updated_at = 1;
  retry_count = 0;
  max_retries = 3;
  progress = 0;
  current_stage = "Queued";
  error = none;
  retry_history = [];
}

abbrev sock : Job Unit
sock = record shoe { job_id = 8; product_id = 80 }

abbrev worn_out : Job Unit
worn_out = record shoe { status = running; retry_count = 3 }

abbrev server : Redis Unit
server = memory Unit

-- The server with one job enqueued.
abbrev with_shoe : server.State
with_shoe = (run server (enqueue shoe) empty).1

-- The same, taken by a worker at time 10.
abbrev with_shoe_held : server.State
with_shoe_held = (run server (dequeue 10 10 10) with_shoe).1

empty-IsPlaced : IsPlaced (server.view empty)
empty-IsPlaced i = ground arith

with_shoe-IsPlaced : IsPlaced (server.view with_shoe)
unfolding enqueue
with_shoe-IsPlaced i = ground arith

one_round : Reach server empty with_shoe_held
one_round = next (next here (enqueue_step shoe empty refl refl)) (dequeue_step 10 10 10 with_shoe)

with_shoe_held-IsPlaced : IsPlaced (server.view with_shoe_held)
with_shoe_held-IsPlaced = Reach-IsPlaced server (memory-IsRedis Unit) empty-IsPlaced one_round

requeue_stale_jobs-IsPlaced_example :
    let w = server.view (run server (requeue_stale_jobs 2 300 1000 (λ i. 1000)) with_shoe_held).1 in
    IsPlaced w
    × ((k : ℕ) → w.processing k ≡ unless_stale 300 1000 ((server.view with_shoe_held).processing k))
requeue_stale_jobs-IsPlaced_example =
    requeue_stale_jobs-IsPlaced 2 300 1000 (λ i. 1000) server (memory-IsRedis Unit) with_shoe_held
      with_shoe_held-IsPlaced

retry_gives_up_example :
    IsGivenUp worn_out
      (server.view with_shoe_held)
      (outcome server (retry 2 20 20 "boom" worn_out) with_shoe_held)
retry_gives_up_example =
    retry_gives_up server (memory-IsRedis Unit) 2 20 20 "boom" worn_out with_shoe_held (omega arith)

retry_waits_example :
    IsWaiting
      (20 + 2 * 2 ^ 0)
      (started 10 shoe)
      (server.view with_shoe_held)
      (outcome server (retry 2 20 20 "boom" (started 10 shoe)) with_shoe_held)
retry_waits_example =
    retry_waits server (memory-IsRedis Unit) 2 20 20 "boom" (started 10 shoe) with_shoe_held
      (omega arith)

retry_times-status_example :
    ((run server (retry_times 4 2 20 20 "boom" shoe) with_shoe).0.status ≡ failed) ↔ (3 ≤ 3)
retry_times-status_example =
    retry_times-status server (memory-IsRedis Unit) 3 2 20 20 "boom" shoe with_shoe refl

dequeue_each-enqueue_each_example :
    (run server (enqueue_each (shoe ∷ sock ∷ []) >> dequeue_each 2 10 10 10) empty).0
    ≡ some (started 10 shoe) ∷ some (started 10 sock) ∷ []
dequeue_each-enqueue_each_example =
    dequeue_each-enqueue_each server (memory-IsRedis Unit) 10 10 10 (shoe ∷ sock ∷ []) empty refl
      (λ i. refl) ((ground arith, tt), (tt, tt))

with_shoe-pending : (server.view with_shoe).pending ≡ 7 ∷ []
unfolding enqueue
with_shoe-pending = refl

with_shoe-delayed : (i : ℕ) → (server.view with_shoe).delayed i ≡ none
unfolding enqueue
with_shoe-delayed i = refl

dequeue_crash_loses_example :
    let v = server.view (run_until server 2 (dequeue 10 10 10) with_shoe) in
    (v.jobs 7 ≡ (server.view with_shoe).jobs 7)
    × (is_some (v.jobs 7) ≡ true)
    × (count 7 v.pending + present (v.processing 7) + present (v.delayed 7) + count 7 v.dead_letter
        ≡ 0)
dequeue_crash_loses_example =
    dequeue_crash_loses server (memory-IsRedis Unit) 10 10 10 7 [] with_shoe with_shoe-pending
      (λ i. rw (with_shoe-delayed i)) with_shoe-IsPlaced
