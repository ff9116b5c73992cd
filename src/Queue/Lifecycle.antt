-- ===== src/Queue/Lifecycle.antt =====
-- The queue as its clients use it: whole calls of RedisQueue, in any order, by workers that hold the
-- jobs which they report on.
use mathlib.Core.Path.{subst}
use product_intelligence.Base.{ℕ, ◌≡◌, ◌⊎◌, sym, refl, String, Option, none, some}
use product_intelligence.Queue.Job.{Job, pending, running, completed}
use product_intelligence.Queue.Redis.{Redis, IsRedis, View, run}
use product_intelligence.Queue.RedisQueue.{enqueue, dequeue, save, ack, retry, requeue_stale_jobs}
use product_intelligence.Queue.Refinement.{
  enqueue_view, dequeue-outcome, save_view, ack_view, outcome-retry, requeue_stale_jobs-outcome,
}
use product_intelligence.Queue.Placement.{
  IsPlaced, IsHeld, enqueued-IsPlaced, promoted-IsPlaced, popped-IsPlaced, retried-IsPlaced,
  saved-IsPlaced, acked-IsPlaced,
}
use product_intelligence.Queue.Recovery.{recovered-IsPlaced}
use product_intelligence.Queue.Transitions.{promoted}

module _ {P : Type 0} (R : Redis P) where
  pub data Step : R.State → R.State → Type 0 where
    enqueue_step :
        (job : Job P) (s : R.State)
        → job.status ≡ pending
        → (R.view s).jobs job.job_id ≡ none
        → Step s (run R (enqueue job) s).1
    dequeue_step :
        (promoted_at held_at updated_at : ℕ) (s : R.State)
        → Step s (run R (dequeue promoted_at held_at updated_at) s).1
    update_step :
        (job : Job P) (s : R.State)
        → IsHeld job (R.view s)
        → (job.status ≡ running) ⊎ (job.status ≡ completed)
        → Step s (run R (save job) s).1
    ack_step :
        (job stored : Job P) (s : R.State)
        → (R.view s).jobs job.job_id ≡ some stored
        → stored.status ≡ completed
        → Step s (run R (ack job) s).1
    retry_step :
        (retry_delay updated_at now : ℕ) (error : String) (job : Job P) (s : R.State)
        → IsHeld job (R.view s)
        → Step s (run R (retry retry_delay updated_at now error job) s).1
    recover_step :
        (retry_delay older_than now : ℕ) (at : ℕ → ℕ) (s : R.State)
        → Step s (run R (requeue_stale_jobs retry_delay older_than now at) s).1

  pub data Reach (s : R.State) : R.State → Type 0 where
    here : Reach s s
    next : {t u : R.State} → Reach s t → Step t u → Reach s u

  module _ (laws : IsRedis R) where
    Step-IsPlaced : {s t : R.State} → Step s t → IsPlaced (R.view s) → IsPlaced (R.view t)
    Step-IsPlaced (enqueue_step job s new fresh) h =
        subst IsPlaced (sym (enqueue_view R laws job s))
          (enqueued-IsPlaced job (R.view s) new fresh h)
    Step-IsPlaced (dequeue_step p a u s) h =
        let (ids, are_due, e) = dequeue-outcome R laws p a u s in
        subst (λ (o : Option (Job P) × View P). IsPlaced o.1) (sym e)
          (popped-IsPlaced a u (promoted ids (R.view s)).pending (promoted ids (R.view s)) refl
            (promoted-IsPlaced p ids (R.view s) are_due h))
    Step-IsPlaced (update_step job s held status) h =
        subst IsPlaced (sym (save_view R laws job s)) (saved-IsPlaced job (R.view s) held status h)
    Step-IsPlaced (ack_step job stored s found done) h =
        subst IsPlaced (sym (ack_view R laws job s)) (acked-IsPlaced job (R.view s) found done h)
    Step-IsPlaced (retry_step d u n error job s held) h =
        subst (λ (o : Job P × View P). IsPlaced o.1) (sym (outcome-retry R laws d u n error job s))
          (retried-IsPlaced d u n error job (R.view s) held h)
    Step-IsPlaced (recover_step d o n at s) h =
        let (entries, listed, e) = requeue_stale_jobs-outcome R laws d o n at s in
        subst (λ (r : ℕ × View P). IsPlaced r.1) (sym e)
          (recovered-IsPlaced d o n at entries (R.view s) listed h).0

    pub Reach-IsPlaced : {s t : R.State} → IsPlaced (R.view s) → Reach s t → IsPlaced (R.view t)
    Reach-IsPlaced h here = h
    Reach-IsPlaced h (next r step) = Step-IsPlaced step (Reach-IsPlaced h r)
