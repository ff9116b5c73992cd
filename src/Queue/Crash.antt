-- ===== src/Queue/Crash.antt =====
-- What a crash, or a recovery that comes too early, does between two Redis commands.
use product_intelligence.Base.{
  ℕ, zero, suc, ◌+◌, ◌≡◌, true, is_some, drop, ap, ◌∙◌, List, [], ◌∷◌, arith, count,
}
use product_intelligence.Queue.Job.{Job}
use product_intelligence.Queue.Redis.{
  Redis, IsRedis, Prog, ret, call, effect, ◌>>=◌, present, lpop, zrangebyscore, pending,
}
use product_intelligence.Queue.RedisQueue.{
  dequeue, take_popped, promote_each, promote_due_delayed_jobs,
}
use product_intelligence.Queue.Fifo.{NothingDue, empty_of_count}
use product_intelligence.Queue.Placement.{IsPlaced}

module _ {P : Type 0} (R : Redis P) where
  -- The state that a task leaves when it dies after `n` commands.
  abbrev pub run_until : {A : Type 0} → ℕ → Prog P A → R.State → R.State
  run_until zero m s = s
  run_until (suc n) (ret a) s = s
  run_until (suc n) (call c k) s = run_until n (k (R.exec c s).0) (R.exec c s).1

  module _ (laws : IsRedis R) where
    pop_after_promotion :
        (h u : ℕ) (ids : List ℕ) (s : R.State)
        → ids ≡ []
        → R.view (run_until 1 (promote_each ids >>= λ _. call (lpop pending) (take_popped h u)) s)
          ≡ effect (lpop pending) (R.view s)
    unfolding promote_each
    pop_after_promotion h u [] s e = laws.view-exec (lpop pending) s
    pop_after_promotion h u (i ∷ ids) s e = cc

    -- With a job at the head of the pending list and nothing due, a worker that dies after the
    -- second command of `dequeue`, between LPOP and HSET, leaves the record of the job as it was and
    -- its id in no list, hash or set: neither `dequeue` nor `requeue_stale_jobs` can find it again.
    pub dequeue_crash_loses :
        (p h u i : ℕ) (rest : List ℕ) (s : R.State)
        → (R.view s).pending ≡ i ∷ rest
        → NothingDue p (R.view s)
        → IsPlaced (R.view s)
        → let v = R.view (run_until 2 (dequeue p h u) s) in
          (v.jobs i ≡ (R.view s).jobs i)
          × (is_some (v.jobs i) ≡ true)
          × (count i v.pending
                + present (v.processing i)
                + present (v.delayed i)
                + count i v.dead_letter
              ≡ 0)
    unfolding dequeue promote_due_delayed_jobs
    dequeue_crash_loses p h u i rest s head idle placed =
        let none_due : (R.exec (zrangebyscore p) s).0 ≡ [] =
          empty_of_count _ (λ k. laws.exec-Answers (zrangebyscore p) s k ∙ idle k) in
        let e : R.view (run_until 2 (dequeue p h u) s) ≡ record (R.view s) { pending = rest } =
          pop_after_promotion h u _ _ none_due
          ∙ ap (effect (lpop pending)) (laws.view-exec (zrangebyscore p) s)
          ∙ ap (λ (xs : List ℕ). record (R.view s) { pending = drop 1 xs }) head in
        rw e (ground (arith, placed i))
