-- ===== src/Queue/Fifo.antt =====
-- First in, first out.
use mathlib.Core.Path.{ap₂, subst}
use mathlib.Core.List.{append-nil, append_assoc}
use product_intelligence.Base.{
  ℕ, zero, suc, ◌≡◌, ◌≢◌, refl, sym, ap, ◌∙◌, Option, some, List, [], ◌∷◌, ◌++◌, arith, count,
  length, map, All,
}
use product_intelligence.Queue.Job.{Job}
use product_intelligence.Queue.Redis.{
  Redis, IsRedis, View, Prog, ret, run, ◌>>=◌, ◌>>◌, due, update,
}
use product_intelligence.Queue.RedisQueue.{enqueue, dequeue}
use product_intelligence.Queue.Refinement.{outcome, run-bind, enqueue_view, dequeue-outcome}
use product_intelligence.Queue.Transitions.{
  enqueued, started, promoted, popped, popped_record, saved,
}

pub empty_of_count : (xs : List ℕ) → ((i : ℕ) → count i xs ≡ 0) → xs ≡ []
empty_of_count [] h = refl
empty_of_count (x ∷ xs) h = absurd (ground (arith, h x))

module _ {P : Type 0} where
  abbrev ids : List (Job P) → List ℕ
  ids [] = []
  ids (job ∷ jobs) = job.job_id ∷ ids jobs

  abbrev Differ : ℕ → List (Job P) → Type 0
  Differ i jobs = All (λ job. job.job_id ≢ i) jobs

  abbrev pub Distinct : List (Job P) → Type 0
  Distinct [] = Unit
  Distinct (job ∷ jobs) = Differ job.job_id jobs × Distinct jobs

  abbrev Stored : (ℕ → Option (Job P)) → List (Job P) → Type 0
  Stored store jobs = All (λ job. store job.job_id ≡ some job) jobs

  abbrev pub NothingDue : ℕ → View P → Type 0
  NothingDue now v = (i : ℕ) → due now (v.delayed i) ≡ 0

  -- Client code: a batch of uploads, and a worker that takes `n` times.
  abbrev pub enqueue_each : List (Job P) → Prog P Unit
  enqueue_each [] = ret tt
  enqueue_each (job ∷ jobs) = do enqueue job; enqueue_each jobs

  abbrev pub dequeue_each :
      ℕ → (promoted_at held_at updated_at : ℕ) → Prog P (List (Option (Job P)))
  dequeue_each zero p h u = ret []
  dequeue_each (suc n) p h u = do
    taken ← dequeue p h u
    rest ← dequeue_each n p h u
    ret (taken ∷ rest)

  enqueued_each : List (Job P) → View P → View P
  enqueued_each [] v = v
  enqueued_each (job ∷ jobs) v = enqueued_each jobs (enqueued job v)

  enqueued_each-pending :
      (jobs : List (Job P)) (v : View P)
      → ((enqueued_each jobs v).pending ≡ v.pending ++ ids jobs)
        × ((enqueued_each jobs v).delayed ≡ v.delayed)
  unfolding enqueued_each
  enqueued_each-pending [] v = (sym (append-nil v.pending), refl)
  enqueued_each-pending (job ∷ jobs) v =
      let (p, d) = enqueued_each-pending jobs (enqueued job v) in
      (p ∙ append_assoc v.pending (job.job_id ∷ []) (ids jobs), d)

  enqueued_each-jobs :
      (jobs : List (Job P)) (v : View P) (i : ℕ)
      → Differ i jobs
      → (enqueued_each jobs v).jobs i ≡ v.jobs i
  unfolding enqueued_each
  enqueued_each-jobs [] v i h = refl
  enqueued_each-jobs (job ∷ jobs) v i (h, hs) =
      ground (arith, enqueued_each-jobs jobs (enqueued job v) i hs)

  enqueued_each-Stored :
      (jobs : List (Job P)) (v : View P) → Distinct jobs → Stored (enqueued_each jobs v).jobs jobs
  unfolding enqueued_each
  enqueued_each-Stored [] v d = tt
  enqueued_each-Stored (job ∷ jobs) v (differ, d) = (
    ground (arith, enqueued_each-jobs jobs (enqueued job v) job.job_id differ),
    enqueued_each-Stored jobs (enqueued job v) d,
  )

  Stored-update :
      (jobs : List (Job P)) (store : ℕ → Option (Job P)) (i : ℕ) (new : Option (Job P))
      → Differ i jobs
      → Stored store jobs
      → Stored (update store i new) jobs
  Stored-update [] store i new d h = tt
  Stored-update (job ∷ jobs) store i new (d, ds) (h, hs) =
      (ground arith, Stored-update jobs store i new ds hs)

  module _ (R : Redis P) (laws : IsRedis R) where
    enqueue_each_view :
        (jobs : List (Job P)) (s : R.State)
        → R.view (run R (enqueue_each jobs) s).1 ≡ enqueued_each jobs (R.view s)
    unfolding enqueued_each
    enqueue_each_view [] s = refl
    enqueue_each_view (job ∷ jobs) s =
        ap (λ (o : Unit {0} × R.State). R.view o.1)
          (run-bind R (enqueue job) (λ _. enqueue_each jobs) s)
        ∙ enqueue_each_view jobs (run R (enqueue job) s).1
        ∙ ap (enqueued_each jobs) (enqueue_view R laws job s)

    dequeue_not_due :
        (p h u : ℕ) (s : R.State)
        → NothingDue p (R.view s)
        → outcome R (dequeue p h u) s ≡ popped h u (R.view s).pending (R.view s)
    dequeue_not_due p h u s idle =
        let (due_ids, are_due, e) = dequeue-outcome R laws p h u s in
        let none_due : due_ids ≡ [] = empty_of_count due_ids (λ i. are_due i ∙ idle i) in
        e ∙ ap (λ l. popped h u (promoted l (R.view s)).pending (promoted l (R.view s))) none_due

    drain :
        (p h u : ℕ) (jobs : List (Job P)) (s : R.State)
        → (R.view s).pending ≡ ids jobs
        → NothingDue p (R.view s)
        → Stored (R.view s).jobs jobs
        → Distinct jobs
        → (run R (dequeue_each (length jobs) p h u) s).0 ≡ map (λ job. some (started u job)) jobs
    drain p h u [] s waiting idle stored d = refl
    drain p h u (job ∷ jobs) s waiting idle (found, stored) (differ, d) =
        let v : View P = R.view s in
        let w : View P =
          saved (started u job) (record v {
            pending = ids jobs;
            processing = update v.processing job.job_id (some h);
          }) in
        let e : outcome R (dequeue p h u) s ≡ (some (started u job), w) =
          dequeue_not_due p h u s idle
          ∙ ap (λ (l : List ℕ). popped h u l v) waiting
          ∙ ap (λ (o : Option (Job P)). popped_record h u o (record v { pending = ids jobs }))
              found in
        let s' : R.State = (run R (dequeue p h u) s).1 in
        let same : w ≡ R.view s' = sym (ap (λ (o : Option (Job P) × View P). o.1) e) in
        let rest : (run R (dequeue_each (length jobs) p h u) s').0
            ≡ map (λ j. some (started u j)) jobs =
          drain p h u jobs s' (subst (λ (x : View P). x.pending ≡ ids jobs) same refl)
            (subst (NothingDue p) same idle)
            (subst (λ (x : View P). Stored x.jobs jobs) same
              (Stored-update jobs v.jobs job.job_id (some (started u job)) differ stored))
            d in
        ap (λ (o : List (Option (Job P)) × R.State). o.0)
          (run-bind R (dequeue p h u)
            (λ taken. dequeue_each (length jobs) p h u >>= λ l. ret (taken ∷ l)) s)
        ∙ ap (λ (o : List (Option (Job P)) × R.State). o.0)
            (run-bind R (dequeue_each (length jobs) p h u) (λ l. ret (_ ∷ l)) s')
        ∙ ap₂ ◌∷◌ (ap (λ (o : Option (Job P) × View P). o.0) e) rest

    -- Jobs with different ids that are enqueued on an empty queue with nothing due are handed out in
    -- the order of enqueueing, each with status RUNNING and the fields that it was enqueued with.
    pub dequeue_each-enqueue_each :
        (p h u : ℕ) (jobs : List (Job P)) (s : R.State)
        → (R.view s).pending ≡ []
        → NothingDue p (R.view s)
        → Distinct jobs
        → (run R (enqueue_each jobs >> dequeue_each (length jobs) p h u) s).0
          ≡ map (λ job. some (started u job)) jobs
    dequeue_each-enqueue_each p h u jobs s empty idle d =
        let v : View P = R.view s in
        let same : enqueued_each jobs v ≡ R.view (run R (enqueue_each jobs) s).1 =
          sym (enqueue_each_view jobs s) in
        let (added, kept) = enqueued_each-pending jobs v in
        ap (λ (o : List (Option (Job P)) × R.State). o.0)
          (run-bind R (enqueue_each jobs) (λ _. dequeue_each (length jobs) p h u) s)
        ∙ drain p h u jobs (run R (enqueue_each jobs) s).1
            (subst (λ (x : View P). x.pending ≡ ids jobs) same (rw (added, empty)))
            (subst (NothingDue p) same (rw kept idle))
            (subst (λ (x : View P). Stored x.jobs jobs) same (enqueued_each-Stored jobs v d)) d
