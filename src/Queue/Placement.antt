-- ===== src/Queue/Placement.antt =====
-- Where the id of a job stands: the invariant behind "never lose a job".
use product_intelligence.Base.{
  ℕ, ◌+◌, ◌≤◌, ◌≡◌, String, Option, none, some, List, [], ◌∷◌, arith, count, count-append, ◌==◌,
  if◌then◌else◌, ap, ◌⊎◌,
}
use product_intelligence.Queue.Job.{Job, JobStatus, pending, running, completed, failed, retrying}
use product_intelligence.Queue.Redis.{View, present}
use product_intelligence.Queue.Transitions.{
  saved, enqueued, promoted_one, promoted, AreDue, popped, acked, retried,
}

-- How often the id stands in the pending list, the processing hash, the delayed set and the
-- dead-letter list, by the status of its record.
abbrev pub Spot : JobStatus → (p h d x : ℕ) → Type 0
Spot pending p h d x = (p ≡ 1) × (h ≡ 0) × (d ≡ 0) × (x ≡ 0)
Spot running p h d x = (p ≡ 0) × (h ≡ 1) × (d ≡ 0) × (x ≡ 0)
Spot completed p h d x = (p ≡ 0) × (h ≤ 1) × (d ≡ 0) × (x ≡ 0)
Spot failed p h d x = (p ≡ 0) × (h ≡ 0) × (d ≡ 0) × (x ≡ 1)
Spot retrying p h d x = (p + d ≡ 1) × (h ≡ 0) × (x ≡ 0)

module _ {P : Type 0} where
  abbrev pub SpotOf : Option (Job P) → ℕ → (p h d x : ℕ) → Type 0
  SpotOf none i p h d x = (p ≡ 0) × (h ≡ 0) × (d ≡ 0) × (x ≡ 0)
  SpotOf (some job) i p h d x = (job.job_id ≡ i) × Spot job.status p h d x

  -- Every id stands exactly where the status of its record says.
  abbrev pub IsPlaced : View P → Type 0
  IsPlaced v =
      (i : ℕ)
      → SpotOf (v.jobs i) i (count i v.pending) (present (v.processing i)) (present (v.delayed i))
          (count i v.dead_letter)

  -- Some worker has taken the job and has not given it back.
  abbrev pub IsHeld : Job P → View P → Type 0
  IsHeld job v = 1 ≤ present (v.processing job.job_id)

  pub enqueued-IsPlaced :
      (job : Job P) (v : View P)
      → job.status ≡ pending
      → v.jobs job.job_id ≡ none
      → IsPlaced v
      → IsPlaced (enqueued job v)
  enqueued-IsPlaced job v is_new fresh placed i =
      ground (arith, placed i, count-append i v.pending (job.job_id ∷ []))

  -- What a promotion of `ids` changes.
  record IsPromoted (ids : List ℕ) (v w : View P) : Type 0 where
    pending_same : (i : ℕ) → count i w.pending ≡ count i v.pending + count i ids
    delayed_same :
        (i : ℕ) → present (w.delayed i) ≡ (if count i ids == 0 then present (v.delayed i) else 0)
    processing_same : w.processing ≡ v.processing
    dead_letter_same : w.dead_letter ≡ v.dead_letter
    jobs_same : w.jobs ≡ v.jobs

  promoted-IsPromoted : (ids : List ℕ) (v : View P) → IsPromoted ids v (promoted ids v)
  promoted-IsPromoted [] v = ground arith
  promoted-IsPromoted (k ∷ ids) v =
      let rest = promoted-IsPromoted ids (promoted_one k v) in
      record {
        pending_same = λ i. ground (arith, rest.pending_same i, count-append i v.pending (k ∷ []));
        delayed_same = λ i. ground (arith, rest.delayed_same i);
        processing_same = rest.processing_same;
        dead_letter_same = rest.dead_letter_same;
        jobs_same = rest.jobs_same;
      }

  pub promoted-IsPlaced :
      (now : ℕ) (ids : List ℕ) (v : View P)
      → AreDue now ids v
      → IsPlaced v
      → IsPlaced (promoted ids v)
  promoted-IsPlaced now ids v are_due placed i =
      let same = promoted-IsPromoted ids v in
      ground (
        arith,
        placed i,
        are_due i,
        same.pending_same i,
        same.delayed_same i,
        ap (λ (f : ℕ → Option (Job P)). f i) same.jobs_same,
        ap (λ (f : ℕ → Option ℕ). f i) same.processing_same,
      )

  pub popped-IsPlaced :
      (held_at updated_at : ℕ) (xs : List ℕ) (v : View P)
      → v.pending ≡ xs
      → IsPlaced v
      → IsPlaced (popped held_at updated_at xs v).1
  popped-IsPlaced held_at updated_at [] v e placed i = ground (arith, placed i)
  popped-IsPlaced held_at updated_at (k ∷ rest) v e placed i = ground (arith, placed i, placed k)

  -- A worker that holds a job may give it back.
  pub retried-IsPlaced :
      (retry_delay updated_at now : ℕ) (error : String) (job : Job P) (v : View P)
      → IsHeld job v
      → IsPlaced v
      → IsPlaced (retried retry_delay updated_at now error job v)
  retried-IsPlaced retry_delay updated_at now error job v held placed i =
      ground (arith, placed i, placed job.job_id, count-append i v.dead_letter (job.job_id ∷ []))

  -- So may it save its progress, or the finished record.
  pub saved-IsPlaced :
      (job : Job P) (v : View P)
      → IsHeld job v
      → (job.status ≡ running) ⊎ (job.status ≡ completed)
      → IsPlaced v
      → IsPlaced (saved job v)
  saved-IsPlaced job v held status placed i = ground (arith, placed i, placed job.job_id)

  pub acked-IsPlaced :
      (job : Job P) (v : View P) {stored : Job P}
      → v.jobs job.job_id ≡ some stored
      → stored.status ≡ completed
      → IsPlaced v
      → IsPlaced (acked job v)
  acked-IsPlaced job v found done placed i = ground (arith, placed i)
