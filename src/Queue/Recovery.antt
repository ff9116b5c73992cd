-- ===== src/Queue/Recovery.antt =====
-- Crash recovery: what `requeue_stale_jobs` does to the jobs in `processing`.
use mathlib.Core.Path.{subst}
use product_intelligence.Base.{
  ℕ, ◌+◌, ◌≤◌, ◌≡◌, refl, sym, none, some, List, [], ◌∷◌, arith, count, ltb, if◌then◌else◌,
  Bool-cases, Option-cases, inl, inr, ◌==◌,
}
use product_intelligence.Queue.Redis.{Redis, IsRedis, View, run, present, lookup, keys}
use product_intelligence.Queue.Transitions.{AreEntries, recovered_one, recovered, unless_stale}
use product_intelligence.Queue.RedisQueue.{stale_error, requeue_stale_jobs}
use product_intelligence.Queue.Refinement.{requeue_stale_jobs-outcome}
use product_intelligence.Queue.Placement.{IsPlaced, retried-IsPlaced}

count_of_lookup : (i : ℕ) (m : List (ℕ × ℕ)) → present (lookup i m) ≤ count i (keys m)
count_of_lookup i [] = omega arith
count_of_lookup i ((j, t) ∷ m) = ground (arith, count_of_lookup i m)

module _ {P : Type 0} (retry_delay older_than now : ℕ) (at : ℕ → ℕ) where
  -- Entries still to be visited: each is in `processing`, and none stands twice.
  abbrev AreHeld : List (ℕ × ℕ) → View P → Type 0
  AreHeld entries v = (i : ℕ) → count i (keys entries) ≤ present (v.processing i)

  recovered_one-IsPlaced :
      (i t : ℕ) (v : View P)
      → 1 ≤ present (v.processing i)
      → IsPlaced v
      → IsPlaced (recovered_one retry_delay older_than now at i t v).1
  recovered_one-IsPlaced i t v held placed = elim (Bool-cases (ltb now (t + older_than))) [
    | inl young ↦ rw young placed
    | inr stale ↦ rw stale (elim (Option-cases (v.jobs i)) [
      | inl missing ↦ absurd (ground (arith, placed i))
      | inr (job, found) ↦ rw found (
          retried-IsPlaced retry_delay (at i) (at i) stale_error job v (ground (arith, placed i))
            placed)
    ])
  ]

  -- The visit of one entry changes no other.
  recovered_one-processing :
      (i t k : ℕ) (v : View P)
      → IsPlaced v
      → (recovered_one retry_delay older_than now at i t v).1.processing k ≡ (
          if i == k
          then (if ltb now (t + older_than) then v.processing k else none)
          else v.processing k)
  recovered_one-processing i t k v placed = ground (arith, placed i)

  recovered_one-AreHeld :
      (i t : ℕ) (rest : List (ℕ × ℕ)) (v : View P)
      → AreHeld ((i, t) ∷ rest) v
      → IsPlaced v
      → AreHeld rest (recovered_one retry_delay older_than now at i t v).1
  recovered_one-AreHeld i t rest v held placed k =
      ground (arith, held k, recovered_one-processing i t k v placed)

  -- The loop, over entries that tell when each job was taken.
  recovered_lem :
      (entries : List (ℕ × ℕ)) (n : ℕ) (v : View P)
      → AreHeld entries v
      → IsPlaced v
      → let w = (recovered retry_delay older_than now at entries n v).1 in
        IsPlaced w
        × ((k : ℕ)
            → w.processing k ≡ elim (lookup k entries) [
              | none ↦ v.processing k
              | some t ↦ if ltb now (t + older_than) then v.processing k else none
            ])
  recovered_lem [] n v held placed = (placed, λ k. refl)
  recovered_lem ((i, t) ∷ rest) n v held placed =
      let (k, v') = recovered_one retry_delay older_than now at i t v in
      let (placed', cleared) =
        recovered_lem rest (n + k) v' (recovered_one-AreHeld i t rest v held placed)
          (recovered_one-IsPlaced i t v (ground (arith, held i)) placed) in
      (
        placed',
        λ j. ground (
          arith,
          cleared j,
          recovered_one-processing i t j v placed,
          held j,
          count_of_lookup j rest,
        ),
      )

  pub recovered-IsPlaced :
      (entries : List (ℕ × ℕ)) (v : View P)
      → AreEntries entries v
      → IsPlaced v
      → let w = (recovered retry_delay older_than now at entries 0 v).1 in
        IsPlaced w × ((k : ℕ) → w.processing k ≡ unless_stale older_than now (v.processing k))
  recovered-IsPlaced entries v listed placed =
      let (placed', cleared) =
        recovered_lem entries 0 v (λ i. omega (arith, (listed i).1)) placed in
      (placed', λ k. ground (arith, cleared k, (listed k).0))

  -- After `requeue_stale_jobs` every id still stands where its record says, if each stood there
  -- before, and `processing` has kept just the entries that are younger than the threshold.
  pub requeue_stale_jobs-IsPlaced :
      (R : Redis P) (laws : IsRedis R) (s : R.State)
      → IsPlaced (R.view s)
      → let w = R.view (run R (requeue_stale_jobs retry_delay older_than now at) s).1 in
        IsPlaced w
        × ((k : ℕ) → w.processing k ≡ unless_stale older_than now ((R.view s).processing k))
  requeue_stale_jobs-IsPlaced R laws s placed =
      let (entries, listed, e) =
        requeue_stale_jobs-outcome R laws retry_delay older_than now at s in
      subst
        (λ (o : ℕ × View P).
          IsPlaced o.1
          × ((k : ℕ) → o.1.processing k ≡ unless_stale older_than now ((R.view s).processing k)))
        (sym e) (recovered-IsPlaced entries (R.view s) listed placed)
