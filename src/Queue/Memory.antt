-- ===== src/Queue/Memory.antt =====
-- A server in memory that meets the documented behaviour: the laws of `IsRedis` can hold.
use mathlib.Core.Path.{fun_ext}
use product_intelligence.Base.{
  ℕ, ◌≤◌, ◌≡◌, refl, ap, Option, none, some, List, [], ◌∷◌, ◌++◌, arith, count, leb, ◌==◌,
  if◌then◌else◌, drop,
}
use product_intelligence.Queue.Job.{Job}
use product_intelligence.Queue.Redis.{
  Redis, IsRedis, View, Cmd, Reply, rpush, lpop, lrange, hset, hdel, hgetall, zadd, zrem,
  zrangebyscore, set_job, get_job, set_index, get_index, pending, dead_letter, update, lookup, keys,
  due, present, head?, effect, Answers,
}

abbrev remove : ℕ → List (ℕ × ℕ) → List (ℕ × ℕ)
remove i [] = []
remove i ((j, t) ∷ m) = if j == i then remove i m else (j, t) ∷ remove i m

-- Each key once, with its last value.
abbrev entries : List (ℕ × ℕ) → List (ℕ × ℕ)
entries [] = []
entries ((j, t) ∷ m) = (j, t) ∷ remove j (entries m)

abbrev up_to : ℕ → List (ℕ × ℕ) → List ℕ
up_to m [] = []
up_to m ((j, t) ∷ l) = if leb t m then j ∷ up_to m l else up_to m l

lookup-remove :
    (i k : ℕ) (m : List (ℕ × ℕ)) → lookup k (remove i m) ≡ (if i == k then none else lookup k m)
lookup-remove i k [] = ground arith
lookup-remove i k ((j, t) ∷ m) = ground (arith, lookup-remove i k m)

count-keys-remove :
    (i k : ℕ) (m : List (ℕ × ℕ))
    → count k (keys (remove i m)) ≡ (if i == k then 0 else count k (keys m))
count-keys-remove i k [] = ground arith
count-keys-remove i k ((j, t) ∷ m) = ground (arith, count-keys-remove i k m)

entries_lem :
    (k : ℕ) (m : List (ℕ × ℕ))
    → (lookup k (entries m) ≡ lookup k m) × (count k (keys (entries m)) ≡ present (lookup k m))
entries_lem k [] = ground arith
entries_lem k ((j, t) ∷ m) =
    ground
      (arith, entries_lem k m, lookup-remove j k (entries m), count-keys-remove j k (entries m))

up_to-le : (m k : ℕ) (l : List (ℕ × ℕ)) → count k (up_to m l) ≤ count k (keys l)
up_to-le m k [] = omega arith
up_to-le m k ((j, t) ∷ l) = ground (arith, up_to-le m k l)

up_to_lem :
    (m k : ℕ) (l : List (ℕ × ℕ)) → count k (keys l) ≤ 1 → count k (up_to m l) ≡ due m (lookup k l)
up_to_lem m k [] h = refl
up_to_lem m k ((j, t) ∷ l) h = ground (arith, up_to_lem m k l, up_to-le m k l)

pub record Memory (P : Type 0) : Type 0 where
  pub pending_list : List ℕ
  pub dead_list : List ℕ
  pub held : List (ℕ × ℕ)
  pub waiting : List (ℕ × ℕ)
  pub records : ℕ → Option (Job P)
  pub of_product : ℕ → Option ℕ

module _ {P : Type 0} where
  abbrev memory_view : Memory P → View P
  memory_view s = record {
    pending = s.pending_list;
    dead_letter = s.dead_list;
    processing = λ i. lookup i s.held;
    delayed = λ i. lookup i s.waiting;
    jobs = s.records;
    index = s.of_product;
  }

  abbrev execute : (c : Cmd P) → Memory P → Reply c × Memory P
  execute (rpush pending i) s = (tt, record s { pending_list = s.pending_list ++ (i ∷ []) })
  execute (rpush dead_letter i) s = (tt, record s { dead_list = s.dead_list ++ (i ∷ []) })
  execute (lpop pending) s =
      (head? s.pending_list, record s { pending_list = drop 1 s.pending_list })
  execute (lpop dead_letter) s = (head? s.dead_list, record s { dead_list = drop 1 s.dead_list })
  execute (lrange pending) s = (s.pending_list, s)
  execute (lrange dead_letter) s = (s.dead_list, s)
  execute (hset i t) s = (tt, record s { held = (i, t) ∷ s.held })
  execute (hdel i) s = (tt, record s { held = remove i s.held })
  execute hgetall s = (entries s.held, s)
  execute (zadd i t) s = (tt, record s { waiting = (i, t) ∷ s.waiting })
  execute (zrem i) s = (tt, record s { waiting = remove i s.waiting })
  execute (zrangebyscore m) s = (up_to m (entries s.waiting), s)
  execute (set_job job) s = (tt, record s { records = update s.records job.job_id (some job) })
  execute (get_job i) s = (s.records i, s)
  execute (set_index product i) s =
      (tt, record s { of_product = update s.of_product product (some i) })
  execute (get_index i) s = (s.of_product i, s)

abbrev pub memory : (P : Type 0) → Redis P
memory P = record { State = Memory P; exec = execute; view = memory_view }

abbrev pub empty : {P : Type 0} → Memory P
empty = record {
  pending_list = [];
  dead_list = [];
  held = [];
  waiting = [];
  records = λ i. none;
  of_product = λ i. none;
}

module _ {P : Type 0} where
  view_execute : (c : Cmd P) (s : Memory P) → memory_view (execute c s).1 ≡ effect c (memory_view s)
  view_execute (rpush pending i) s = refl
  view_execute (rpush dead_letter i) s = refl
  view_execute (lpop pending) s = refl
  view_execute (lpop dead_letter) s = refl
  view_execute (lrange pending) s = refl
  view_execute (lrange dead_letter) s = refl
  view_execute (hdel i) s =
      ap (λ (f : ℕ → Option ℕ). record (memory_view s) { processing = f })
        (fun_ext (λ k. lookup-remove i k s.held))
  view_execute (zrem i) s =
      ap (λ (f : ℕ → Option ℕ). record (memory_view s) { delayed = f })
        (fun_ext (λ k. lookup-remove i k s.waiting))
  view_execute _ s = refl

  execute-Answers : (c : Cmd P) (s : Memory P) → Answers c (memory_view s) (execute c s).0
  execute-Answers (lpop pending) s = refl
  execute-Answers (lpop dead_letter) s = refl
  execute-Answers (lrange pending) s = refl
  execute-Answers (lrange dead_letter) s = refl
  execute-Answers hgetall s = λ i. entries_lem i s.held
  execute-Answers (zrangebyscore m) s =
      λ i. ground (arith, entries_lem i s.waiting, up_to_lem m i (entries s.waiting))
  execute-Answers (get_job i) s = refl
  execute-Answers (get_index i) s = refl
  execute-Answers _ s = tt

pub memory-IsRedis : (P : Type 0) → IsRedis (memory P)
memory-IsRedis P = record { view-exec = view_execute; exec-Answers = execute-Answers }
