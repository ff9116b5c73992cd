-- ===== src/Queue/Redis.antt =====
-- What backend/app/queue/redis_queue.py asks of the Redis server. The server is no code of the
-- repository: it is a record of a state type and a function that executes commands, and its
-- documented behaviour is the record of laws `IsRedis`, stated on the keys of one queue.
use product_intelligence.Base.{
  ℕ, ◌≡◌, Option, none, some, List, [], ◌∷◌, ◌++◌, leb, ◌==◌, if◌then◌else◌, drop, count,
}
use product_intelligence.Queue.Job.{Job}

-- `{queue_name}:pending` and `{queue_name}:dead_letter`.
pub data ListKey : Type 0 where
  pending dead_letter : ListKey

-- `hset`, `hdel` and `hgetall` are on `{queue_name}:processing`, the `z` commands on
-- `{queue_name}:delayed`; `set_job` and `get_job` are SET and GET of `job:{job_id}`, whose JSON text
-- stands for the record, and `set_index`, `get_index` those of `product:{product_id}:job_id`.
pub data Cmd (P : Type 0) : Type 0 where
  rpush : ListKey → ℕ → Cmd P
  lpop : ListKey → Cmd P
  lrange : ListKey → Cmd P
  hset : ℕ → ℕ → Cmd P
  hdel : ℕ → Cmd P
  hgetall : Cmd P
  zadd : ℕ → ℕ → Cmd P
  zrem : ℕ → Cmd P
  zrangebyscore : ℕ → Cmd P
  set_job : Job P → Cmd P
  get_job : ℕ → Cmd P
  set_index : ℕ → ℕ → Cmd P
  get_index : ℕ → Cmd P

abbrev pub Reply : {P : Type 0} → Cmd P → Type 0
Reply (lpop k) = Option ℕ
Reply (lrange k) = List ℕ
Reply hgetall = List (ℕ × ℕ)
Reply (zrangebyscore m) = List ℕ
Reply {P} (get_job i) = Option (Job P)
Reply (get_index i) = Option ℕ
Reply _ = Unit

-- The content of the keys.
pub record View (P : Type 0) : Type 0 where
  pub pending : List ℕ
  pub dead_letter : List ℕ
  pub processing : ℕ → Option ℕ
  pub delayed : ℕ → Option ℕ
  pub jobs : ℕ → Option (Job P)
  pub index : ℕ → Option ℕ

abbrev pub update {ℓ} : {A : Type ℓ} → (ℕ → A) → ℕ → A → ℕ → A
update f i x j = if i == j then x else f j

abbrev pub head? : List ℕ → Option ℕ
head? [] = none
head? (x ∷ xs) = some x

abbrev pub lookup : ℕ → List (ℕ × ℕ) → Option ℕ
lookup i [] = none
lookup i ((j, t) ∷ m) = if j == i then some t else lookup i m

abbrev pub keys : List (ℕ × ℕ) → List ℕ
keys [] = []
keys ((j, t) ∷ m) = j ∷ keys m

-- How a member of the sorted set counts among those with a score up to `m`.
abbrev pub due : ℕ → Option ℕ → ℕ
due m none = 0
due m (some t) = if leb t m then 1 else 0

abbrev pub present : Option ℕ → ℕ
present none = 0
present (some t) = 1

abbrev pub effect : {P : Type 0} → Cmd P → View P → View P
effect (rpush pending i) v = record v { pending = v.pending ++ (i ∷ []) }
effect (rpush dead_letter i) v = record v { dead_letter = v.dead_letter ++ (i ∷ []) }
effect (lpop pending) v = record v { pending = drop 1 v.pending }
effect (lpop dead_letter) v = record v { dead_letter = drop 1 v.dead_letter }
effect (hset i t) v = record v { processing = update v.processing i (some t) }
effect (hdel i) v = record v { processing = update v.processing i none }
effect (zadd i t) v = record v { delayed = update v.delayed i (some t) }
effect (zrem i) v = record v { delayed = update v.delayed i none }
effect (set_job job) v = record v { jobs = update v.jobs job.job_id (some job) }
effect (set_index product i) v = record v { index = update v.index product (some i) }
effect _ v = v

abbrev pub list_at : {P : Type 0} → ListKey → View P → List ℕ
list_at pending v = v.pending
list_at dead_letter v = v.dead_letter

-- HGETALL lists each field once, in no particular order; ZRANGEBYSCORE each member in range once.
abbrev pub Answers : {P : Type 0} (c : Cmd P) → View P → Reply c → Type 0
Answers (lpop k) v r = r ≡ head? (list_at k v)
Answers (lrange k) v r = r ≡ list_at k v
Answers hgetall v r =
    (i : ℕ) → (lookup i r ≡ v.processing i) × (count i (keys r) ≡ present (v.processing i))
Answers (zrangebyscore m) v r = (i : ℕ) → count i r ≡ due m (v.delayed i)
Answers (get_job i) v r = r ≡ v.jobs i
Answers (get_index i) v r = r ≡ v.index i
Answers _ v r = Unit

pub record Redis (P : Type 0) : Type 1 where
  pub State : Type 0
  pub exec : (c : Cmd P) → State → Reply c × State
  pub view : State → View P

pub record IsRedis {P : Type 0} (R : Redis P) : Type 0 where
  pub view-exec : (c : Cmd P) (s : R.State) → R.view (R.exec c s).1 ≡ effect c (R.view s)
  pub exec-Answers : (c : Cmd P) (s : R.State) → Answers c (R.view s) (R.exec c s).0

-- A coroutine that awaits one command after another.
pub data Prog (P : Type 0) (A : Type 0) : Type 0 where
  ret : A → Prog P A
  call : (c : Cmd P) → (Reply c → Prog P A) → Prog P A

infixl 5 ◌>>=◌ ◌>>◌
abbrev pub ◌>>=◌ : {P A B : Type 0} → Prog P A → (A → Prog P B) → Prog P B
ret a >>= g = g a
call c k >>= g = call c (λ r. k r >>= g)

abbrev pub ◌>>◌ : {P B : Type 0} → Prog P (Unit {0}) → Prog P B → Prog P B
m >> n = m >>= λ _. n

abbrev pub perform : {P : Type 0} (c : Cmd P) → Prog P (Reply c)
perform c = call c ret

-- A run with no command of another task in between.
abbrev pub run : {P A : Type 0} (R : Redis P) → Prog P A → R.State → A × R.State
run R (ret a) s = (a, s)
run R (call c k) s = run R (k (R.exec c s).0) (R.exec c s).1
