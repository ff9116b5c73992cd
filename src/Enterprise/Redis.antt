-- ===== src/Enterprise/Redis.antt =====
-- What the repositories of the enterprise layer ask of Redis, of pydantic's JSON and of UUIDs. None of
-- these is code of the repository: each is a record of operations, and its documented behaviour is a
-- record of laws. `S` is the state of the server, `V` the type of the texts that it stores.
use product_intelligence.Base.{
  ℕ, suc, ◌≡◌, ◌≢◌, Bool, ◌||◌, Option, none, some, List, ◌∷◌, take, any_by, length,
}
use product_intelligence.Text.Strings.{Text, text_eq}
use product_intelligence.Enterprise.Models.{ApiKey, Organization, Tenant, AuditEvent}

-- The end of a range: `negsuc n` is -(n + 1), which counts from the end of the list.
pub data ℤ : Type 0 where
  pos : ℕ → ℤ
  negsuc : ℕ → ℤ

pub record Redis (S V : Type 0) : Type 0 where
  pub get : Text → S → Option V
  pub set : Text → V → S → S
  pub incr : Text → S → S × ℕ
  pub expire : Text → (seconds : ℕ) → S → S
  pub sadd : Text → Text → S → S
  pub smembers : Text → S → List Text
  pub lpush : Text → V → S → S
  -- `ltrim(key, 0, stop)` and `lrange(key, 0, stop)`
  pub ltrim : Text → (stop : ℤ) → S → S
  pub lrange : Text → (stop : ℤ) → S → List V

-- Python's `int(raw)`, `model_dump_json` and `model_validate_json`; the last raises on a text that is
-- no record of the type.
pub record Json (A V : Type 0) : Type 0 where
  pub dump : A → V
  pub validate : V → Option A

pub record Uuids : Type 0 where
  pub str : ℕ → Text
  pub parse : Text → ℕ

-- All that the enterprise layer runs on. `sha256` is the hexadecimal digest of hashlib; `day` and `minute`
-- are `now.date().isoformat()` and `now.strftime('%Y-%m-%dT%H:%M')`.
pub record Backend (S V : Type 0) : Type 0 where
  pub redis : Redis S V
  pub int : V → ℕ
  pub api_keys : Json ApiKey V
  pub organizations : Json Organization V
  pub tenants : Json Tenant V
  pub events : Json AuditEvent V
  pub uuids : Uuids
  pub sha256 : Text → Text
  pub day : ℕ → Text
  pub minute : ℕ → Text

abbrev pub HasRoundTrip : {A V : Type 0} → Json A V → Type 0
HasRoundTrip {A} j = (a : A) → j.validate (j.dump a) ≡ some a

pub record IsUuids (u : Uuids) : Type 0 where
  pub parse-str : (i : ℕ) → u.parse (u.str i) ≡ i
  pub length-str : (i : ℕ) → length (u.str i) ≡ 36

abbrev pub mem : Text → List Text → Bool
mem t ts = any_by (text_eq t) ts

-- The number that a counter holds, where `int` is Python's; a key without a value counts 0.
abbrev pub int_or_zero : {V : Type 0} → (V → ℕ) → Option V → ℕ
int_or_zero int none = 0
int_or_zero int (some raw) = int raw

-- The commands act on their own key: `get` reads a key of strings, `smembers` one of sets, and
-- `lrange` one of lists.
pub record IsRedis {S V : Type 0} (r : Redis S V) (int : V → ℕ) : Type 0 where
  pub get-set : (k : Text) (v : V) (s : S) → r.get k (r.set k v s) ≡ some v
  pub get-set_ne : (k j : Text) (v : V) (s : S) → j ≢ k → r.get j (r.set k v s) ≡ r.get j s
  pub get-incr :
      (k : Text) (s : S)
      → int_or_zero int (r.get k (r.incr k s).0) ≡ suc (int_or_zero int (r.get k s))
  pub incr_count : (k : Text) (s : S) → (r.incr k s).1 ≡ suc (int_or_zero int (r.get k s))
  pub get-incr_ne : (k j : Text) (s : S) → j ≢ k → r.get j (r.incr k s).0 ≡ r.get j s
  pub get-expire : (k j : Text) (n : ℕ) (s : S) → r.get j (r.expire k n s) ≡ r.get j s
  pub get-sadd : (k j m : Text) (s : S) → j ≢ k → r.get j (r.sadd k m s) ≡ r.get j s
  pub get-lpush : (k j : Text) (v : V) (s : S) → j ≢ k → r.get j (r.lpush k v s) ≡ r.get j s
  pub get-ltrim : (k j : Text) (z : ℤ) (s : S) → j ≢ k → r.get j (r.ltrim k z s) ≡ r.get j s
  pub smembers-sadd :
      (k m n : Text) (s : S)
      → mem n (r.smembers k (r.sadd k m s)) ≡ (text_eq n m || mem n (r.smembers k s))
  pub smembers-set :
      (k j : Text) (v : V) (s : S) → j ≢ k → r.smembers j (r.set k v s) ≡ r.smembers j s
  pub lrange_pos :
      (k : Text) (n : ℕ) (s : S) → r.lrange k (pos n) s ≡ take (suc n) (r.lrange k (negsuc 0) s)
  pub lrange-lpush :
      (k : Text) (v : V) (s : S)
      → r.lrange k (negsuc 0) (r.lpush k v s) ≡ v ∷ r.lrange k (negsuc 0) s
  pub lrange-lpush_ne :
      (k j : Text) (v : V) (s : S)
      → j ≢ k
      → r.lrange j (negsuc 0) (r.lpush k v s) ≡ r.lrange j (negsuc 0) s
  pub lrange-ltrim :
      (k : Text) (n : ℕ) (s : S)
      → r.lrange k (negsuc 0) (r.ltrim k (pos n) s) ≡ take (suc n) (r.lrange k (negsuc 0) s)
  pub lrange-ltrim_ne :
      (k j : Text) (z : ℤ) (s : S)
      → j ≢ k
      → r.lrange j (negsuc 0) (r.ltrim k z s) ≡ r.lrange j (negsuc 0) s

pub record IsBackend {S V : Type 0} (b : Backend S V) : Type 0 where
  pub redis : IsRedis b.redis b.int
  pub api_keys : HasRoundTrip b.api_keys
  pub organizations : HasRoundTrip b.organizations
  pub tenants : HasRoundTrip b.tenants
  pub events : HasRoundTrip b.events
  pub uuids : IsUuids b.uuids
  pub length-sha256 : (t : Text) → length (b.sha256 t) ≡ 64
