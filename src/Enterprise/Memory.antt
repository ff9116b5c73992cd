-- ===== src/Enterprise/Memory.antt =====
-- A server in memory, which shows that the documented behaviour of Redis, of JSON and of UUIDs that the
-- theorems on the enterprise layer rely on can be met.
use product_intelligence.Base.{
  ℕ, zero, suc, ◌≡◌, ◌≢◌, refl, ap, ◌||◌, Option, none, some, List, [], ◌∷◌, ◌++◌, take, length,
  length-take, length-append, sym, ◌∙◌, ◌/◌, arith, inl, inr, Bool-cases, if◌then◌else◌,
}
use product_intelligence.Text.Strings.{Text, text_eq, text_eq_sound, text_eq_refl}
use product_intelligence.Enterprise.Models.{ApiKey, Organization, Tenant, AuditEvent}
use product_intelligence.Enterprise.Redis.{
  Redis, Backend, IsRedis, IsBackend, ℤ, pos, negsuc, mem, int_or_zero,
}

pub data Stored : Type 0 where
  api_key : ApiKey → Stored
  organization : Organization → Stored
  tenant : Tenant → Stored
  event : AuditEvent → Stored
  number : ℕ → Stored

pub record Memory : Type 0 where
  pub strings : Text → Option Stored
  pub sets : Text → List Text
  pub lists : Text → List Stored

abbrev put {ℓ} : {A : Type ℓ} → (Text → A) → Text → A → Text → A
put f k v j = if text_eq k j then v else f j

put_self {ℓ} : {A : Type ℓ} (f : Text → A) (k : Text) (v : A) → put f k v k ≡ v
put_self f k v = rw (text_eq_refl k)

put_ne {ℓ} : {A : Type ℓ} (f : Text → A) (k j : Text) (v : A) → j ≢ k → put f k v j ≡ f j
put_ne f k j v h = elim (Bool-cases (text_eq k j)) [
  | inl same ↦ absurd (h (sym (text_eq_sound k j same)))
  | inr differ ↦ rw differ
]

abbrev pub int : Stored → ℕ
int (number n) = n
int _ = 0

abbrev upto : ℤ → List Stored → List Stored
upto (pos n) xs = take (suc n) xs
upto (negsuc n) xs = xs

abbrev redis : Redis Memory Stored
redis = record {
  get = λ k m. m.strings k;
  set = λ k v m. record m { strings = put m.strings k (some v) };
  incr = λ k m. (
    record m { strings = put m.strings k (some (number (suc (int_or_zero int (m.strings k))))) },
    suc (int_or_zero int (m.strings k)),
  );
  expire = λ k n m. m;
  sadd = λ k t m. record m { sets = put m.sets k (t ∷ m.sets k) };
  smembers = λ k m. m.sets k;
  lpush = λ k v m. record m { lists = put m.lists k (v ∷ m.lists k) };
  ltrim = λ k z m. record m { lists = put m.lists k (upto z (m.lists k)) };
  lrange = λ k z m. upto z (m.lists k);
}

mem-cons : (n t : Text) (ts : List Text) → mem n (t ∷ ts) ≡ (text_eq n t || mem n ts)
mem-cons n t ts = ground arith

redis-IsRedis : IsRedis redis int
redis-IsRedis = record {
  get-set = λ k v m. put_self m.strings k (some v);
  get-set_ne = λ k j v m h. put_ne m.strings k j (some v) h;
  get-incr = λ k m. ap (λ (o : Option Stored). int_or_zero int o) (put_self m.strings k _);
  incr_count = λ k m. refl;
  get-incr_ne = λ k j m h. put_ne m.strings k j _ h;
  get-expire = λ k j n m. refl;
  get-sadd = λ k j t m h. refl;
  get-lpush = λ k j v m h. refl;
  get-ltrim = λ k j z m h. refl;
  smembers-sadd = λ k t n m.
      ap (λ (ts : List Text). mem n ts) (put_self m.sets k (t ∷ m.sets k))
      ∙ mem-cons n t (m.sets k);
  smembers-set = λ k j v m h. refl;
  lrange_pos = λ k n m. refl;
  lrange-lpush = λ k v m. put_self m.lists k (v ∷ m.lists k);
  lrange-lpush_ne = λ k j v m h. put_ne m.lists k j _ h;
  lrange-ltrim = λ k n m. put_self m.lists k (take (suc n) (m.lists k));
  lrange-ltrim_ne = λ k j z m h. put_ne m.lists k j _ h;
}

abbrev zeros : ℕ → Text
zeros zero = []
zeros (suc n) = 48 ∷ zeros n

length-zeros : (n : ℕ) → length (zeros n) ≡ n
length-zeros zero = refl
length-zeros (suc n) = ap suc (length-zeros n)

abbrev first : Text → ℕ
first [] = 0
first (c ∷ cs) = c

-- The identity of a UUID and the moment are in the first code point.
abbrev pub server : Backend Memory Stored
server = record {
  redis = redis;
  int = int;
  api_keys = record { dump = api_key; validate = λ v. elim v [ api_key k ↦ some k | _ ↦ none ] };
  organizations = record {
    dump = organization;
    validate = λ v. elim v [ organization o ↦ some o | _ ↦ none ];
  };
  tenants = record { dump = tenant; validate = λ v. elim v [ tenant t ↦ some t | _ ↦ none ] };
  events = record { dump = event; validate = λ v. elim v [ event e ↦ some e | _ ↦ none ] };
  uuids = record { str = λ i. i ∷ zeros 35; parse = first };
  sha256 = λ t. take 64 (t ++ zeros 64);
  day = λ now. now / 1440 ∷ [];
  minute = λ now. now ∷ [];
}

pub server-IsBackend : IsBackend server
server-IsBackend = record {
  redis = redis-IsRedis;
  api_keys = λ k. refl;
  organizations = λ o. refl;
  tenants = λ t. refl;
  events = λ e. refl;
  uuids = record { parse-str = λ i. refl; length-str = λ i. refl };
  length-sha256 = λ t.
      length-take 64 (t ++ zeros 64) ∙ omega (arith, length-append t (zeros 64), length-zeros 64);
}

abbrev pub fresh_memory : Memory
fresh_memory = record { strings = λ k. none; sets = λ k. []; lists = λ k. [] }
