-- ===== src/Enterprise/AuthLaws.antt =====
-- What the repository of API keys and the authentication guarantee.
use product_intelligence.Base.{
  ℕ, ◌≡◌, ◌≢◌, ◌≤◌, refl, sym, ◌↔◌, ◌∙◌, ap, inl, inr, true, false, Option, none, some, arith,
  Bool-cases, length, if◌then◌else◌,
}
use product_intelligence.Base.Result.{Result, ok, err, ◌>>=◌}
use product_intelligence.Text.Strings.{Text, text_eq, text_eq_sound, text_eq_refl, is_empty}
use product_intelligence.Enterprise.Role.{Role}
use product_intelligence.Enterprise.Models.{
  validation_error, ApiKey, ApiKeyCreation, AuthContext, AuditEvent,
}
use product_intelligence.Enterprise.Redis.{Backend, IsBackend}
use product_intelligence.Enterprise.Keys.{
  is_valid_api_key, generate_raw_key, key_prefix, prefix_key, tenant_keys_key, validated, save_key,
  create, get_by_prefix,
}
use product_intelligence.Enterprise.Audit.{append, audit_key}
use product_intelligence.Enterprise.Auth.{
  Fresh, context_of, checked_key, authenticate, create_api_key,
}
use product_intelligence.Enterprise.KeySpace.{prefix_key_inj, prefix_key-ne}

-- The inversion of a bind that did not raise.
pub >>=-eq-ok :
    {E A B : Type 0} (m : Result E A) (next : A → Result E B) {y : B}
    → (m >>= next) ≡ ok y
    → (x : A) × (m ≡ ok x) × (next x ≡ ok y)
>>=-eq-ok (ok x) next h = (x, refl, h)
>>=-eq-ok (err e) next h = cc

-- The record `k` of the store lets the bearer of `raw_key` act as `context`.
abbrev pub Authenticates :
    {S V : Type 0} → Backend S V → (raw_key : Text) → S → AuthContext → ApiKey → Type 0
Authenticates b raw_key s context k =
    (is_empty raw_key ≡ false)
    × (get_by_prefix b (key_prefix raw_key) s ≡ ok (some k))
    × (k.revoked ≡ false)
    × (k.key_hash ≡ b.sha256 raw_key)
    × (context ≡ context_of k)

module _ {S V : Type 0} (b : Backend S V) (laws : IsBackend b) where
  pub get_by_prefix-save_key :
      (k : ApiKey) (s : S) → get_by_prefix b k.prefix (save_key b k s) ≡ ok (some k)
  unfolding get_by_prefix save_key
  get_by_prefix-save_key k s =
      rw (laws.redis.get-set (prefix_key k.prefix) (b.api_keys.dump k) s)
        (rw (laws.api_keys k, validated))

  pub get_by_prefix-save_key_ne :
      (k : ApiKey) (p : Text) (s : S)
      → p ≢ k.prefix
      → get_by_prefix b p (save_key b k s) ≡ get_by_prefix b p s
  unfolding get_by_prefix save_key
  get_by_prefix-save_key_ne k p s h = rw (
      laws.redis.get-set_ne (prefix_key k.prefix) (prefix_key p) (b.api_keys.dump k) s
        (λ e. h (prefix_key_inj p k.prefix e)))

  -- What a command leaves alone under the keys of the records, `get_by_prefix` does not see.
  pub get_by_prefix_congr :
      (p : Text) (s t : S)
      → b.redis.get (prefix_key p) t ≡ b.redis.get (prefix_key p) s
      → get_by_prefix b p t ≡ get_by_prefix b p s
  unfolding get_by_prefix
  get_by_prefix_congr p s t h = rw h

  get_by_prefix-sadd :
      (p m : Text) (tenant : ℕ) (s : S)
      → get_by_prefix b p (b.redis.sadd (tenant_keys_key b.uuids tenant) m s) ≡ get_by_prefix b p s
  get_by_prefix-sadd p m tenant s =
      get_by_prefix_congr p s (b.redis.sadd (tenant_keys_key b.uuids tenant) m s) (
        laws.redis.get-sadd (tenant_keys_key b.uuids tenant) (prefix_key p) m s
          (prefix_key-ne p _ 116 (omega arith)))

  pub get_by_prefix-create :
      (k : ApiKey) (s : S) → get_by_prefix b k.prefix (create b k s) ≡ ok (some k)
  unfolding create
  get_by_prefix-create k s =
      get_by_prefix-sadd k.prefix k.prefix k.tenant_id (save_key b k s) ∙ get_by_prefix-save_key k s

  pub get_by_prefix-create_ne :
      (k : ApiKey) (p : Text) (s : S)
      → p ≢ k.prefix
      → get_by_prefix b p (create b k s) ≡ get_by_prefix b p s
  unfolding create
  get_by_prefix-create_ne k p s h =
      get_by_prefix-sadd p k.prefix k.tenant_id (save_key b k s) ∙ get_by_prefix-save_key_ne k p s h

  pub get_by_prefix-append :
      (p : Text) (e : AuditEvent) (s : S) → get_by_prefix b p (append b e s) ≡ get_by_prefix b p s
  unfolding append
  get_by_prefix-append p e s = get_by_prefix_congr p s _ (
      laws.redis.get-ltrim (audit_key b.uuids e.tenant_id) (prefix_key p) _ _
        (prefix_key-ne p _ 116 (omega arith))
      ∙ laws.redis.get-lpush (audit_key b.uuids e.tenant_id) (prefix_key p) _ s
          (prefix_key-ne p _ 116 (omega arith)))

-- The key that `create_api_key` stores.
abbrev pub new_key_of :
    {S V : Type 0}
    → Backend S V
    → (token : Text) → Fresh
    → (organization_id tenant_id : ℕ) → (name : Text) → Role
    → ApiKey
new_key_of b token fresh organization_id tenant_id name role = record {
  id = fresh.id;
  organization_id = organization_id;
  tenant_id = tenant_id;
  name = name;
  role = role;
  prefix = key_prefix (generate_raw_key token);
  key_hash = b.sha256 (generate_raw_key token);
  revoked = false;
  created_at = fresh.now;
}

module _ {S V : Type 0} (b : Backend S V) where
  checked_key-ok :
      (raw_key : Text) (o : Option ApiKey) (context : AuthContext)
      → checked_key b raw_key o ≡ ok context
      → (k : ApiKey) × (o ≡ some k)
        × (k.revoked ≡ false)
        × (k.key_hash ≡ b.sha256 raw_key)
        × (context ≡ context_of k)
  checked_key-ok raw_key none context h = cc
  checked_key-ok raw_key (some k) context h = elim (Bool-cases k.revoked) [
    | inl revoked ↦ cc (rw revoked at h)
    | inr valid ↦ elim (Bool-cases (text_eq (b.sha256 raw_key) k.key_hash)) [
      | inl same ↦
          (k, refl, valid, sym (text_eq_sound (b.sha256 raw_key) k.key_hash same), ground (arith))
      | inr differ ↦ ground arith
    ]
  ]

  -- `authenticate` answers exactly when the header is a raw key that is not empty, whose prefix has a
  -- record that is not revoked and holds the hash of this raw key; the answer is the identity that
  -- the record gives.
  pub authenticate_iff :
      (raw_key : Text) (s : S) (context : AuthContext)
      → (authenticate b (some raw_key) s ≡ ok context)
        ↔ ((k : ApiKey) × Authenticates b raw_key s context k)
  unfolding authenticate
  authenticate_iff raw_key s context = (forward, backward)
    where
      forward :
          authenticate b (some raw_key) s ≡ ok context
          → (k : ApiKey) × Authenticates b raw_key s context k
      forward e = elim (Bool-cases (is_empty raw_key)) [
        | inl blank ↦ absurd (cc (rw blank at e))
        | inr given ↦
            let (o, found, answered) =
              >>=-eq-ok (get_by_prefix b (key_prefix raw_key) s) (checked_key b raw_key)
                (rw given at e) in
            let (k, stored, valid, hash, same) = checked_key-ok raw_key o context answered in
            (k, (given, found ∙ ap (λ (x : Option ApiKey). ok x) stored, valid, hash, same))
      ]

      backward :
          (k : ApiKey) × Authenticates b raw_key s context k
          → authenticate b (some raw_key) s ≡ ok context
      backward (k, (given, found, valid, hash, same)) =
          rw (given, found, valid, hash, text_eq_refl (b.sha256 raw_key))
            (ap (λ (x : AuthContext). ok x) (sym same))

  create_api_key-eq :
      (token : Text) (fresh : Fresh) (organization_id tenant_id : ℕ) (name : Text) (role : Role)
      (s : S)
      → create_api_key b token fresh organization_id tenant_id name role s ≡ (
          let k = new_key_of b token fresh organization_id tenant_id name role in
          if is_valid_api_key k
          then ok (create b k s, record { api_key = k; key = generate_raw_key token })
          else err validation_error)
  unfolding create_api_key
  create_api_key-eq token fresh organization_id tenant_id name role s = refl

  new_key_of-is_valid :
      (laws : IsBackend b) (token : Text) (fresh : Fresh) (organization_id tenant_id : ℕ)
      (name : Text) (role : Role)
      → 1 ≤ length name
      → length name ≤ 200
      → is_valid_api_key (new_key_of b token fresh organization_id tenant_id name role) ≡ true
  new_key_of-is_valid laws token fresh organization_id tenant_id name role h k =
      ground (arith, laws.length-sha256 (generate_raw_key token))

  -- With a name of 1 to 200 code points a key is created, whoever holds the raw key that is returned
  -- authenticates by it as the organization, tenant and role that it was created for, and the
  -- record under any other prefix is what it was.
  pub create_api_key-authenticate :
      (laws : IsBackend b) (token : Text) (fresh : Fresh) (organization_id tenant_id : ℕ)
      (name : Text) (role : Role) (s : S) (other : Text)
      → 1 ≤ length name
      → length name ≤ 200
      → other ≢ key_prefix (generate_raw_key token)
      → (t : S) × (made : ApiKeyCreation) × (create_api_key b token fresh organization_id tenant_id
            name role s
          ≡ ok (t, made))
        × (authenticate b (some made.key) t
            ≡ ok (record {
              organization_id = organization_id;
              tenant_id = tenant_id;
              role = role;
              api_key_id = fresh.id;
              api_key_prefix = key_prefix made.key;
            }))
        × (get_by_prefix b other t ≡ get_by_prefix b other s)
  create_api_key-authenticate laws token fresh organization_id tenant_id name role s other h j ne =
      let k = new_key_of b token fresh organization_id tenant_id name role in
      (
        create b k s,
        record { api_key = k; key = generate_raw_key token },
        create_api_key-eq token fresh organization_id tenant_id name role s
            ∙ rw (new_key_of-is_valid laws token fresh organization_id tenant_id name role h j),
        (authenticate_iff (generate_raw_key token) (create b k s) (context_of k)).1
            (k, (refl, get_by_prefix-create b laws k s, refl, refl, refl)),
        get_by_prefix-create_ne b laws k other s ne,
      )
