-- ===== src/Enterprise/AuditLaws.antt =====
-- The audit log as its repository promises it: each tenant's newest events, newest first.
use product_intelligence.Base.{
  ℕ, zero, suc, ◌-◌, ◌≤◌, ◌≡◌, ◌≢◌, refl, sym, ◌∙◌, ap, inl, inr, List, [], ◌∷◌, take, map, arith,
  Bool-cases, ◌==◌, ==_iff, if◌then◌else◌, cancel_left, cancel_front,
}
use product_intelligence.Base.Result.{ok}
use product_intelligence.Text.Strings.{Text, codes}
use product_intelligence.Enterprise.Models.{AuditEvent}
use product_intelligence.Enterprise.Redis.{Backend, IsBackend, negsuc}
use product_intelligence.Enterprise.Audit.{
  max_events_per_tenant, audit_key, append, validated_events, list_for_tenant,
}

-- The log of one tenant without a bound, newest first, over the events in the order of their arrival.
abbrev pub newest_first : (tenant_id : ℕ) → List AuditEvent → List AuditEvent → List AuditEvent
newest_first tenant_id [] log = log
newest_first tenant_id (event ∷ events) log =
    newest_first tenant_id events (if event.tenant_id == tenant_id then event ∷ log else log)

pub take-take {ℓ} : {A : Type ℓ} (m n : ℕ) (xs : List A) → m ≤ n → take m (take n xs) ≡ take m xs
take-take zero n xs h = refl
take-take (suc m) zero xs h = absurd (omega arith)
take-take (suc m) (suc n) [] h = refl
take-take {A = A} (suc m) (suc n) (x ∷ xs) h =
    ap (λ (ys : List A). x ∷ ys) (take-take m n xs (omega arith))

module _ {S V : Type 0} (b : Backend S V) where
  abbrev pub append_all : List AuditEvent → S → S
  append_all [] s = s
  append_all (event ∷ events) s = append_all events (append b event s)

  -- The store holds the newest `max_events_per_tenant` of the tenant's log.
  abbrev pub Holds : (tenant_id : ℕ) → List AuditEvent → S → Type 0
  Holds tenant_id log s =
      b.redis.lrange (audit_key b.uuids tenant_id) (negsuc 0) s
      ≡ map b.events.dump (take max_events_per_tenant log)

  module _ (laws : IsBackend b) where
    audit_key_inj : (t u : ℕ) → audit_key b.uuids t ≡ audit_key b.uuids u → t ≡ u
    audit_key_inj t u h =
        let (same, rest) =
          cancel_front (b.uuids.str t) (b.uuids.str u) _ _
            (laws.uuids.length-str t ∙ sym (laws.uuids.length-str u))
            (cancel_left (codes "tenant:") _ _ h) in
        sym (laws.uuids.parse-str t)
        ∙ ap (λ (x : Text). b.uuids.parse x) same
        ∙ laws.uuids.parse-str u

    map-take :
        (n : ℕ) (log : List AuditEvent)
        → take n (map b.events.dump log) ≡ map b.events.dump (take n log)
    map-take zero log = refl
    map-take (suc n) [] = refl
    map-take (suc n) (e ∷ log) = ap (λ (ys : List V). b.events.dump e ∷ ys) (map-take n log)

    lrange-append :
        (event : AuditEvent) (s : S)
        → b.redis.lrange (audit_key b.uuids event.tenant_id) (negsuc 0) (append b event s)
          ≡ take max_events_per_tenant (
              b.events.dump event ∷ b.redis.lrange (audit_key b.uuids event.tenant_id) (negsuc 0) s)
    unfolding append
    lrange-append event s =
        laws.redis.lrange-ltrim (audit_key b.uuids event.tenant_id) (max_events_per_tenant - 1) _
        ∙ ap (λ (xs : List V). take max_events_per_tenant xs)
            (laws.redis.lrange-lpush (audit_key b.uuids event.tenant_id) (b.events.dump event) s)

    lrange-append_ne :
        (tenant_id : ℕ) (event : AuditEvent) (s : S)
        → tenant_id ≢ event.tenant_id
        → b.redis.lrange (audit_key b.uuids tenant_id) (negsuc 0) (append b event s)
          ≡ b.redis.lrange (audit_key b.uuids tenant_id) (negsuc 0) s
    unfolding append
    lrange-append_ne tenant_id event s ne =
        let apart = λ (e : audit_key b.uuids tenant_id ≡ audit_key b.uuids event.tenant_id).
          ne (audit_key_inj tenant_id event.tenant_id e) in
        laws.redis.lrange-ltrim_ne (audit_key b.uuids event.tenant_id) (audit_key b.uuids tenant_id)
          _ _ apart
        ∙ laws.redis.lrange-lpush_ne (audit_key b.uuids event.tenant_id)
            (audit_key b.uuids tenant_id) _ s apart

    map-take-cons :
        (event : AuditEvent) (log : List AuditEvent)
        → take max_events_per_tenant
            (b.events.dump event ∷ map b.events.dump (take max_events_per_tenant log))
          ≡ map b.events.dump (take max_events_per_tenant (event ∷ log))
    map-take-cons event log =
        ap (λ (ys : List V). b.events.dump event ∷ ys)
          (map-take 999 (take 1000 log)
            ∙ ap (λ (ys : List AuditEvent). map b.events.dump ys)
                (take-take 999 1000 log (omega arith)))

    Holds-append :
        (tenant_id : ℕ) (log : List AuditEvent) (event : AuditEvent) (s : S)
        → Holds tenant_id log s
        → Holds tenant_id
            (if event.tenant_id == tenant_id then event ∷ log else log)
            (append b event s)
    Holds-append tenant_id log event s h = elim (Bool-cases (event.tenant_id == tenant_id)) [
      | inl own ↦
          let e : event.tenant_id ≡ tenant_id = (==_iff event.tenant_id tenant_id).0 own in
          rw own (
            ap (λ (t : ℕ). b.redis.lrange (audit_key b.uuids t) (negsuc 0) (append b event s))
              (sym e)
            ∙ lrange-append event s
            ∙ ap (λ (xs : List V). take max_events_per_tenant (b.events.dump event ∷ xs))
                (ap (λ (t : ℕ). b.redis.lrange (audit_key b.uuids t) (negsuc 0) s) e ∙ h)
            ∙ map-take-cons event log)
      | inr other ↦ rw other (
          lrange-append_ne tenant_id event s
            (λ e. cc ((==_iff event.tenant_id tenant_id).1 (sym e)))
          ∙ h)
    ]

    Holds-append_all :
        (tenant_id : ℕ) (log events : List AuditEvent) (s : S)
        → Holds tenant_id log s
        → Holds tenant_id (newest_first tenant_id events log) (append_all events s)
    Holds-append_all tenant_id log [] s h = h
    Holds-append_all tenant_id log (event ∷ events) s h =
        Holds-append_all tenant_id (if event.tenant_id == tenant_id then event ∷ log else log)
          events (append b event s) (Holds-append tenant_id log event s h)

    validated_events-map :
        (events : List AuditEvent) → validated_events b (map b.events.dump events) ≡ ok events
    validated_events-map [] = refl
    validated_events-map (event ∷ events) =
        rw (laws.events event) (rw (validated_events-map events) refl)

    list_for_tenant-Holds :
        (tenant_id limit : ℕ) (log : List AuditEvent) (s : S)
        → limit ≤ max_events_per_tenant
        → 1 ≤ limit
        → Holds tenant_id log s
        → list_for_tenant b tenant_id limit s ≡ ok (take limit log)
    unfolding list_for_tenant
    list_for_tenant-Holds tenant_id zero log s h pos_limit held = absurd (omega arith)
    list_for_tenant-Holds tenant_id (suc n) log s h pos_limit held =
        ap (λ (raws : List V). validated_events b raws)
          (laws.redis.lrange_pos (audit_key b.uuids tenant_id) n s
            ∙ ap (λ (xs : List V). take (suc n) xs) held
            ∙ map-take (suc n) (take max_events_per_tenant log)
            ∙ ap (λ (xs : List AuditEvent). map b.events.dump xs)
                (take-take (suc n) max_events_per_tenant log h))
        ∙ validated_events-map (take (suc n) log)

    -- The log refines one without a bound: over a store that holds the newest 1000 events of `log`,
    -- once any events have been appended, of this tenant and of others, a limit of 1 to 1000 reads
    -- exactly the newest events of the tenant's log so continued, newest first.
    pub list_for_tenant-append_all :
        (tenant_id limit : ℕ) (log events : List AuditEvent) (s : S)
        → 1 ≤ limit
        → limit ≤ max_events_per_tenant
        → Holds tenant_id log s
        → list_for_tenant b tenant_id limit (append_all events s)
          ≡ ok (take limit (newest_first tenant_id events log))
    list_for_tenant-append_all tenant_id limit log events s low high held =
        list_for_tenant-Holds tenant_id limit _ (append_all events s) high low
          (Holds-append_all tenant_id log events s held)

    -- A limit of 0 is no limit at all: it reads every event that is held.
    pub list_for_tenant-limit_zero :
        (tenant_id : ℕ) (log events : List AuditEvent) (s : S)
        → Holds tenant_id log s
        → list_for_tenant b tenant_id 0 (append_all events s)
          ≡ ok (take max_events_per_tenant (newest_first tenant_id events log))
    unfolding list_for_tenant
    list_for_tenant-limit_zero tenant_id log events s held =
        ap (λ (raws : List V). validated_events b raws)
          (Holds-append_all tenant_id log events s held)
        ∙ validated_events-map _
