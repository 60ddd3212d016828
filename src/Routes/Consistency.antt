-- ===== src/Routes/Consistency.antt =====
-- Whether a tenant's row and its consumer agree after a route.
use multi_tenant_messaging.Base.{
  ℕ, ◌≡◌, arith, String, true, some, refl, min, ◌∙◌, Option-cases, eq_refl, inl, inr, ap,
}
use multi_tenant_messaging.Amqp.{Answers, ok, Result, Broker, err}
use multi_tenant_messaging.Routes.{
  System, after_create, create_tenant_route, spawned, after_update, resized,
  update_concurrency_route,
}
use multi_tenant_messaging.Db.{Db, UuidFormat, Outcome}
use multi_tenant_messaging.Tenants.{
  Answer, TenantResponse, good, bad, get_tenant, CreateTenantRequest, create_tenant,
  update_tenant_concurrency,
}
use multi_tenant_messaging.Manager.{
  spawn_consumer, Manager, get_consumer, TenantConsumer, update_concurrency,
}
use multi_tenant_messaging.Pool.{get_worker_count, resize}
use multi_tenant_messaging.Base.Int.{ℤ, pos}
use multi_tenant_messaging.Manager.Bounds.{IsConfigured, wanted}
use multi_tenant_messaging.Manager.Registry.{IsActive, IsRegistry}
use multi_tenant_messaging.Manager.Spawn.{
  Spawned, spawn_consumer_new, spawn_consumer_duplicate, update_missing, update_concurrency_found,
}
use multi_tenant_messaging.Tenants.Calls.{get_tenant-create_tenant, get_tenant-update}
use multi_tenant_messaging.Base.Assoc.{lookup-insert}
use multi_tenant_messaging.Http.{created_201, ok_200, manager_failure_500, tenant_body, Response}

spawned_201 :
    (s : System) (t : TenantResponse) (out : Manager × Result (Unit {0}) × Broker)
    → (spawned s t out).1.status ≡ created_201
    → (out.1 ≡ ok tt)
      × ((spawned s t out).0.db ≡ s.db)
      × ((spawned s t out).0.manager ≡ out.0)
      × ((spawned s t out).1.body ≡ tenant_body t)
spawned_201 s t (m, ok _, b) h = (refl, refl, refl, refl)
spawned_201 s t (m, err e, b) h =
    absurd (ground (arith, h, manager_failure_500 "failed to spawn consumer: " e))

pub after_create_201 :
    (w : Answers) (s : System) (out : Db × Answer TenantResponse)
    → (after_create w s out).1.status ≡ created_201
    → (t : TenantResponse) × (out.1 ≡ good t)
      × ((spawn_consumer s.manager t.id t.workers w s.broker).1 ≡ ok tt)
      × ((after_create w s out).1.body ≡ tenant_body t)
      × ((after_create w s out).0.db ≡ out.0)
      × ((after_create w s out).0.manager ≡ (spawn_consumer s.manager t.id t.workers w s.broker).0)
after_create_201 w s (db, bad e) h = absurd (ground (arith, h))
after_create_201 w s (db, good t) h =
    let (fine, same, kept, told) =
      spawned_201 (record s { db = db }) t (spawn_consumer s.manager t.id t.workers w s.broker) h in
    (t, refl, fine, told, same, kept)

spawn_ok :
    (m : Manager) (k : String) (n : ℕ) (b : Broker) (out : Manager × Result (Unit {0}) × Broker)
    → Spawned m k n b out
    → out.1 ≡ ok tt
    → (c : TenantConsumer) × (get_consumer out.0 k ≡ some c)
      × IsActive k c
      × (get_worker_count c.worker_pool ≡ pos n)
unfolding get_consumer get_worker_count
spawn_ok m k n b (m', err e, after) made h = absurd (ground (arith, h))
spawn_ok m k n b (m', ok _, after) (c, new, (active, count, _, _, _, _, _)) h =
    (c, rw new (lookup-insert k k c m.consumers ∙ rw (eq_refl k) refl), active, count)

-- A spawn that succeeds, under a valid configuration.
pub spawn_consumer_ok :
    (m : Manager) (k : String) (asked : ℤ) (w : Answers) (b : Broker) (v : IsConfigured m)
    → (spawn_consumer m k asked w b).1 ≡ ok tt
    → (c : TenantConsumer) × (get_consumer (spawn_consumer m k asked w b).0 k ≡ some c)
      × IsActive k c
      × (get_worker_count c.worker_pool ≡ pos (min v.limit (wanted v.default asked)))
spawn_consumer_ok m k asked w b v h = elim (Option-cases (get_consumer m k)) [
  | inl absent ↦
      spawn_ok m k (min v.limit (wanted v.default asked)) b (spawn_consumer m k asked w b)
        (spawn_consumer_new m k asked w b v absent) h
  | inr (c, e) ↦ absurd (ground (arith, h, spawn_consumer_duplicate m k asked w b {c = c} e))
]

-- What the table and the registry hold of a tenant: the answer, and a running consumer with as many
-- workers as the manager's limit admits of the answer's count.
abbrev pub Agree : UuidFormat → (limit default : ℕ) → System → TenantResponse → Type 0
Agree u limit default s t =
    (get_tenant u true t.id s.db ≡ good t)
    × ((c : TenantConsumer) × (get_consumer s.manager t.id ≡ some c)
        × IsActive t.id c
        × (get_worker_count c.worker_pool ≡ pos (min limit (wanted default t.workers))))

pub create_route_some :
    (u : UuidFormat) (o : Outcome) (i now : ℕ) (w : Answers) (req : CreateTenantRequest)
    (s : System)
    → create_tenant_route u o i now w (some req) s
      ≡ after_create w s (create_tenant u o i now req s.db)
unfolding create_tenant_route
create_route_some u o i now w req s = refl

-- Where `createTenant` answers 201, under a valid configuration, it tells the new tenant, whose row and a
-- running consumer are there, with the name that was asked for and the same worker count, up to the limit.
pub create_tenant_route_agrees :
    (u : UuidFormat) (o : Outcome) (i now : ℕ) (w : Answers) (req : CreateTenantRequest)
    (s : System) (v : IsConfigured s.manager)
    → (create_tenant_route u o i now w (some req) s).1.status ≡ created_201
    → (t : TenantResponse) × (t.name ≡ req.name)
      × ((create_tenant_route u o i now w (some req) s).1.body ≡ tenant_body t)
      × Agree u v.limit v.default (create_tenant_route u o i now w (some req) s).0 t
create_tenant_route_agrees u o i now w req s v h =
    let (t, made, fine, told, same, kept) =
      after_create_201 w s (create_tenant u o i now req s.db)
        (rw (create_route_some u o i now w req s) at h) in
    let (found, name, workers) = get_tenant-create_tenant u o i now req s.db made in
    (
      t,
      name,
      ap (λ (out : System × Response). out.1.body) (create_route_some u o i now w req s) ∙ told,
      rw (create_route_some u o i now w req s, same, kept)
          (found, spawn_consumer_ok s.manager t.id t.workers w s.broker v fine),
    )

resized_200 :
    (s : System) (t : TenantResponse) (out : Manager × Result (Unit {0}))
    → (resized s t out).1.status ≡ ok_200
    → (out.1 ≡ ok tt) × ((resized s t out).0 ≡ record s { manager = out.0 })
resized_200 s t (m, ok _) h = (refl, refl)
resized_200 s t (m, err e) h =
    absurd (ground (arith, h, manager_failure_500 "failed to update concurrency: " e))

after_update_200 :
    (id : String) (n : ℤ) (s : System) (out : Db × Answer TenantResponse)
    → (after_update id n s out).1.status ≡ ok_200
    → (t : TenantResponse) × (out.1 ≡ good t)
      × ((update_concurrency s.manager id n).1 ≡ ok tt)
      × ((after_update id n s out).0
          ≡ record s { db = out.0; manager = (update_concurrency s.manager id n).0 })
after_update_200 id n s (db, bad e) h = absurd (ground (arith, h))
after_update_200 id n s (db, good t) h =
    let (fine, after) =
      resized_200 (record s { db = db }) t (update_concurrency s.manager id n) h in
    (t, refl, fine, after)

update_route_some :
    (u : UuidFormat) (o : Outcome) (now : ℕ) (id : String) (n : ℤ) (s : System)
    → update_concurrency_route u o now id (some n) s
      ≡ after_update id n s (update_tenant_concurrency u o now id n s.db)
unfolding update_concurrency_route
update_route_some u o now id n s = refl

-- The row and the consumer under an id after a change of the worker count to `n`.
abbrev pub Updated : UuidFormat → (limit : ℕ) → String → ℤ → System → Type 0
Updated u limit id n s =
    (t : TenantResponse) × (get_tenant u true id s.db ≡ good t)
    × (t.workers ≡ n)
    × ((c : TenantConsumer) × (get_consumer s.manager id ≡ some c)
        × (get_worker_count c.worker_pool ≡ pos (min limit (wanted 1 n))))

-- Where `updateConcurrency` answers 200, under a valid configuration and over a registry of running
-- consumers, the row of the id holds the count that was asked for, and its consumer's pool that count
-- up to the manager's limit.
pub update_concurrency_route_agrees :
    (u : UuidFormat) (o : Outcome) (now : ℕ) (id : String) (n : ℤ) (s : System)
    (v : IsConfigured s.manager) {i : ℕ}
    → u.read id ≡ some i
    → IsRegistry s.manager
    → (update_concurrency_route u o now id (some n) s).1.status ≡ ok_200
    → Updated u v.limit id n (update_concurrency_route u o now id (some n) s).0
unfolding get_consumer
update_concurrency_route_agrees u o now id n s v {i} read reg h =
    let (t, made, fine, after) =
      after_update_200 id n s (update_tenant_concurrency u o now id n s.db)
        (rw (update_route_some u o now id n s) at h) in
    let (range, count, found) = get_tenant-update u o now id id n s.db read read made in
    elim (Option-cases (get_consumer s.manager id)) [
      | inl absent ↦ absurd (ground (arith, fine, update_missing s.manager id n absent))
      | inr (c, there) ↦
          let (done, size, others) = update_concurrency_found s.manager id n v {c = c} reg there in
          rw (update_route_some u o now id n s, after)
            (
              t,
              found ∙ ground arith,
              count,
              (
                record c { worker_pool = resize c.worker_pool (pos (min v.limit (wanted 1 n))) },
                others id ∙ rw (eq_refl id) refl,
                size,
              ),
            )
    ]
