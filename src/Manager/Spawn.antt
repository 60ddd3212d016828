-- ===== src/Manager/Spawn.antt =====
-- `SpawnConsumer` and `UpdateConcurrency`: every way out, and the registry after each.
use multi_tenant_messaging.Base.{
  ℕ, String, ◌≡◌, none, some, min, if◌then◌else◌, str_eq, arith, Option-cases, refl, subst, ◌<◌,
  inl, sym, ◌^◌, inr, ◌∙◌, false, ap,
}
use multi_tenant_messaging.Manager.{
  Manager, get_consumer, spawn_consumer, update_concurrency, TenantConsumer, registered,
  make_consumer, clamp_spawn, clamp_update,
}
use multi_tenant_messaging.Amqp.{
  Broker, Answers, Result, err, ok, consumer_exists, consumer_not_found, create_channel,
}
use multi_tenant_messaging.Base.Int.{ℤ, pos}
use multi_tenant_messaging.Manager.Bounds.{IsConfigured, wanted, wanted_bounds, clamp_min}
use multi_tenant_messaging.Base.Assoc.{
  lookup, insert, insert-HasDistinctKeys, lookup-AllEntries, insert-AllEntries, lookup-insert,
}
use multi_tenant_messaging.Manager.Registry.{IsRegistry, Made, IsActive, make_consumer-Made}
use multi_tenant_messaging.Pool.{resize, get_worker_count}
use multi_tenant_messaging.Pool.Size.{resize_size, resize_identity}

-- A tenant that has a consumer gets no second one: the call fails and changes neither the registry nor
-- anything at the broker.
pub spawn_consumer_duplicate :
    (m : Manager) (k : String) (asked : ℤ) (w : Answers) (b : Broker) {c : TenantConsumer}
    → get_consumer m k ≡ some c
    → spawn_consumer m k asked w b ≡ (m, err (consumer_exists k), b)
unfolding spawn_consumer get_consumer
spawn_consumer_duplicate m k asked w b e = rw (e, spawn_consumer)

-- The new consumer and the maps around it, or a fault that changed no map and leaves no channel.
abbrev pub Spawned : Manager → String → ℕ → Broker → Manager × Result (Unit {0}) × Broker → Type 0
Spawned m k n b (m', err e, after) = (m' ≡ m) × (after.channels ≡ b.channels)
Spawned m k n b (m', ok _, after) =
    (c : TenantConsumer) × (m' ≡ record m { consumers = insert k c m.consumers })
    × Made m k n b (ok c, after)

registered-Spawned :
    (m : Manager) (k : String) (n : ℕ) (b : Broker) (made : Result TenantConsumer × Broker)
    → Made m k n b made
    → Spawned m k n b (registered m k made)
registered-Spawned m k n b (err e, after) same = (refl, same)
registered-Spawned m k n b (ok c, after) made = (c, refl, made)

pub spawn_absent :
    (m : Manager) (k : String) (asked : ℤ) (w : Answers) (b : Broker)
    → get_consumer m k ≡ none
    → spawn_consumer m k asked w b ≡ registered m k (make_consumer m k (clamp_spawn m asked) w b)
unfolding spawn_consumer get_consumer
spawn_absent m k asked w b e = rw (e, spawn_consumer)

-- For a tenant without a consumer, under a valid configuration: either the registry gains an active
-- consumer whose pool counts and runs `min limit (wanted default asked)` workers and buffers ten items
-- for each, on one more channel and with the tenant's queues declared; or the call fails, and leaves
-- the registry and the number of open channels alone.
pub spawn_consumer_new :
    (m : Manager) (k : String) (asked : ℤ) (w : Answers) (b : Broker) (v : IsConfigured m)
    → get_consumer m k ≡ none
    → Spawned m k (min v.limit (wanted v.default asked)) b (spawn_consumer m k asked w b)
unfolding get_consumer
spawn_consumer_new m k asked w b v absent =
    let n = min v.limit (wanted v.default asked) in
    let (low, high) = wanted_bounds v.limit v.default asked v.limit_low v.default_low in
    rw (spawn_absent m k asked w b absent) (
      rw (clamp_min m asked v).0 (
        registered-Spawned m k n b _
          (make_consumer-Made m k n w b low (omega (arith, v.limit_high, high)))))

pub insert-IsRegistry :
    (m : Manager) (k : String) (c : TenantConsumer)
    → IsActive k c
    → IsRegistry m
    → IsRegistry (record m { consumers = insert k c m.consumers })
insert-IsRegistry m k c active reg = record {
  distinct = insert-HasDistinctKeys k c m.consumers reg.distinct;
  active = insert-AllEntries IsActive k c m.consumers reg.active active;
}

Spawned-IsRegistry :
    (m : Manager) (k : String) (n : ℕ) (b : Broker) (out : Manager × Result (Unit {0}) × Broker)
    → Spawned m k n b out
    → IsRegistry m
    → IsRegistry out.0
Spawned-IsRegistry m k n b (m', err e, after) (same, _) reg = subst IsRegistry (sym same) reg
Spawned-IsRegistry m k n b (m', ok _, after) (c, new, made) reg =
    subst IsRegistry (sym new) (insert-IsRegistry m k c made.0 reg)

pub spawn_consumer-IsRegistry :
    (m : Manager) (k : String) (asked : ℤ) (w : Answers) (b : Broker)
    → IsConfigured m
    → IsRegistry m
    → IsRegistry (spawn_consumer m k asked w b).0
unfolding get_consumer
spawn_consumer-IsRegistry m k asked w b v reg = elim (Option-cases (lookup k m.consumers)) [
  | inl absent ↦ Spawned-IsRegistry m k _ b _ (spawn_consumer_new m k asked w b v absent) reg
  | inr (c, e) ↦ rw (spawn_consumer_duplicate m k asked w b {c = c} e) reg
]

pub update_found :
    (m : Manager) (k : String) (asked : ℤ) (c : TenantConsumer)
    → lookup k m.consumers ≡ some c
    → update_concurrency m k asked ≡ (
      record m {
        consumers =
            insert k
              (record c { worker_pool = resize c.worker_pool (clamp_update m asked) })
              m.consumers;
      },
      ok tt,
    )
unfolding update_concurrency
update_found m k asked c e = rw (e, update_concurrency)

pub update_missing :
    (m : Manager) (k : String) (asked : ℤ)
    → lookup k m.consumers ≡ none
    → update_concurrency m k asked ≡ (m, err (consumer_not_found k))
unfolding update_concurrency
update_missing m k asked e = rw (e, update_concurrency)

resized-IsActive :
    (k : String) (c : TenantConsumer) (n : ℕ)
    → 0 < n
    → n < 2 ^ 31
    → IsActive k c
    → IsActive k (record c { worker_pool = resize c.worker_pool (pos n) })
resized-IsActive k c n low high a =
    let (own, done, retry) = resize_identity c.worker_pool (pos n) in
    record {
      own = a.own;
      queue = a.queue;
      channel = a.channel;
      running = a.running;
      pool_own = own ∙ a.pool_own;
      pool_running = done ∙ a.pool_running;
      sized = (resize_size c.worker_pool n a.sized low high).2;
    }

pub update_concurrency-IsRegistry :
    (m : Manager) (k : String) (asked : ℤ)
    → IsConfigured m
    → IsRegistry m
    → IsRegistry (update_concurrency m k asked).0
update_concurrency-IsRegistry m k asked v reg = elim (Option-cases (lookup k m.consumers)) [
  | inl absent ↦ rw (update_missing m k asked absent) reg
  | inr (c, e) ↦
      let n = min v.limit (wanted 1 asked) in
      let (low, high) = wanted_bounds v.limit 1 asked v.limit_low (omega arith) in
      rw (update_found m k asked c e) (
        rw (clamp_min m asked v).1 (
          insert-IsRegistry m k _
            (resized-IsActive k c n low (omega (arith, v.limit_high, high))
              (lookup-AllEntries IsActive k c m.consumers reg.active e))
            reg))
]

-- `UpdateConcurrency` on a tenant that has a consumer sets the count of its pool to
-- `min limit (wanted 1 asked)`, and touches no other tenant's consumer.
pub update_concurrency_found :
    (m : Manager) (k : String) (asked : ℤ) (v : IsConfigured m) {c : TenantConsumer}
    → IsRegistry m
    → get_consumer m k ≡ some c
    → let (m', r) = update_concurrency m k asked in
      let wp = resize c.worker_pool (pos (min v.limit (wanted 1 asked))) in
      (r ≡ ok tt)
      × (get_worker_count wp ≡ pos (min v.limit (wanted 1 asked)))
      × ((j : String)
          → get_consumer m' j
            ≡ (if str_eq k j then some (record c { worker_pool = wp }) else get_consumer m j))
unfolding get_consumer
update_concurrency_found m k asked v {c} reg e =
    let n = min v.limit (wanted 1 asked) in
    let (low, high) = wanted_bounds v.limit 1 asked v.limit_low (omega arith) in
    let active = lookup-AllEntries IsActive k c m.consumers reg.active e in
    rw (update_found m k asked c e) (
      rw (clamp_min m asked v).1 (
        refl,
        (resize_size c.worker_pool n active.sized low (omega (arith, v.limit_high, high))).0,
        λ j. lookup-insert k j _ m.consumers,
      ))

no_channel_fails :
    (m : Manager) (k : String) (n : ℤ) (w : Answers) (b : Broker)
    → w.opens ≡ false
    → make_consumer m k n w b ≡ (err create_channel, b)
unfolding make_consumer
no_channel_fails m k n w b shut = rw shut refl

-- Without a channel, a spawn for a tenant without a consumer changes nothing.
pub spawn_without_channel :
    (m : Manager) (k : String) (asked : ℤ) (w : Answers) (b : Broker)
    → get_consumer m k ≡ none
    → w.opens ≡ false
    → spawn_consumer m k asked w b ≡ (m, err create_channel, b)
spawn_without_channel m k asked w b absent shut =
    spawn_absent m k asked w b absent
    ∙ ap (registered m k) (no_channel_fails m k (clamp_spawn m asked) w b shut)
