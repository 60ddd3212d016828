-- ===== src/Manager/Registry.antt =====
-- The registry: one running consumer for each tenant in the map.
use multi_tenant_messaging.Base.{
  ℕ, String, ◌<◌, ◌≡◌, ◌^◌, true, false, some, ◌*◌, ◌+◌, arith, ◌++◌, refl, Bool-cases, inr, inl,
  ◌⊎◌, subst, sym,
}
use multi_tenant_messaging.Manager.{
  Manager, make_consumer, new_manager, TenantConsumer, pool_or_panic, closed_on_error,
}
use multi_tenant_messaging.Amqp.{Answers, Broker, Result, err, ok, Amqp, ◌>>=◌, pure, after_result}
use multi_tenant_messaging.Base.Assoc.{HasDistinctKeys, AllEntries}
use multi_tenant_messaging.Base.Int.{ℤ, pos}
use multi_tenant_messaging.Topology.{main_queue, dl_queue, declare_tenant_queues}
use multi_tenant_messaging.Pool.{WorkerPool, new_worker_pool}
use multi_tenant_messaging.Pool.Size.{IsSized, new_worker_pool_size}
use multi_tenant_messaging.Amqp.Requests.{commands, AllAccepted, Refused}
use multi_tenant_messaging.Topology.Declared.{tenant_requests, declare_tenant_queues_all_or_prefix}

-- A consumer in the map is open, belongs to the key it stands under, and its pool has a valid size.
pub record IsActive (k : String) (c : TenantConsumer) : Type 0 where
  pub own : c.tenant_id ≡ k
  pub queue : c.queue_name ≡ main_queue k
  pub channel : c.channel_open ≡ true
  pub running : c.done ≡ false
  pub pool_own : c.worker_pool.tenant_id ≡ k
  pub pool_running : c.worker_pool.done ≡ false
  pub sized : IsSized c.worker_pool

pub record IsRegistry (m : Manager) : Type 0 where
  pub distinct : HasDistinctKeys m.consumers
  pub active : AllEntries IsActive m.consumers

pub new_manager-IsRegistry : (d x r t : ℤ) → IsRegistry (new_manager d x r t)
unfolding new_manager
new_manager-IsRegistry d x r t = record { distinct = tt; active = tt }

-- A new pool for `n` workers.
new_pool-IsSized :
    (t : String) (n : ℕ) (r : ℤ)
    → 0 < n
    → n < 2 ^ 31
    → (wp : WorkerPool) × (new_worker_pool t (pos n) r ≡ some wp)
      × (wp.workers ≡ pos n)
      × (wp.live ≡ n)
      × (wp.capacity ≡ 10 * n)
      × (wp.tenant_id ≡ t)
      × (wp.done ≡ false)
      × (wp.max_retry ≡ r)
      × IsSized wp
new_pool-IsSized t n r low high = (
  _,
  new_worker_pool_size t n r low high,
  refl,
  refl,
  refl,
  refl,
  refl,
  refl,
  record { counted = refl; low = low; high = high; covered = omega arith },
)

-- What `make_consumer` returns for a count within the range: a consumer with a pool of that size, on one
-- more channel and behind all its queues; or a fault, with the channels as before.
abbrev pub Made : Manager → String → ℕ → Broker → Result TenantConsumer × Broker → Type 0
Made m k n b (err e, after) = after.channels ≡ b.channels
Made m k n b (ok c, after) =
    IsActive k c
    × (c.worker_pool.workers ≡ pos n)
    × (c.worker_pool.live ≡ n)
    × (c.worker_pool.capacity ≡ 10 * n)
    × (c.worker_pool.max_retry ≡ m.max_retry)
    × (after.channels ≡ b.channels + 1)
    × (after.accepted ≡ b.accepted ++ commands (tenant_requests k m.message_ttl))

-- The pool and the record, after the queues.
abbrev with_pool : Manager → String → ℕ → String × String → Amqp TenantConsumer
with_pool m k n names = pool_or_panic (new_worker_pool k (pos n) m.max_retry) >>= λ wp.
    pure (record {
      tenant_id = k;
      queue_name = names.0;
      worker_pool = wp;
      channel_open = true;
      done = false;
    })

module _ (m : Manager) (k : String) (n : ℕ) (w : Answers) (b : Broker) (low : 0 < n)
    (high : n < 2 ^ 31) where
  abbrev opened : Broker
  opened = record b { channels = b.channels + 1 }

  with_pool-Made :
      (run : Result (String × String) × Broker)
      → AllAccepted
          (λ r. r ≡ ok (main_queue k, dl_queue k))
          (tenant_requests k m.message_ttl)
          opened
          run
        ⊎ Refused (tenant_requests k m.message_ttl) w opened run
      → Made m k n b (after_result (with_pool m k n) w (closed_on_error run))
  with_pool-Made (err e, c) (inl (r, done, same)) = absurd (cc)
  with_pool-Made (ok names, c) (inr (before, d, e, rest, split, r, done, no_more, same)) =
      absurd (cc)
  with_pool-Made (err e, c) (inr (before, d, f, rest, split, r, done, no_more, same)) = omega arith
  with_pool-Made (ok names, c) (inl (r, done, same)) =
      let (wp, made, count, live, capacity, own, running, retry, sized) =
        new_pool-IsSized k n m.max_retry low high in
      rw made (
        record {
          own = refl;
          queue = ground arith;
          channel = refl;
          running = refl;
          pool_own = own;
          pool_running = running;
          sized = sized;
        },
        count,
        live,
        capacity,
        retry,
        same,
        done,
      )

  make_consumer-opened :
      w.opens ≡ true
      → make_consumer m k (pos n) w b
        ≡ after_result
            (with_pool m k n)
            w
            (closed_on_error (declare_tenant_queues m.message_ttl k w opened))
  unfolding make_consumer
  make_consumer-opened opens = rw opens

  pub make_consumer-Made : Made m k n b (make_consumer m k (pos n) w b)
  unfolding make_consumer
  make_consumer-Made = elim (Bool-cases w.opens) [
    | inr shut ↦ rw shut refl
    | inl opens ↦ subst (Made m k n b) (sym (make_consumer-opened opens)) (
        with_pool-Made (declare_tenant_queues m.message_ttl k w opened)
          (declare_tenant_queues_all_or_prefix m.message_ttl k w opened))
  ]
