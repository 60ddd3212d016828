-- ===== src/Manager.antt =====
-- internal/tenant/manager.go: the registry of consumers, one per tenant. Mutexes make each map access
-- atomic; a call here runs alone.
pub mod Registry
pub mod Bounds
pub mod Limit
pub mod Spawn
pub mod Lifecycle
pub mod Histories
pub mod Counts
pub mod Replay
pub mod Shared
pub mod Interleavings
use multi_tenant_messaging.Base.{
  ℕ, List, Option, String, length, Bool, [], ◌∷◌, drop, if◌then◌else◌, map, some, false, none, true,
}
use multi_tenant_messaging.Amqp.{
  Amqp, Result, Answers, Broker, err, fail, ◌>>◌, consumer_exists, ok, open_channel, panicked,
  closing, consumer_not_found, pure, ◌>>=◌,
}
use multi_tenant_messaging.Base.Int.{ℤ, leb_ℤ, pos, ltb_ℤ}
use multi_tenant_messaging.Pool.{WorkerPool, close_done, resize, new_worker_pool}
use multi_tenant_messaging.Base.Assoc.{lookup, insert, delete}
use multi_tenant_messaging.Topology.{declare_tenant_queues}

pub record TenantConsumer : Type 0 where
  pub tenant_id : String
  pub queue_name : String
  pub worker_pool : WorkerPool
  pub channel_open : Bool
  pub done : Bool  -- whether `Done` is closed

pub record Manager : Type 0 where
  pub consumers : List (String × TenantConsumer)
  pub default_workers : ℤ
  pub max_workers : ℤ
  pub max_retry : ℤ
  pub message_ttl : ℤ

unfoldable pub new_manager : ℤ → ℤ → ℤ → ℤ → Manager
new_manager default_workers max_workers max_retry message_ttl = record {
  consumers = [];
  default_workers = default_workers;
  max_workers = max_workers;
  max_retry = max_retry;
  message_ttl = message_ttl;
}

-- The "Validate concurrency" tests of `SpawnConsumer`.
unfoldable pub clamp_spawn : Manager → ℤ → ℤ
clamp_spawn m concurrency =
    let c = if leb_ℤ concurrency (pos 0) then m.default_workers else concurrency in
    if ltb_ℤ m.max_workers c then m.max_workers else c

-- The "Validate workers" tests of `UpdateConcurrency`.
pub clamp_update : Manager → ℤ → ℤ
clamp_update m workers =
    let n = if leb_ℤ workers (pos 0) then pos 1 else workers in
    if ltb_ℤ m.max_workers n then m.max_workers else n

-- `ch.Close(); return err`, where declaring the queues failed.
abbrev pub closed_on_error : {A : Type 0} → Result A × Broker → Result A × Broker
closed_on_error (ok a, b) = (ok a, b)
closed_on_error (err e, b) = closing (err e, b)

abbrev pub or_close : {A : Type 0} → Amqp A → Amqp A
or_close m w b = closed_on_error (m w b)

abbrev pub pool_or_panic : Option WorkerPool → Amqp WorkerPool
pool_or_panic none = fail panicked
pool_or_panic (some wp) = pure wp

-- The channel and the pool of a new consumer; the result is put into the map.
unfoldable pub make_consumer : Manager → String → ℤ → Amqp TenantConsumer
make_consumer m tenant_id concurrency = do
  open_channel
  (queue_name, _) ← or_close (declare_tenant_queues m.message_ttl tenant_id)
  wp ← pool_or_panic (new_worker_pool tenant_id concurrency m.max_retry)
  pure (record {
    tenant_id = tenant_id;
    queue_name = queue_name;
    worker_pool = wp;
    channel_open = true;
    done = false;
  })

abbrev pub registered :
    Manager → String → Result TenantConsumer × Broker → Manager × Result (Unit {0}) × Broker
registered m tenant_id (ok c, b) =
    (record m { consumers = insert tenant_id c m.consumers }, ok tt, b)
registered m tenant_id (err e, b) = (m, err e, b)

-- `SpawnConsumer`
unfoldable pub spawn_consumer :
    Manager → String → ℤ → Answers → Broker → Manager × Result (Unit {0}) × Broker
spawn_consumer m tenant_id concurrency w b = elim (lookup tenant_id m.consumers) [
  | some _ ↦ (m, err (consumer_exists tenant_id), b)
  | none ↦ registered m tenant_id (make_consumer m tenant_id (clamp_spawn m concurrency) w b)
]

unfoldable pub get_consumer : Manager → String → Option TenantConsumer
get_consumer m tenant_id = lookup tenant_id m.consumers

pub get_consumer_count : Manager → ℕ
get_consumer_count m = length m.consumers

-- In the order of the list; Go's order is unspecified.
pub list_consumers : Manager → List String
list_consumers m = map (λ e. e.0) m.consumers

-- `UpdateConcurrency`: the consumer that the map points at is resized in place.
unfoldable pub update_concurrency : Manager → String → ℤ → Manager × Result (Unit {0})
update_concurrency m tenant_id workers = elim (lookup tenant_id m.consumers) [
  | none ↦ (m, err (consumer_not_found tenant_id))
  | some c ↦ (
    record m {
      consumers =
          insert tenant_id
            (record c { worker_pool = resize c.worker_pool (clamp_update m workers) }) m.consumers;
    },
    ok tt,
  )
]

-- `wg.Wait()`: the workers finish the items in their hands and leave. The scheduler decides how many
-- items of the buffer they still take before (Pool/Shutdown.antt).
abbrev pub wait_workers : ℕ → WorkerPool → WorkerPool
wait_workers taken wp = record wp { work_chan = drop taken wp.work_chan; busy = []; live = 0 }

abbrev pub stopped_pool : ℕ → TenantConsumer → Option WorkerPool → Option TenantConsumer
stopped_pool taken c none = none
stopped_pool taken c (some wp) =
    some (record c { worker_pool = wait_workers taken wp; channel_open = false; done = true })

-- `close(consumer.Done)`, `WorkerPool.Stop()` and `Channel.Close()`; `none` is the panic of a second close.
pub close_consumer : ℕ → TenantConsumer → Option TenantConsumer
close_consumer taken c = if c.done then none else stopped_pool taken c (close_done c.worker_pool)

abbrev pub after_close : Option TenantConsumer → Result TenantConsumer
after_close none = err panicked
after_close (some c) = ok c

-- `StopConsumer`: the consumer leaves the map first; the result holds what became of it.
pub stop_consumer : ℕ → Manager → String → Manager × Result TenantConsumer
stop_consumer taken m tenant_id = elim (lookup tenant_id m.consumers) [
  | none ↦ (m, err (consumer_not_found tenant_id))
  | some c ↦
      (record m { consumers = delete tenant_id m.consumers }, after_close (close_consumer taken c))
]

-- Each consumer of the list is closed by a goroutine of its own; a panic in one ends the program.
pub close_all : (String → ℕ) → List (String × TenantConsumer) → Option (List TenantConsumer)
close_all taken [] = some []
close_all taken ((k, c) ∷ cs) = elim (close_consumer (taken k) c) [
  | none ↦ none
  | some d ↦ elim (close_all taken cs) [ none ↦ none | some ds ↦ some (d ∷ ds) ]
]

-- `ShutdownAll`
unfoldable pub shutdown_all : (String → ℕ) → Manager → Manager × Option (List TenantConsumer)
shutdown_all taken m = (record m { consumers = [] }, close_all taken m.consumers)
