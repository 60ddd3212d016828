-- ===== src/Manager/Lifecycle.antt =====
-- Stopping consumers: `StopConsumer` and `ShutdownAll`.
use multi_tenant_messaging.Base.{
  ℕ, List, String, map, ◌≡◌, none, some, true, ◌∷◌, All, [], drop, false, suc, if◌then◌else◌, refl,
  str_eq, arith, ap, ap₂,
}
use multi_tenant_messaging.Amqp.{err, ok, consumer_not_found}
use multi_tenant_messaging.Manager.{
  Manager, TenantConsumer, close_all, close_consumer, get_consumer, shutdown_all, stop_consumer,
  get_consumer_count, list_consumers, wait_workers, after_close,
}
use multi_tenant_messaging.Base.Assoc.{
  AllEntries, lookup, delete, lookup-AllEntries, length-delete, lookup-delete,
}
use multi_tenant_messaging.Manager.Registry.{IsRegistry, IsActive}
use multi_tenant_messaging.Pool.{close_done}
use mathlib.Core.List.{[]}

-- A consumer that is stopped for good: no worker runs, no item is in hand, its channel is closed.
pub record IsRetired (c : TenantConsumer) : Type 0 where
  pub closed : c.done ≡ true
  pub pool_closed : c.worker_pool.done ≡ true
  pub no_worker : c.worker_pool.live ≡ 0
  pub no_item : c.worker_pool.busy ≡ []
  pub channel_closed : c.channel_open ≡ false

-- Closing an active consumer never panics.
close_consumer-IsRetired :
    (taken : ℕ) (k : String) (c : TenantConsumer)
    → IsActive k c
    → (d : TenantConsumer) × (close_consumer taken c ≡ some d)
      × IsRetired d
      × (d.tenant_id ≡ k)
      × (d.worker_pool.work_chan ≡ drop taken c.worker_pool.work_chan)
unfolding close_consumer close_done
close_consumer-IsRetired taken k c a = (
  record c {
    worker_pool = wait_workers taken (record (c.worker_pool) { done = true });
    channel_open = false;
    done = true;
  },
  rw (a.running, a.pool_running) refl,
  record {
    closed = refl;
    pool_closed = refl;
    no_worker = refl;
    no_item = refl;
    channel_closed = refl;
  },
  a.own,
  refl,
)

pub stop_found :
    (taken : ℕ) (m : Manager) (k : String) (c : TenantConsumer)
    → lookup k m.consumers ≡ some c
    → stop_consumer taken m k
      ≡ (record m { consumers = delete k m.consumers }, after_close (close_consumer taken c))
unfolding stop_consumer
stop_found taken m k c e = rw (e, stop_consumer)

-- `StopConsumer` on a tenant that has a consumer takes it from the registry, leaves the others, and
-- retires it, without a panic.
pub stop_consumer_found :
    (taken : ℕ) (m : Manager) (k : String) {c : TenantConsumer}
    → IsRegistry m
    → get_consumer m k ≡ some c
    → let (m', r) = stop_consumer taken m k in
      (d : TenantConsumer) × (r ≡ ok d)
      × IsRetired d
      × (d.tenant_id ≡ k)
      × (suc (get_consumer_count m') ≡ get_consumer_count m)
      × ((j : String) → get_consumer m' j ≡ (if str_eq k j then none else get_consumer m j))
unfolding get_consumer get_consumer_count
stop_consumer_found taken m k {c} reg e =
    let (d, closed, retired, own, rest) =
      close_consumer-IsRetired taken k c
        (lookup-AllEntries IsActive k c m.consumers reg.active e) in
    rw (stop_found taken m k c e) (
      d,
      ap after_close closed,
      retired,
      own,
      length-delete k c m.consumers reg.distinct e,
      λ j. lookup-delete k j m.consumers,
    )

pub stop_missing :
    (taken : ℕ) (m : Manager) (k : String)
    → lookup k m.consumers ≡ none
    → stop_consumer taken m k ≡ (m, err (consumer_not_found k))
unfolding stop_consumer
stop_missing taken m k e = rw (e, stop_consumer)

-- The tenants of a list of retired consumers.
abbrev pub tenants_of : List TenantConsumer → List String
tenants_of = map λ d. d.tenant_id

close_all-IsRetired :
    (taken : String → ℕ) (cs : List (String × TenantConsumer))
    → AllEntries IsActive cs
    → (ds : List TenantConsumer) × (close_all taken cs ≡ some ds)
      × All IsRetired ds
      × (tenants_of ds ≡ map (λ e. e.0) cs)
unfolding close_all
close_all-IsRetired taken [] a = ([], refl, tt, refl)
close_all-IsRetired taken ((k, c) ∷ cs) (active, a) =
    let (d, closed, retired, own, rest) = close_consumer-IsRetired (taken k) k c active in
    let (ds, all, others, tenants) = close_all-IsRetired taken cs a in
    (d ∷ ds, ground (arith, closed, all), (retired, others), ap₂ (λ x xs. x ∷ xs) own tenants)

-- `ShutdownAll` empties the registry and retires every consumer that was in it, each once, without a
-- panic.
pub shutdown_all_retires :
    (taken : String → ℕ) (m : Manager)
    → IsRegistry m
    → let (m', closed) = shutdown_all taken m in
      (ds : List TenantConsumer) × (closed ≡ some ds)
      × All IsRetired ds
      × (tenants_of ds ≡ list_consumers m)
      × (get_consumer_count m' ≡ 0)
unfolding shutdown_all get_consumer_count list_consumers
shutdown_all_retires taken m reg =
    let (ds, closed, retired, tenants) = close_all-IsRetired taken m.consumers reg.active in
    (ds, closed, retired, tenants, refl)
