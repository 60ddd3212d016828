-- ===== src/Delivery/Registry.antt =====
-- A delivery at the consumer of the registry that a tenant has.
use multi_tenant_messaging.Pool.{Select, WorkItem, submit}
use multi_tenant_messaging.Base.{Bool, String, inl, none, Option-cases, inr, some, ◌∙◌}
use multi_tenant_messaging.Json.{JsonText}
use multi_tenant_messaging.Manager.{TenantConsumer, Manager}
use multi_tenant_messaging.Delivery.{Reply, process_message}
use multi_tenant_messaging.Base.Assoc.{lookup, insert, lookup-AllEntries}
use multi_tenant_messaging.Delivery.Replies.{Answered, process_message-Answered}
use multi_tenant_messaging.Manager.Bounds.{IsConfigured}
use multi_tenant_messaging.Manager.Registry.{IsActive, IsRegistry}
use multi_tenant_messaging.Pool.Size.{submit_identity}
use multi_tenant_messaging.Manager.Spawn.{insert-IsRegistry}
use multi_tenant_messaging.Manager.Histories.{keeps_config}

-- The consumer is shared by the registry and its goroutine; a tenant without one gets no delivery.
pub deliver : Select → Bool → String → JsonText → Manager → Manager
deliver s ack_works k body m = elim (lookup k m.consumers) [
  | none ↦ m
  | some c ↦ record m { consumers = insert k (process_message s ack_works c body).0 m.consumers }
]

with_submitted-IsActive :
    (s : Select) (k : String) (c : TenantConsumer) (item : WorkItem)
    → IsActive k c
    → IsActive k (record c { worker_pool = (submit s c.worker_pool item).0 })
with_submitted-IsActive s k c item a =
    let (own, done, workers, live) = submit_identity s c.worker_pool item in
    record {
      own = a.own;
      queue = a.queue;
      channel = a.channel;
      running = a.running;
      pool_own = own ∙ a.pool_own;
      pool_running = done ∙ a.pool_running;
      sized = record {
        counted = rw workers a.sized.counted;
        low = rw workers a.sized.low;
        high = rw workers a.sized.high;
        covered = rw (workers, live) a.sized.covered;
      };
    }

Answered-IsActive :
    (s : Select) (works : Bool) (k : String) (c : TenantConsumer) (body : JsonText)
    (out : TenantConsumer × Reply)
    → Answered s works c body out
    → IsActive k c
    → IsActive k out.0
Answered-IsActive s works k c body out (inl (unread, same, reply)) a = rw same a
Answered-IsActive s works k c body out (inr (inl (m, item, read, made, full, same, reply))) a =
    rw same a
Answered-IsActive s works k c body out (inr (inr (m, item, read, made, fits, same, held, reply)))
      a =
    rw same (with_submitted-IsActive s k c item a)

-- A consumer stays open, its own and of a valid size, whatever is delivered to it.
pub deliver-kept :
    (s : Select) (works : Bool) (k : String) (body : JsonText) (m : Manager)
    → IsConfigured m
    → IsRegistry m
    → IsRegistry (deliver s works k body m) × IsConfigured (deliver s works k body m)
unfolding deliver
deliver-kept s works k body m conf reg = elim (Option-cases (lookup k m.consumers)) [
  | inl absent ↦ rw (absent, deliver) (reg, conf)
  | inr (c, e) ↦
      rw (e, deliver)
        (
          insert-IsRegistry m k _
              (Answered-IsActive s works k c body (process_message s works c body)
                (process_message-Answered s works c body)
                (lookup-AllEntries IsActive k c m.consumers reg.active e))
              reg,
          keeps_config _ conf,
        )
]
