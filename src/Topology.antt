-- ===== src/Topology.antt =====
-- The queues and exchanges of a tenant: `declareTenantQueues` and `DeleteTenantQueues` of
-- internal/tenant/manager.go, and their twins `DeclareTenantQueue` and `DeleteTenantQueue` of
-- internal/rabbitmq/connection.go.
pub mod Names
pub mod Declared
use Prim.Native.String.{◌++◌ as str_append}
use multi_tenant_messaging.Base.{ℕ, String, none, some, if◌then◌else◌, ◌/◌, suc}
use multi_tenant_messaging.Amqp.{
  QueueArgs, Amqp, with_channel, ◌>>◌, request, exchange_declare, queue_delete, declare_dlx,
  delete_main, delete_dlq, queue_declare, declare_dlq, exchange_delete, delete_dlx, queue_bind,
  bind_dlq, declare_main, pure,
}
use multi_tenant_messaging.Base.Int.{ℤ, pos, ltb_ℤ, negsuc, int32, sub_ℕ}

-- `fmt.Sprintf("tenant_%s_queue", tenantID)` and so on.
unfoldable pub main_queue : String → String
main_queue tenant_id = str_append "tenant_" (str_append tenant_id "_queue")

pub dlx_name : String → String
dlx_name tenant_id = str_append "tenant_" (str_append tenant_id "_dlx")

pub dl_queue : String → String
dl_queue tenant_id = str_append "tenant_" (str_append tenant_id "_dlq")

-- `ttl.Milliseconds()`: nanoseconds over 10^6, rounded towards zero.
abbrev pub milliseconds : ℤ → ℤ
milliseconds (pos n) = pos (n / 1_000_000)
milliseconds (negsuc n) = sub_ℕ 0 (suc n / 1_000_000)

abbrev pub plain_args : QueueArgs
plain_args = record { dead_letter_exchange = none; message_ttl = none }

-- The main queue's arguments; the expiry is set for a positive duration only.
unfoldable pub main_args : String → ℤ → QueueArgs
main_args exchange_name ttl = record {
  dead_letter_exchange = some exchange_name;
  message_ttl = if ltb_ℤ (pos 0) ttl then some (int32 (milliseconds ttl)) else none;
}

-- `Manager.declareTenantQueues`: the names of the main queue and of the dead letter queue.
unfoldable pub declare_tenant_queues : ℤ → String → Amqp (String × String)
declare_tenant_queues message_ttl tenant_id = do
  request (exchange_declare (dlx_name tenant_id)) declare_dlx
  request (queue_declare (dl_queue tenant_id) plain_args) declare_dlq
  request (queue_bind (dl_queue tenant_id) (dlx_name tenant_id)) bind_dlq
  request (queue_declare (main_queue tenant_id) (main_args (dlx_name tenant_id) message_ttl))
      declare_main
  pure (main_queue tenant_id, dl_queue tenant_id)

-- `rabbitmq.DeclareTenantQueue`
pub declare_tenant_queue : String → ℤ → Amqp (String × String)
declare_tenant_queue tenant_id ttl = do
  request (exchange_declare (dlx_name tenant_id)) declare_dlx
  request (queue_declare (dl_queue tenant_id) plain_args) declare_dlq
  request (queue_bind (dl_queue tenant_id) (dlx_name tenant_id)) bind_dlq
  request (queue_declare (main_queue tenant_id) (main_args (dlx_name tenant_id) ttl)) declare_main
  pure (main_queue tenant_id, dl_queue tenant_id)

-- `rabbitmq.DeleteTenantQueue`, on a channel of the caller.
pub delete_tenant_queue : String → Amqp (Unit {0})
delete_tenant_queue tenant_id = do
  request (queue_delete (main_queue tenant_id)) delete_main
  request (queue_delete (dl_queue tenant_id)) delete_dlq
  request (exchange_delete (dlx_name tenant_id)) delete_dlx

-- `Manager.DeleteTenantQueues`, on a channel of its own.
pub delete_tenant_queues : String → Amqp (Unit {0})
delete_tenant_queues tenant_id = with_channel do
  request (queue_delete (main_queue tenant_id)) delete_main
  request (queue_delete (dl_queue tenant_id)) delete_dlq
  request (exchange_delete (dlx_name tenant_id)) delete_dlx
