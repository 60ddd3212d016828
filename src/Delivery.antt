-- ===== src/Delivery.antt =====
-- internal/tenant/manager.go: `processMessage` and the loop of `consumeMessages`, from a delivery to
-- the worker pool and back to the broker as an acknowledgement.
pub mod Replies
pub mod Loss
pub mod Roundtrip
pub mod Registry
pub mod Consumption
use multi_tenant_messaging.Base.{ℕ, Bool, List, [], true, none, ◌∷◌, some, if◌then◌else◌}
use multi_tenant_messaging.Manager.{TenantConsumer}
use multi_tenant_messaging.Pool.{
  Select, WorkerPool, Submitted, WorkItem, accepted, shutting_down, queue_full, submit,
}
use multi_tenant_messaging.Json.{JsonText, Message, unmarshal_message}
use multi_tenant_messaging.Base.Int.{pos}
use mathlib.Core.Bool.{false}

-- What the broker hears of a delivery. `ack_failed` is an `Ack` that returned an error.
pub data Reply : Type 0 where
  acked ack_failed : Reply
  nacked : Bool → Reply  -- whether it is requeued

-- The item that is made of a message: the tenant is the consumer's, whatever the message says, and the
-- retry count starts at 0.
abbrev pub item_of : TenantConsumer → Message → WorkItem
item_of c m = record {
  message_id = m.id;
  tenant_id = c.tenant_id;
  payload = m.payload;
  retry_count = pos 0;
}

-- The reply to a decoded message, by the pool's answer and whether `Ack` works.
abbrev pub reply_to : TenantConsumer → Bool → WorkerPool × Submitted → TenantConsumer × Reply
reply_to c true (wp, accepted) = (record c { worker_pool = wp }, acked)
reply_to c false (wp, accepted) = (record c { worker_pool = wp }, ack_failed)
reply_to c ack_works (wp, shutting_down) = (record c { worker_pool = wp }, nacked true)
reply_to c ack_works (wp, queue_full) = (record c { worker_pool = wp }, nacked true)

unfoldable pub process_message : Select → Bool → TenantConsumer → JsonText → TenantConsumer × Reply
process_message s ack_works c body = elim (unmarshal_message body) [
  | none ↦ (c, nacked false)
  | some m ↦ reply_to c ack_works (submit s c.worker_pool (item_of c m))
]

-- What the loop meets: at its `select` a delivery, the closed message channel or the closed `Done`; and, between two
-- rounds, the pool as its workers, `Resize` and `Stop`, which share it, have left it.
pub data Event : Type 0 where
  meanwhile : WorkerPool → Event
  delivered : Select → Bool → JsonText → Event
  channel_closed done_closed : Event

-- The loop returns when a channel is closed. Errors are only logged.
pub consume_loop : TenantConsumer → List Event → TenantConsumer × List Reply
consume_loop c [] = (c, [])
consume_loop c (meanwhile wp ∷ es) = consume_loop (record c { worker_pool = wp }) es
consume_loop c (channel_closed ∷ es) = (c, [])
consume_loop c (done_closed ∷ es) = (c, [])
consume_loop c (delivered s ack_works body ∷ es) =
    let (c', reply) = process_message s ack_works c body in
    let (last, replies) = consume_loop c' es in (last, reply ∷ replies)

-- `consumeMessages`, which returns at once where the broker refuses `Consume`.
pub consume_messages : Bool → TenantConsumer → List Event → TenantConsumer × List Reply
unfolding consume_loop
consume_messages subscribed c es = if subscribed then consume_loop c es else (c, [])
