-- ===== src/Delivery/Roundtrip.antt =====
-- From `PublishMessage` through the broker's queue to `processMessage`, both of
-- internal/tenant/manager.go.
use multi_tenant_messaging.Base.{
  String, ◌≡◌, some, true, ◌++◌, ◌∷◌, [], Bool, refl, ap, ℕ, ◌+◌, ◌-◌, arith,
}
use multi_tenant_messaging.Json.{
  marshal_message, Message, Json, value, fits_int64, message_object, unmarshal-marshal,
}
use multi_tenant_messaging.Publisher.{publish_to_tenant, OutgoingMessage, publish_one}
use multi_tenant_messaging.Amqp.{Answers, Broker, Command, Publishing, ok, publish}
use multi_tenant_messaging.Topology.{main_queue}
use multi_tenant_messaging.Pool.{Select, submit}
use multi_tenant_messaging.Manager.{TenantConsumer}
use multi_tenant_messaging.Delivery.{process_message, reply_to, item_of}
use multi_tenant_messaging.Delivery.Replies.{process_message-some}
use multi_tenant_messaging.Publisher.Format.{message_of, outgoing, publish_one_accepted}

marshal_value :
    (m : Message) (v : Json)
    → m.payload ≡ value v
    → marshal_message m ≡ some (value (message_object m v))
unfolding marshal_message
marshal_value m v e = rw e refl

abbrev delivery_of : String → Message → Json → Publishing
delivery_of t m v = record {
  body = value (message_object m v);
  message_id = some m.id;
  headers = ("x-tenant-id", t) ∷ [];
}

one_more : (n : ℕ) → n + 1 - 1 ≡ n
one_more n = omega arith

-- A message with a JSON payload and a timestamp of 64 bits, published over a working broker, is the
-- one request of the operation, to the tenant's main queue, and the channel is closed. Whoever gets
-- the delivery gives the pool an item with the message's id and payload and a retry count of 0.
pub published_is_delivered :
    (t : String) (m : Message) (v : Json) (w : Answers) (b : Broker)
    → fits_int64 m.timestamp ≡ true
    → m.payload ≡ value v
    → w.opens ≡ true
    → ((c : Command) → w.accepts b.accepted c ≡ true)
    → (p : Publishing) × (publish_to_tenant t m w b
        ≡ (ok tt, record b { accepted = b.accepted ++ publish (main_queue t) p ∷ [] }))
      × ((s : Select) (ack_works : Bool) (c : TenantConsumer)
          → process_message s ack_works c p.body
            ≡ reply_to c ack_works (submit s c.worker_pool (item_of c m)))
unfolding publish_to_tenant
published_is_delivered t m v w b fits payload opens accepts =
    let sent : Command = publish (main_queue t) (delivery_of t m v) in
    (
      delivery_of t m v,
      rw (opens, marshal_value m v payload, accepts sent)
          (ap (λ (n : ℕ). (ok tt, record b { accepted = b.accepted ++ sent ∷ []; channels = n }))
            (one_more b.channels)),
      λ s works c.
          process_message-some s works c (value (message_object m v)) m
            (unmarshal-marshal m fits v payload _ (marshal_value m v payload)),
    )

-- The publisher of internal/rabbitmq writes the format that the consumers of internal/tenant read: a message that
-- `Publish` has accepted over a working broker gives the pool, whoever gets the delivery, an item with its
-- id and payload and a retry count of 0.
pub publisher_is_delivered :
    (t : String) (m : OutgoingMessage) (v : Json) (w : Answers) (b : Broker)
    → fits_int64 m.timestamp ≡ true
    → m.payload ≡ some v
    → w.opens ≡ true
    → ((c : Command) → w.accepts b.accepted c ≡ true)
    → (p : Publishing) × (publish_one t m w b
        ≡ (ok tt, record b { accepted = b.accepted ++ publish (main_queue t) p ∷ [] }))
      × ((s : Select) (ack_works : Bool) (c : TenantConsumer)
          → process_message s ack_works c p.body
            ≡ reply_to c ack_works (submit s c.worker_pool (item_of c (message_of m v))))
publisher_is_delivered t m v w b fits payload opens accepts = (
  outgoing t m v,
  publish_one_accepted t m v w b payload opens (accepts (publish (main_queue t) (outgoing t m v))),
  λ s works c.
      process_message-some s works c (value (message_object (message_of m v) v)) (message_of m v)
        (unmarshal-marshal (message_of m v) fits v refl _ (marshal_value (message_of m v) v refl)),
)
