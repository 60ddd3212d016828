-- ===== src/Publisher/Format.antt =====
-- What `Publisher.Publish` sends, in the words of the consumers' format.
use multi_tenant_messaging.Base.{
  String, ℕ, ◌+◌, ◌-◌, ◌≡◌, arith, none, some, ◌∷◌, [], true, ◌++◌, ap,
}
use multi_tenant_messaging.Publisher.{
  OutgoingMessage, publish_one, publication, marshal, publish_body,
}
use multi_tenant_messaging.Json.{Json, Message, value, message_object}
use multi_tenant_messaging.Amqp.{Publishing, Answers, Broker, publish, ok}
use multi_tenant_messaging.Topology.{main_queue}

-- What a consumer reads of a message of the publisher.
abbrev pub message_of : OutgoingMessage → Json → Message
message_of m v = record {
  id = m.id;
  tenant_id = m.tenant_id;
  payload = value v;
  timestamp = m.timestamp;
}

abbrev pub outgoing : String → OutgoingMessage → Json → Publishing
outgoing t m v = record {
  body = value (message_object (message_of m v) v);
  message_id = none;
  headers = ("x-tenant-id", t) ∷ ("x-message-id", m.id) ∷ [];
}

one_channel : (n : ℕ) → n + 1 - 1 ≡ n
one_channel n = omega arith

-- A publication that the broker accepts is the one request of the operation, whose channel is closed.
pub publish_one_accepted :
    (t : String) (m : OutgoingMessage) (v : Json) (w : Answers) (b : Broker)
    → m.payload ≡ some v
    → w.opens ≡ true
    → w.accepts b.accepted (publish (main_queue t) (outgoing t m v)) ≡ true
    → publish_one t m w b
      ≡ (ok tt, record b { accepted = b.accepted ++ publish (main_queue t) (outgoing t m v) ∷ [] })
unfolding publish_one publication marshal publish_body
publish_one_accepted t m v w b payload opens accepts =
    rw (payload, opens, accepts)
      (ap
        (λ (n : ℕ). (
          ok tt,
          record b {
            accepted = b.accepted ++ publish (main_queue t) (outgoing t m v) ∷ [];
            channels = n;
          },
        ))
        (one_channel b.channels))
