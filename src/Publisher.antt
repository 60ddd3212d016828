-- ===== src/Publisher.antt =====
-- internal/rabbitmq/publisher.go, and `PublishMessage` of internal/tenant/manager.go.
pub mod Loop
pub mod Batch
pub mod Format
use multi_tenant_messaging.Base.{ℕ, Option, String, List, if◌then◌else◌, some, ◌∷◌, [], ◌++◌}
use multi_tenant_messaging.Amqp.{
  Command, Fault, Amqp, attempt, publish, pure, with_channel, ok, request, effected, unanswered,
  tx_rollback, ◌>>◌, publishing, tx_select, start_transaction, tx_commit, commit_transaction, fail,
  marshalling,
}
use multi_tenant_messaging.Json.{
  Json, JsonText, Message, value, object, field, text, integer, end, marshal_message,
}
use multi_tenant_messaging.Base.Int.{ℤ}
use mathlib.Core.Option.{none}
use multi_tenant_messaging.Topology.{main_queue}
use mathlib.Core.List.{[]}

-- `rabbitmq.Message`; its payload is any Go value, `none` one that `json.Marshal` refuses.
pub record OutgoingMessage : Type 0 where
  pub id : String
  pub tenant_id : String
  pub payload : Option Json
  pub timestamp : ℤ

-- `json.Marshal(message)`
pub marshal : OutgoingMessage → Option JsonText
marshal m = elim m.payload [
  | none ↦ none
  | some v ↦ some (
      value (
        object (
          field "id" (text m.id) (
            field "tenant_id" (text m.tenant_id)
              (field "payload" v (field "timestamp" (integer m.timestamp) end))))))
]

pub publication : String → String → JsonText → Command
publication tenant_id id body = publish (main_queue tenant_id) (record {
  body = body;
  message_id = none;
  headers = ("x-tenant-id", tenant_id) ∷ ("x-message-id", id) ∷ [];
})

publish_body : String → String → Option JsonText → Amqp (Unit {0})
publish_body tenant_id id none = fail marshalling
publish_body tenant_id id (some body) = request (publication tenant_id id body) publishing

-- `Publisher.Publish`; `NewChannel` opens the channel.
unfoldable pub publish_one : String → OutgoingMessage → Amqp (Unit {0})
unfolding publish_body marshal
publish_one tenant_id message = with_channel (publish_body tenant_id message.id (marshal message))

-- `ch.TxRollback(); return err`
abbrev pub roll_back : Fault → Amqp (Unit {0})
roll_back e = attempt tx_rollback >> fail e

abbrev pub publish_or_roll_back : Command → Amqp (Unit {0})
publish_or_roll_back c w b =
    if w.accepts b.accepted c
    then (ok tt, effected c b)
    else roll_back publishing w (unanswered c w b)

pub publish_step : String → String → Option JsonText → Amqp (Unit {0})
publish_step tenant_id id none = roll_back marshalling
publish_step tenant_id id (some body) = publish_or_roll_back (publication tenant_id id body)

-- The loop over the batch.
pub publish_loop : String → List OutgoingMessage → Amqp (Unit {0})
publish_loop tenant_id [] = pure tt
publish_loop tenant_id (m ∷ ms) =
    publish_step tenant_id m.id (marshal m) >> publish_loop tenant_id ms

-- `Publisher.PublishBatch`
pub publish_batch : String → List OutgoingMessage → Amqp (Unit {0})
publish_batch tenant_id messages = with_channel do
  request tx_select start_transaction
  publish_loop tenant_id messages
  request tx_commit commit_transaction

publish_raw : String → String → Option JsonText → Amqp (Unit {0})
publish_raw tenant_id id none = fail marshalling
publish_raw tenant_id id (some body) =
    request
      (publish (main_queue tenant_id)
        (record { body = body; message_id = some id; headers = ("x-tenant-id", tenant_id) ∷ [] }))
      publishing

-- `Manager.PublishMessage`, on a message with a raw payload.
unfoldable pub publish_to_tenant : String → Message → Amqp (Unit {0})
unfolding publish_raw
publish_to_tenant tenant_id message =
    with_channel (publish_raw tenant_id message.id (marshal_message message))
