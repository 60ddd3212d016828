-- ===== src/Examples/Deliveries.antt =====
-- The theorems on deliveries at a consumer with an empty pool.
use multi_tenant_messaging.Base.{false, true, ◌≡◌, [], refl, ◌∷◌, List, ap, length, ◌++◌, arith}
use multi_tenant_messaging.Delivery.Replies.{Answered, process_message-Answered}
use multi_tenant_messaging.Json.{
  JsonText, unmarshal_message, value, message_object, object, end, malformed,
}
use multi_tenant_messaging.Pool.{Select, WorkerPool, submit, send, has_room, can_hand_over}
use multi_tenant_messaging.Retry.{process_work}
use multi_tenant_messaging.Examples.{
  unary_ids, consumer, exact_scale, letter, calm, burial, empty_db, pool_of_three,
}
use multi_tenant_messaging.Base.Int.{pos}
use multi_tenant_messaging.Delivery.{
  process_message, item_of, acked, Event, delivered, meanwhile, consume_messages, done_closed,
}
use multi_tenant_messaging.Delivery.Loss.{delivered_never_dead_letter, acked_may_be_lost}
use multi_tenant_messaging.Pool.Steps.{History, Reach, fresh, next, here, receives}
use multi_tenant_messaging.Pool.Shutdown.{HasStopped}
use multi_tenant_messaging.Delivery.Consumption.{Runs, ActsOn, count_taken, consume_messages-Runs}

abbrev pub eager : Select
eager = record { receiver_waits = false; picks_send = true }

abbrev pub letter_body : JsonText
letter_body = value (message_object letter (object end))

process_message-Answered_example :
    Answered eager true consumer letter_body (process_message eager true consumer letter_body)
process_message-Answered_example = process_message-Answered eager true consumer letter_body

acked_may_be_lost_example :
    let (after, reply) = process_message eager true consumer letter_body in
    (reply ≡ acked)
    × (i : History) × Reach (fresh after.worker_pool) i
    × HasStopped i
    × (i.taken ≡ [])
    × (i.pool.work_chan ≡ item_of consumer letter ∷ [])
unfolding unmarshal_message has_room can_hand_over
acked_may_be_lost_example = acked_may_be_lost eager consumer letter_body letter refl refl refl refl

delivered_never_dead_letter_example :
    (process_work unary_ids exact_scale
      (pos 5)
      (λ i. calm 10)
      burial
      (item_of consumer letter)
      empty_db).dead_letters
    ≡ []
delivered_never_dead_letter_example =
    delivered_never_dead_letter unary_ids exact_scale (pos 5) (λ i. calm 10) burial consumer letter
      empty_db refl

-- A worker has received the item.
abbrev taken_pool : WorkerPool
taken_pool = record pool_of_three { busy = item_of consumer letter ∷ [] }

takes_item : ActsOn (process_message eager true consumer letter_body).0.worker_pool taken_pool
unfolding process_message unmarshal_message submit send has_room can_hand_over
takes_item h e = (
  _,
  next here (
      receives (item_of consumer letter) [] (ap (λ (p : WorkerPool). p.work_chan) e) (
        omega
          (arith, ap (λ (p : WorkerPool). length p.busy) e, ap (λ (p : WorkerPool). p.live) e))),
  ap
      (λ (p : WorkerPool). record p {
        work_chan = [];
        busy = p.busy ++ item_of consumer letter ∷ [];
      })
      e,
  refl,
)

abbrev deliveries : List Event
deliveries =
    delivered eager true letter_body
    ∷ meanwhile taken_pool
    ∷ delivered eager true malformed
    ∷ done_closed
    ∷ []

consume_messages-Runs_example :
    Runs
      (fresh pool_of_three)
      (count_taken (consume_messages true consumer deliveries).1)
      (consume_messages true consumer deliveries).0
consume_messages-Runs_example = consume_messages-Runs true consumer deliveries (takes_item, tt)
