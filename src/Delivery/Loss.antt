-- ===== src/Delivery/Loss.antt =====
-- What an acknowledgement is worth: the pool holds acknowledged items in memory only, and a failed
-- item is put in the dead letter table only from a retry count that a delivery does not have.
use multi_tenant_messaging.Base.{
  ℕ, ◌≡◌, false, some, true, ◌++◌, ◌∷◌, [], refl, ◌∙◌, ap, subst, sym,
}
use multi_tenant_messaging.Db.{UuidFormat, Db}
use multi_tenant_messaging.Pool.{
  close_done, submit, Select, send, can_hand_over, WorkerPool, WorkItem, has_room, accepted,
}
use multi_tenant_messaging.Retry.{FloatScale, Attempt, Burial, process_work}
use multi_tenant_messaging.Base.Int.{ℤ, ltb_ℤ, pos}
use multi_tenant_messaging.Manager.{TenantConsumer}
use multi_tenant_messaging.Json.{JsonText, Message, unmarshal_message}
use multi_tenant_messaging.Delivery.{process_message, acked, item_of, reply_to}
use multi_tenant_messaging.Pool.Steps.{History, Reach, fresh}
use multi_tenant_messaging.Retry.DeadLetter.{below_limit_never_dead_letter}
use multi_tenant_messaging.Pool.Shutdown.{HasStopped, stop_may_drop}
use multi_tenant_messaging.Delivery.Replies.{process_message-some}

submit_room :
    (s : Select) (wp : WorkerPool) (item : WorkItem)
    → wp.done ≡ false
    → has_room wp ≡ true
    → can_hand_over s wp ≡ false
    → submit s wp item ≡ (record wp { work_chan = wp.work_chan ++ item ∷ [] }, accepted)
unfolding submit send
submit_room s wp item running room alone = rw (room, alone) (rw running refl)

-- A consumer whose pool is open and has room, while no worker waits that the item is handed to, as when
-- all are busy, acknowledges a message, and there is a schedule in which the pool then stops without a
-- worker ever receiving the item: it is left in the buffer.
pub acked_may_be_lost :
    (s : Select) (c : TenantConsumer) (body : JsonText) (m : Message)
    → unmarshal_message body ≡ some m
    → c.worker_pool.done ≡ false
    → has_room c.worker_pool ≡ true
    → can_hand_over s c.worker_pool ≡ false
    → let (after, reply) = process_message s true c body in
      (reply ≡ acked)
      × (i : History) × Reach (fresh after.worker_pool) i
      × HasStopped i
      × (i.taken ≡ [])
      × (i.pool.work_chan ≡ c.worker_pool.work_chan ++ item_of c m ∷ [])
unfolding close_done
acked_may_be_lost s c body m e running room alone =
    let item = item_of c m in
    let wp = c.worker_pool in
    let held = record wp { work_chan = wp.work_chan ++ item ∷ [] } in
    let sent : process_message s true c body ≡ (record c { worker_pool = held }, acked) =
      process_message-some s true c body m e
      ∙ ap (reply_to c true) (submit_room s wp item running room alone) in
    let (i, r, stopped, chan, taken) =
      stop_may_drop (fresh held) (record held { done = true }) (rw running refl) in
    subst
      (λ p.
        (p.1 ≡ acked)
        × (i : History) × Reach (fresh p.0.worker_pool) i
        × HasStopped i
        × (i.taken ≡ [])
        × (i.pool.work_chan ≡ wp.work_chan ++ item ∷ []))
      (sym sent) (refl, i, r, stopped, taken, chan)

-- With a retry limit above 0, no item that a consumer makes of a message is ever put in the dead
-- letter table, whatever happens to its attempts.
pub delivered_never_dead_letter :
    (u : UuidFormat) (f : FloatScale) (limit : ℤ) (env : ℕ → Attempt) (b : Burial)
    (c : TenantConsumer) (m : Message) (db : Db)
    → ltb_ℤ (pos 0) limit ≡ true
    → (process_work u f limit env b (item_of c m) db).dead_letters ≡ db.dead_letters
delivered_never_dead_letter u f limit env b c m db positive =
    below_limit_never_dead_letter u f limit env b (item_of c m) db positive
