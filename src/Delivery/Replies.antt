-- ===== src/Delivery/Replies.antt =====
-- How each delivery is answered.
use multi_tenant_messaging.Base.{
  Bool, ◌≡◌, ◌≢◌, none, false, if◌then◌else◌, true, arith, ◌⊎◌, refl, some, Option-cases, inl, inr,
  ◌∙◌, subst, sym, ap, ◌++◌, ◌∷◌, [],
}
use multi_tenant_messaging.Delivery.{
  process_message, Reply, nacked, reply_to, acked, ack_failed, item_of,
}
use multi_tenant_messaging.Manager.{TenantConsumer}
use multi_tenant_messaging.Pool.{
  Select, WorkerPool, WorkItem, Submitted, accepted, shutting_down, submit, queue_full,
}
use multi_tenant_messaging.Json.{JsonText, unmarshal_message, Message}
use multi_tenant_messaging.Pool.Order.{submit_refused, submit_accepted}
use multi_tenant_messaging.Base.Int.{pos}

-- The item that a message is to become at a consumer.
abbrev pub IsItemOf : TenantConsumer → Message → WorkItem → Type 0
IsItemOf c m item =
    (item.message_id ≡ m.id)
    × (item.payload ≡ m.payload)
    × (item.tenant_id ≡ c.tenant_id)
    × (item.retry_count ≡ pos 0)

-- The pool holds one more item, at the end of its buffer or in a worker's hands.
abbrev pub Holds : WorkItem → WorkerPool → WorkerPool → Type 0
Holds item wp after =
    (after ≡ record wp { work_chan = wp.work_chan ++ item ∷ [] })
    ⊎ (after ≡ record wp { busy = wp.busy ++ item ∷ [] })

-- The three outcomes of a delivery: a text that is no message is rejected for good; a message that the
-- pool refuses is requeued, with nothing changed; a message that the pool accepts is acknowledged, and
-- only the consumer's pool is changed.
abbrev pub Answered : Select → Bool → TenantConsumer → JsonText → TenantConsumer × Reply → Type 0
Answered s ack_works c body (after, reply) =
    ((unmarshal_message body ≡ none) × (after ≡ c) × (reply ≡ nacked false))
    ⊎ (((m : Message) × (item : WorkItem) × (unmarshal_message body ≡ some m)
          × IsItemOf c m item
          × ((submit s c.worker_pool item).1 ≢ accepted)
          × (after ≡ c)
          × (reply ≡ nacked true))
        ⊎ ((m : Message) × (item : WorkItem) × (unmarshal_message body ≡ some m)
            × IsItemOf c m item
            × ((submit s c.worker_pool item).1 ≡ accepted)
            × (after ≡ record c { worker_pool = (submit s c.worker_pool item).0 })
            × Holds item c.worker_pool after.worker_pool
            × (reply ≡ (if ack_works then acked else ack_failed))))

submit-Holds :
    (s : Select) (wp : WorkerPool) (item : WorkItem)
    → (submit s wp item).1 ≡ accepted
    → Holds item wp (submit s wp item).0
submit-Holds s wp item fits = elim (submit_accepted s wp item fits) [
  | inl (alone, room, e) ↦ inl e
  | inr (waits, empty, idle, e) ↦ inr e
]

Submitted-cases : (r : Submitted) → (r ≡ accepted) ⊎ (r ≢ accepted)
Submitted-cases accepted = inl refl
Submitted-cases shutting_down = inr (λ e. cc)
Submitted-cases queue_full = inr (λ e. cc)

pub reply_to-accepted :
    (c : TenantConsumer) (works : Bool) (out : WorkerPool × Submitted)
    → out.1 ≡ accepted
    → ((reply_to c works out).0 ≡ record c { worker_pool = out.0 })
      × ((reply_to c works out).1 ≡ (if works then acked else ack_failed))
reply_to-accepted c true (wp, accepted) e = (refl, refl)
reply_to-accepted c false (wp, accepted) e = (refl, refl)
reply_to-accepted c works (wp, shutting_down) e = absurd (cc)
reply_to-accepted c works (wp, queue_full) e = absurd (cc)

reply_to-refused :
    (c : TenantConsumer) (works : Bool) (out : WorkerPool × Submitted)
    → out.1 ≢ accepted
    → ((reply_to c works out).0 ≡ record c { worker_pool = out.0 })
      × ((reply_to c works out).1 ≡ nacked true)
reply_to-refused c works (wp, accepted) ne = absurd (ne refl)
reply_to-refused c works (wp, shutting_down) ne = ground arith
reply_to-refused c works (wp, queue_full) ne = ground arith

module _ (s : Select) (ack_works : Bool) (c : TenantConsumer) (body : JsonText) where
  process_message-none :
      unmarshal_message body ≡ none → process_message s ack_works c body ≡ (c, nacked false)
  unfolding process_message
  process_message-none e = rw (e, process_message)

  pub process_message-some :
      (m : Message)
      → unmarshal_message body ≡ some m
      → process_message s ack_works c body
        ≡ reply_to c ack_works (submit s c.worker_pool (item_of c m))
  unfolding process_message
  process_message-some m e = rw (e, process_message)

  -- Every delivery is answered once: it is rejected without requeueing exactly if its text is no
  -- message, requeued, with nothing changed, if the pool refuses the item, and acknowledged if the pool accepts
  -- it, where the acknowledgement itself may fail, and then the consumer is changed only in that its pool
  -- holds the item, at the end of its buffer or in a worker's hands. The item carries the message's id and
  -- payload, the consumer's own tenant, whatever the message says, and a retry count of 0.
  pub process_message-Answered : Answered s ack_works c body (process_message s ack_works c body)
  process_message-Answered = elim (Option-cases (unmarshal_message body)) [
    | inl e ↦
        subst (Answered s ack_works c body) (sym (process_message-none e)) (inl (e, refl, refl))
    | inr (m, e) ↦
        let wp = c.worker_pool in
        let out = submit s wp (item_of c m) in
        elim (Submitted-cases out.1) [
          | inl fits ↦
              let (kept, reply) = reply_to-accepted c ack_works out fits in
              subst (Answered s ack_works c body) (sym (process_message-some m e)) (
                inr (
                  inr (
                    m,
                    item_of c m,
                    e,
                    (refl, refl, refl, refl),
                    fits,
                    kept,
                    rw kept (submit-Holds s wp (item_of c m) fits),
                    reply,
                  )))
          | inr full ↦
              let (kept, reply) = reply_to-refused c ack_works out full in
              subst (Answered s ack_works c body) (sym (process_message-some m e)) (
                inr (
                  inl (
                    m,
                    item_of c m,
                    e,
                    (refl, refl, refl, refl),
                    full,
                    kept
                        ∙ ap (λ (p : WorkerPool). record c { worker_pool = p })
                            (submit_refused s wp (item_of c m) full),
                    reply,
                  )))
        ]
  ]
