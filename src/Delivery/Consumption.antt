-- ===== src/Delivery/Consumption.antt =====
-- A consumer's loop as steps of its pool.
use multi_tenant_messaging.Base.{
  ℕ, Bool, List, if◌then◌else◌, ◌∷◌, suc, ◌≡◌, length, [], ◌+◌, inl, inr, arith, false, refl, ◌∙◌,
  ap, sym, length-append,
}
use multi_tenant_messaging.Pool.{Select, WorkerPool, submit}
use multi_tenant_messaging.Pool.Steps.{History, Reach, here, fresh, next, sends}
use multi_tenant_messaging.Delivery.{
  Reply, acked, ack_failed, nacked, consume_loop, consume_messages, Event, delivered, meanwhile,
  process_message, channel_closed, done_closed,
}
use multi_tenant_messaging.Manager.{TenantConsumer}
use multi_tenant_messaging.Json.{JsonText}
use multi_tenant_messaging.Delivery.Replies.{Answered, process_message-Answered}
use mathlib.Core.List.{[]}
use mathlib.Core.Bool.{true}
use multi_tenant_messaging.Pool.Shutdown.{Reach-trans}

-- The replies to deliveries that the pool took.
abbrev pub count_taken : List Reply → ℕ
count_taken [] = 0
count_taken (acked ∷ rs) = suc (count_taken rs)
count_taken (ack_failed ∷ rs) = suc (count_taken rs)
count_taken (nacked requeue ∷ rs) = count_taken rs

-- A run of the pool from `h` whose last pool is the consumer's and in which `n` more items were sent.
abbrev pub Runs : History → ℕ → TenantConsumer → Type 0
Runs h n c =
    (i : History) × Reach h i × (i.pool ≡ c.worker_pool) × (length i.sent ≡ length h.sent + n)

count_taken-cons :
    (r : Reply) (rs : List Reply) → count_taken (r ∷ rs) ≡ count_taken (r ∷ []) + count_taken rs
count_taken-cons acked rs = omega arith
count_taken-cons ack_failed rs = omega arith
count_taken-cons (nacked requeue) rs = omega arith

-- A delivery that is not taken is no step.
stays :
    (h : History) (c after : TenantConsumer) (reply : Reply) (requeue : Bool)
    → h.pool ≡ c.worker_pool
    → after ≡ c
    → reply ≡ nacked requeue
    → Runs h (count_taken (reply ∷ [])) after
stays h c after reply requeue own same answer =
    (h, here, own ∙ ap (λ (d : TenantConsumer). d.worker_pool) (sym same), rw answer (omega arith))

taken_one :
    (works : Bool) (reply : Reply)
    → reply ≡ (if works then acked else ack_failed)
    → count_taken (reply ∷ []) ≡ 1
taken_one true reply e = rw e refl
taken_one false reply e = rw e refl

-- One delivery is at most one step.
delivery-Runs :
    (s : Select) (works : Bool) (c : TenantConsumer) (body : JsonText) (h : History)
    → h.pool ≡ c.worker_pool
    → (out : TenantConsumer × Reply) → Answered s works c body out
    → Runs h (count_taken (out.1 ∷ [])) out.0
delivery-Runs s works c body h own (after, reply) (inl (text, same, answer)) =
    stays h c after reply false own same answer
delivery-Runs s works c body h own (after, reply)
      (inr (inl (m, item, text, made, full, same, answer))) =
    stays h c after reply true own same answer
delivery-Runs s works c body h own (after, reply)
      (inr (inr (m, item, text, made, fits, same, held, answer))) =
    (
      _,
      next here (sends s item (rw own fits)),
      ap (λ p. (submit s p item).0) own ∙ ap (λ (d : TenantConsumer). d.worker_pool) (sym same),
      length-append h.sent (item ∷ [])
          ∙ ap (λ n. length h.sent + n) (sym (taken_one works reply answer)),
    )

-- What workers, `Resize` and `Stop` can do to a pool: steps in which no item is sent.
abbrev pub ActsOn : WorkerPool → WorkerPool → Type 0
ActsOn wp after =
    (h : History)
    → h.pool ≡ wp
    → (i : History) × Reach h i × (i.pool ≡ after) × (length i.sent ≡ length h.sent)

-- Between the rounds of the loop the pool is changed by such steps only.
abbrev pub IsPossible : TenantConsumer → List Event → Type 0
IsPossible c [] = Unit
IsPossible c (meanwhile wp ∷ es) =
    ActsOn c.worker_pool wp × IsPossible (record c { worker_pool = wp }) es
IsPossible c (channel_closed ∷ es) = Unit
IsPossible c (done_closed ∷ es) = Unit
IsPossible c (delivered s works body ∷ es) = IsPossible (process_message s works c body).0 es

loop-Runs :
    (c : TenantConsumer) (es : List Event) (h : History)
    → h.pool ≡ c.worker_pool
    → IsPossible c es
    → Runs h (count_taken (consume_loop c es).1) (consume_loop c es).0
unfolding consume_loop
loop-Runs c [] h own ok = (h, here, own, omega arith)
loop-Runs c (meanwhile wp ∷ es) h own (acts, ok) =
    let (i, r, own_i, none_sent) = acts h own in
    let (j, q, own_j, more) = loop-Runs (record c { worker_pool = wp }) es i own_i ok in
    (j, Reach-trans r q, own_j, omega (arith, none_sent, more))
loop-Runs c (channel_closed ∷ es) h own ok = (h, here, own, omega arith)
loop-Runs c (done_closed ∷ es) h own ok = (h, here, own, omega arith)
loop-Runs c (delivered s works body ∷ es) h own ok =
    let out = process_message s works c body in
    let (i, r, own_i, one) =
      delivery-Runs s works c body h own out (process_message-Answered s works c body) in
    let (j, q, own_j, more) = loop-Runs out.0 es i own_i ok in
    (
      j,
      Reach-trans r q,
      own_j,
      omega (arith, one, more, count_taken-cons out.1 (consume_loop out.0 es).1),
    )

-- Whatever deliveries come, and whatever workers, `Resize` and `Stop` do to the pool between two of them, a
-- consumer's loop with those steps is a run of its pool, to which the pool's invariants apply: each
-- delivery that is acknowledged, or whose acknowledgement fails, sent one item, and no other delivery sent
-- any.
pub consume_messages-Runs :
    (subscribed : Bool) (c : TenantConsumer) (es : List Event)
    → IsPossible c es
    → Runs
        (fresh c.worker_pool)
        (count_taken (consume_messages subscribed c es).1)
        (consume_messages subscribed c es).0
unfolding consume_messages
consume_messages-Runs true c es ok = loop-Runs c es (fresh c.worker_pool) refl ok
consume_messages-Runs false c es ok = (fresh c.worker_pool, here, refl, refl)
