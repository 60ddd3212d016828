-- ===== src/Topology/Declared.antt =====
-- What a declaration or a deletion leaves at the broker, whether or not it succeeds.
use multi_tenant_messaging.Base.{String, ◌≡◌, refl, ◌∷◌, ◌⊎◌, arith, [], true, ◌+◌, inl, inr}
use multi_tenant_messaging.Amqp.Requests.{
  Requests, AllAccepted, run_requests, Refused, run_requests_cases,
}
use multi_tenant_messaging.Base.Int.{ℤ}
use multi_tenant_messaging.Topology.{
  declare_tenant_queue, declare_tenant_queues, dlx_name, main_queue, delete_tenant_queues, dl_queue,
  plain_args, main_args, delete_tenant_queue,
}
use multi_tenant_messaging.Amqp.{
  Answers, exchange_declare, queue_delete, Broker, declare_dlx, delete_main, ok, queue_declare,
  ◌>>◌, delete_dlq, pure, declare_dlq, exchange_delete, delete_dlx, queue_bind, bind_dlq,
  declare_main, Result, after_result, closing, err,
}

-- What a tenant needs, in the order of the requests: the main queue comes last.
abbrev pub tenant_requests : String → ℤ → Requests
tenant_requests tenant_id ttl =
    (exchange_declare (dlx_name tenant_id), declare_dlx)
    ∷ (queue_declare (dl_queue tenant_id) plain_args, declare_dlq)
    ∷ (queue_bind (dl_queue tenant_id) (dlx_name tenant_id), bind_dlq)
    ∷ (queue_declare (main_queue tenant_id) (main_args (dlx_name tenant_id) ttl), declare_main)
    ∷ []

abbrev pub removal_requests : String → Requests
removal_requests tenant_id =
    (queue_delete (main_queue tenant_id), delete_main)
    ∷ (queue_delete (dl_queue tenant_id), delete_dlq)
    ∷ (exchange_delete (dlx_name tenant_id), delete_dlx)
    ∷ []

declare-requests :
    (ttl : ℤ) (t : String) (w : Answers) (b : Broker)
    → declare_tenant_queues ttl t w b
      ≡ (run_requests (tenant_requests t ttl) >> pure (main_queue t, dl_queue t)) w b
unfolding declare_tenant_queues
declare-requests ttl t w b = ground arith

-- What a run came to stays so when a value is returned after it.
then_value :
    {A : Type 0} (a : A) (cs : Requests) (w : Answers) (b : Broker)
    (run : Result (Unit {0}) × Broker)
    → AllAccepted (λ r. r ≡ ok tt) cs b run ⊎ Refused cs w b run
    → AllAccepted (λ r. r ≡ ok a) cs b (after_result (λ _. pure a) w run)
      ⊎ Refused cs w b (after_result (λ _. pure a) w run)
then_value a cs w b (ok _, c) (inl (r, done, same)) = inl (refl, done, same)
then_value a cs w b (ok _, c) (inr (before, d, e, rest, split, r, done, no_more, same)) =
    absurd (cc)
then_value a cs w b (err f, c) (inl (r, done, same)) = absurd (cc)
then_value a cs w b (err f, c) (inr (before, d, e, rest, split, r, done, no_more, same)) =
    inr (before, d, e, rest, split, cc, done, no_more, same)

-- `declareTenantQueues` either has its four requests accepted, in order, and returns the names of the
-- main queue and the dead letter queue; or one request fails, its fault is the result, and exactly
-- the requests before it took effect, or they and it, if only its reply was lost. So the main queue is
-- declared only behind its dead letter exchange with the dead letter queue bound to it. The program
-- opens and closes no channel.
pub declare_tenant_queues_all_or_prefix :
    (ttl : ℤ) (t : String) (w : Answers) (b : Broker)
    → AllAccepted
        (λ r. r ≡ ok (main_queue t, dl_queue t))
        (tenant_requests t ttl)
        b
        (declare_tenant_queues ttl t w b)
      ⊎ Refused (tenant_requests t ttl) w b (declare_tenant_queues ttl t w b)
declare_tenant_queues_all_or_prefix ttl t w b = rw (declare-requests ttl t w b) (
    then_value (main_queue t, dl_queue t) (tenant_requests t ttl) w b _
      (run_requests_cases (tenant_requests t ttl) w b))

-- The two declarations of the repository make the same requests and give the same result.
declare_tenant_queue_agrees :
    (ttl : ℤ) (t : String) (w : Answers) (b : Broker)
    → declare_tenant_queue t ttl w b ≡ declare_tenant_queues ttl t w b
unfolding declare_tenant_queue declare_tenant_queues
declare_tenant_queue_agrees ttl t w b = refl

delete-requests :
    (t : String) (w : Answers) (b : Broker)
    → w.opens ≡ true
    → delete_tenant_queues t w b
      ≡ closing (run_requests (removal_requests t) w (record b { channels = b.channels + 1 }))
unfolding delete_tenant_queues
delete-requests t w b opens = ground arith

closing_cases :
    (cs : Requests) (w : Answers) (b : Broker) (run : Result (Unit {0}) × Broker)
    → AllAccepted (λ r. r ≡ ok tt) cs (record b { channels = b.channels + 1 }) run
      ⊎ Refused cs w (record b { channels = b.channels + 1 }) run
    → AllAccepted (λ r. r ≡ ok tt) cs b (closing run) ⊎ Refused cs w b (closing run)
closing_cases cs w b (r, c) (inl (fine, done, same)) = inl (fine, done, omega arith)
closing_cases cs w b (r, c) (inr (before, d, e, rest, split, bad, done, no_more, same)) =
    inr (before, d, e, rest, split, bad, done, no_more, omega arith)

-- Where a channel opens, `DeleteTenantQueues` deletes the main queue, the dead letter queue and the
-- exchange, in this order, up to the first failure, whose fault is the result. Its channel is closed
-- on every way out.
pub delete_tenant_queues_all_or_prefix :
    (t : String) (w : Answers) (b : Broker)
    → w.opens ≡ true
    → AllAccepted (λ r. r ≡ ok tt) (removal_requests t) b (delete_tenant_queues t w b)
      ⊎ Refused (removal_requests t) w b (delete_tenant_queues t w b)
delete_tenant_queues_all_or_prefix t w b opens = rw (delete-requests t w b opens) (
    closing_cases (removal_requests t) w b _
      (run_requests_cases (removal_requests t) w (record b { channels = b.channels + 1 })))

-- On a channel that is open, `DeleteTenantQueue` makes the same requests with the same result.
delete_tenant_queue_agrees :
    (t : String) (w : Answers) (b : Broker)
    → w.opens ≡ true
    → delete_tenant_queues t w b
      ≡ closing (delete_tenant_queue t w (record b { channels = b.channels + 1 }))
unfolding delete_tenant_queues delete_tenant_queue
delete_tenant_queue_agrees t w b opens = rw opens
