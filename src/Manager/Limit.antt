-- ===== src/Manager/Limit.antt =====
-- A manager whose limit is negative.
use multi_tenant_messaging.Base.{
  ℕ, String, ◌<◌, ◌≡◌, ◌^◌, arith, none, suc, Option-cases, inl, refl, inr, true, false,
}
use multi_tenant_messaging.Amqp.{
  Result, Broker, Fault, Answers, err, Amqp, open_channel, after_result, ok, panicked,
  consumer_exists, ◌>>=◌, pure,
}
use multi_tenant_messaging.Manager.{
  clamp_spawn, make_consumer, Manager, TenantConsumer, spawn_consumer, or_close, registered,
  get_consumer, pool_or_panic,
}
use multi_tenant_messaging.Pool.{new_worker_pool}
use multi_tenant_messaging.Base.Int.{int64, ℤ, pos, negsuc}
use Prim.Native.Nat.{zero}
use multi_tenant_messaging.Topology.{declare_tenant_queues}
use multi_tenant_messaging.Manager.Spawn.{spawn_absent, spawn_consumer_duplicate}

-- Such a limit caps every count.
clamp_spawn_negative :
    (m : Manager) (asked : ℤ) (d n : ℕ)
    → m.default_workers ≡ pos d
    → 0 < d
    → m.max_workers ≡ negsuc n
    → clamp_spawn m asked ≡ negsuc n
unfolding clamp_spawn
clamp_spawn_negative m (pos zero) d n has_d low has_l = ground arith
clamp_spawn_negative m (pos (suc a)) d n has_d low has_l = ground arith
clamp_spawn_negative m (negsuc a) d n has_d low has_l = ground arith

no_pool : (t : String) (n : ℕ) (r : ℤ) → n < 2 ^ 31 → new_worker_pool t (negsuc n) r ≡ none
unfolding new_worker_pool int64
no_pool t n r high = ground arith

abbrev IsFault : {A : Type 0} → Result A × Broker → Type 0
IsFault (r, b) = (e : Fault) × (r ≡ err e)

-- A step that always fails makes what it is part of fail.
after_result-IsFault :
    {A B : Type 0} (f : A → Amqp B) (w : Answers) (run : Result A × Broker)
    → ((a : A) (b : Broker) → IsFault (f a w b))
    → IsFault (after_result f w run)
after_result-IsFault f w (ok a, b) h = h a b
after_result-IsFault f w (err e, b) h = (e, refl)

-- The rest of `make_consumer` after the queues.
abbrev with_pool : Manager → String → ℕ → String × String → Amqp TenantConsumer
with_pool m k n names = pool_or_panic (new_worker_pool k (negsuc n) m.max_retry) >>= λ wp.
    pure (record {
      tenant_id = k;
      queue_name = names.0;
      worker_pool = wp;
      channel_open = true;
      done = false;
    })

with_pool-IsFault :
    (m : Manager) (k : String) (n : ℕ) (names : String × String) (w : Answers) (b : Broker)
    → n < 2 ^ 31
    → IsFault (with_pool m k n names w b)
with_pool-IsFault m k n names w b high = rw (no_pool k n m.max_retry high) (panicked, refl)

no_consumer :
    (m : Manager) (k : String) (n : ℕ) (w : Answers) (b : Broker)
    → n < 2 ^ 31
    → IsFault (make_consumer m k (negsuc n) w b)
unfolding make_consumer
no_consumer m k n w b high =
    let queues = or_close (declare_tenant_queues m.message_ttl k) in
    after_result-IsFault (λ _. queues >>= with_pool m k n) w (open_channel w b)
      (λ _ b'.
        after_result-IsFault (with_pool m k n) w (queues w b')
          (λ names b''. with_pool-IsFault m k n names w b'' high))

registered_fault :
    (m : Manager) (k : String) (made : Result TenantConsumer × Broker)
    → IsFault made
    → ((registered m k made).0 ≡ m) × ((e : Fault) × ((registered m k made).1 ≡ err e))
registered_fault m k (err e, b) h = (refl, (e, refl))
registered_fault m k (ok c, b) (e, h) = absurd (cc)

-- Every spawn then fails, and the registry stays.
pub spawn_negative_limit :
    (m : Manager) (k : String) (asked : ℤ) (w : Answers) (b : Broker) (d n : ℕ)
    → m.default_workers ≡ pos d
    → 0 < d
    → m.max_workers ≡ negsuc n
    → n < 2 ^ 31
    → ((spawn_consumer m k asked w b).0 ≡ m)
      × ((e : Fault) × ((spawn_consumer m k asked w b).1 ≡ err e))
spawn_negative_limit m k asked w b d n has_d low has_l high =
    elim (Option-cases (get_consumer m k)) [
      | inl absent ↦
          rw (spawn_absent m k asked w b absent, clamp_spawn_negative m asked d n has_d low has_l)
            (registered_fault m k (make_consumer m k (negsuc n) w b) (no_consumer m k n w b high))
      | inr (c, e) ↦
          rw (spawn_consumer_duplicate m k asked w b {c = c} e) (refl, (consumer_exists k, refl))
    ]
