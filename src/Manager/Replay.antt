-- ===== src/Manager/Replay.antt =====
-- Histories of calls, and the registry as the map from tenants to worker counts: what the answers say is what is there.
use multi_tenant_messaging.Base.{
  [], ◌∷◌, Bool, List, String, ℕ, ◌≡◌, is_some, min, ◌<◌, ◌^◌, Option-cases, ap, inl, inr, refl,
  sym, arith, subst,
}
use multi_tenant_messaging.Manager.Lifecycle.{
  stop_missing, stop_consumer_found, stop_found, shutdown_all_retires,
}
use multi_tenant_messaging.Manager.Histories.{
  Call, spawns, updates, stops, shuts_down, stop_consumer-kept,
}
use multi_tenant_messaging.Amqp.{Answers, Result, ok, Broker, err}
use multi_tenant_messaging.Manager.{
  Manager, get_consumer, spawn_consumer, update_concurrency, stop_consumer, shutdown_all,
}
use multi_tenant_messaging.Base.Int.{ℤ, pos}
use mathlib.Core.Option.{none}
use multi_tenant_messaging.Manager.Registry.{IsRegistry, IsActive}
use multi_tenant_messaging.Pool.{get_worker_count, resize}
use multi_tenant_messaging.Manager.Bounds.{wanted, IsConfigured, wanted_bounds, clamp_min}
use multi_tenant_messaging.Manager.Spawn.{
  Spawned, insert-IsRegistry, spawn_consumer_new, spawn_consumer_duplicate,
  update_concurrency-IsRegistry, update_missing, update_found,
}
use multi_tenant_messaging.Base.Assoc.{lookup, lookup-AllEntries}
use multi_tenant_messaging.Pool.Size.{resize_size}
use multi_tenant_messaging.Manager.Counts.{
  Counts, count_of, counts, is_ok, returned_nothing, call_told, counted, Replays, HasLimits, IsStep,
  counts-insert, counts-delete,
}

-- Calls one after the other, each with the broker's answers to it, and what each one told.
pub calls_told : List (Answers × Call) → Manager × Broker → (Manager × Broker) × List Bool
calls_told [] s = (s, [])
calls_told ((w, c) ∷ rest) s =
    let (after, told) = call_told w c s in
    let (last, all) = calls_told rest after in (last, told ∷ all)

module _ (d l : ℕ) (d_low : 0 < d) (l_low : 0 < l) (l_high : l < 2 ^ 31) where
  abbrev configured : (m : Manager) → HasLimits d l m → IsConfigured m
  configured m (has_default, has_limit) = record {
    default = d;
    limit = l;
    has_default = has_default;
    has_limit = has_limit;
    default_low = d_low;
    limit_low = l_low;
    limit_high = l_high;
  }

  Spawned-IsStep :
      (m : Manager) (k : String) (asked : ℤ) (b : Broker)
      (out : Manager × Result (Unit {0}) × Broker)
      → get_consumer m k ≡ none
      → HasLimits d l m
      → IsRegistry m
      → Spawned m k (min l (wanted d asked)) b out
      → IsStep d l (spawns k asked) m out.0 (is_ok out.1)
  unfolding get_consumer
  Spawned-IsStep m k asked b (m', err e, after) absent limits reg (same, _) =
      rw same (tt, λ j. refl, reg, limits)
  Spawned-IsStep m k asked b (m', ok _, after) absent limits reg (c, new, made) =
      rw new (
        ap count_of absent,
        counts-insert m k c _ made.1,
        insert-IsRegistry m k c made.0 reg,
        limits,
      )

  spawn-IsStep :
      (m : Manager) (k : String) (asked : ℤ) (w : Answers) (b : Broker)
      → HasLimits d l m
      → IsRegistry m
      → let (m', r, after) = spawn_consumer m k asked w b in
        IsStep d l (spawns k asked) m m' (is_ok r)
  unfolding get_consumer
  spawn-IsStep m k asked w b limits reg = elim (Option-cases (lookup k m.consumers)) [
    | inl absent ↦
        Spawned-IsStep m k asked b (spawn_consumer m k asked w b) absent limits reg
          (spawn_consumer_new m k asked w b (configured m limits) absent)
    | inr (c, e) ↦
        rw (spawn_consumer_duplicate m k asked w b {c = c} e) (tt, λ j. refl, reg, limits)
  ]

  update-IsStep :
      (m : Manager) (k : String) (asked : ℤ)
      → HasLimits d l m
      → IsRegistry m
      → let (m', r) = update_concurrency m k asked in IsStep d l (updates k asked) m m' (is_ok r)
  unfolding get_consumer get_worker_count
  update-IsStep m k asked limits reg =
      let kept = update_concurrency-IsRegistry m k asked (configured m limits) reg in
      elim (Option-cases (lookup k m.consumers)) [
        | inl absent ↦
            rw (update_missing m k asked absent)
              (ap (λ o. is_some (count_of o)) (sym absent), λ j. refl, reg, limits)
        | inr (c, e) ↦
            let n = min l (wanted 1 asked) in
            let (low, high) = wanted_bounds l 1 asked l_low (omega arith) in
            let active = lookup-AllEntries IsActive k c m.consumers reg.active e in
            let size =
              (resize_size c.worker_pool n active.sized low (omega (arith, l_high, high))).0 in
            let found = update_found m k asked c e in
            let clamped = (clamp_min m asked (configured m limits)).1 in
            rw (found, clamped)
              (
                ap (λ o. is_some (count_of o)) (sym e),
                counts-insert m k (record c { worker_pool = resize c.worker_pool (pos n) }) _ size,
                rw (found, clamped) at kept,
                limits,
              )
      ]

  stop-IsStep :
      (m : Manager) (k : String) (taken : ℕ)
      → HasLimits d l m
      → IsRegistry m
      → let (m', r) = stop_consumer taken m k in IsStep d l (stops k taken) m m' (is_ok r)
  unfolding get_consumer
  stop-IsStep m k taken limits reg =
      let (kept, _) = stop_consumer-kept m (configured m limits) taken k reg in
      elim (Option-cases (lookup k m.consumers)) [
        | inl absent ↦
            rw (stop_missing taken m k absent)
              (ap (λ o. is_some (count_of o)) (sym absent), λ j. refl, reg, limits)
        | inr (c, e) ↦
            let found = stop_found taken m k c e in
            let (dead, told, retired, own, fewer, views) =
              stop_consumer_found taken m k {c = c} reg e in
            rw (found, rw found at told)
              (ap (λ o. is_some (count_of o)) (sym e), counts-delete m k, rw found at kept, limits)
      ]

  shutdown-IsStep :
      (m : Manager) (taken : String → ℕ)
      → HasLimits d l m
      → IsRegistry m
      → let (m', r) = shutdown_all taken m in
        IsStep d l (shuts_down taken) m m' (returned_nothing r)
  unfolding get_consumer shutdown_all lookup
  shutdown-IsStep m taken limits reg =
      let (ds, closed, retired, tenants, empty) = shutdown_all_retires taken m reg in
      rw closed (refl, λ j. refl, record { distinct = tt; active = tt }, limits)

  call-IsStep :
      (w : Answers) (c : Call) (s : Manager × Broker)
      → HasLimits d l s.0
      → IsRegistry s.0
      → IsStep d l c s.0 (call_told w c s).0.0 (call_told w c s).1
  call-IsStep w (spawns k asked) (m, b) limits reg = spawn-IsStep m k asked w b limits reg
  call-IsStep w (updates k asked) (m, b) limits reg = update-IsStep m k asked limits reg
  call-IsStep w (stops k taken) (m, b) limits reg = stop-IsStep m k taken limits reg
  call-IsStep w (shuts_down taken) (m, b) limits reg = shutdown-IsStep m taken limits reg

  -- The registry is a map from tenants to worker counts. After any calls one after the other, from a registry of
  -- running consumers and with a default `d` and a limit `l` from 1 up to 2^31 - 1, the map is what the calls that
  -- returned without an error make of the first one, in their order: a new consumer has `min l (wanted d
  -- asked)` workers, a resized one `min l (wanted 1 asked)`, a stopped one is gone. No second consumer is made for a
  -- tenant; exactly the tenants of the map can be resized and stopped; and all of them are always stopped.
  pub calls-Replays :
      (cs : List (Answers × Call)) (s : Manager × Broker)
      → HasLimits d l s.0
      → IsRegistry s.0
      → let (after, told) = calls_told cs s in Replays d l (counts s.0) cs told (counts after.0)
  unfolding calls_told
  calls-Replays [] s limits reg = refl
  calls-Replays ((w, c) ∷ cs) s limits reg =
      let (may, view, kept, same) = call-IsStep w c s limits reg in
      let (after, told) = call_told w c s in
      let (last, all) = calls_told cs after in
      let path : counts after.0 ≡ counted d l told c (counts s.0) = λ i j. view j i in
      (
        may,
        subst (λ (f : Counts). Replays d l f cs all (counts last.0)) path
            (calls-Replays cs after same kept),
      )
