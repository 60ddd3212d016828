-- ===== src/Manager/Histories.antt =====
-- Histories of calls of the manager, one at a time.
use multi_tenant_messaging.Base.{ℕ, List, String, ◌∷◌, [], Option-cases, inl, inr, subst, sym}
use multi_tenant_messaging.Amqp.{Answers, Broker, err, ok, Result}
use multi_tenant_messaging.Manager.{
  Manager, TenantConsumer, get_consumer, shutdown_all, stop_consumer, spawn_consumer,
  update_concurrency,
}
use multi_tenant_messaging.Base.Assoc.{lookup, delete-HasDistinctKeys, delete-AllEntries}
use multi_tenant_messaging.Base.Int.{ℤ}
use multi_tenant_messaging.Manager.Registry.{IsRegistry, IsActive}
use multi_tenant_messaging.Manager.Bounds.{IsConfigured}
use mathlib.Core.List.{[]}
use multi_tenant_messaging.Manager.Spawn.{
  spawn_consumer-IsRegistry, Spawned, update_concurrency-IsRegistry, spawn_consumer_new,
  update_missing, spawn_consumer_duplicate, update_found,
}
use multi_tenant_messaging.Manager.Lifecycle.{stop_missing, stop_found}

-- One call on the manager, with the broker's answers.
pub data Call : Type 0 where
  spawns updates : String → ℤ → Call
  stops : String → ℕ → Call
  shuts_down : (String → ℕ) → Call

pub step : Answers → Manager × Broker → Call → Manager × Broker
step w (m, b) (spawns k asked) = let (m', r, after) = spawn_consumer m k asked w b in (m', after)
step w (m, b) (updates k asked) = ((update_concurrency m k asked).0, b)
step w (m, b) (stops k taken) = ((stop_consumer taken m k).0, b)
step w (m, b) (shuts_down taken) = ((shutdown_all taken m).0, b)

pub run : Answers → Manager × Broker → List Call → Manager × Broker
run w s [] = s
run w s (c ∷ cs) = run w (step w s c) cs

-- Only the map of consumers changes.
pub keeps_config :
    {m : Manager} (cs : List (String × TenantConsumer))
    → IsConfigured m
    → IsConfigured (record m { consumers = cs })
keeps_config cs v = record {
  default = v.default;
  limit = v.limit;
  has_default = v.has_default;
  has_limit = v.has_limit;
  default_low = v.default_low;
  limit_low = v.limit_low;
  limit_high = v.limit_high;
}

Spawned-IsConfigured :
    (m : Manager) (k : String) (n : ℕ) (b : Broker) (out : Manager × Result (Unit {0}) × Broker)
    → Spawned m k n b out
    → IsConfigured m
    → IsConfigured out.0
Spawned-IsConfigured m k n b (m', err e, after) (same, _) v = subst IsConfigured (sym same) v
Spawned-IsConfigured m k n b (m', ok _, after) (c, new, made) v =
    subst IsConfigured (sym new) (keeps_config _ v)

module _ (m : Manager) (v : IsConfigured m) where
  pub spawn_consumer-IsConfigured :
      (k : String) (asked : ℤ) (w : Answers) (b : Broker)
      → IsConfigured (spawn_consumer m k asked w b).0
  unfolding get_consumer
  spawn_consumer-IsConfigured k asked w b = elim (Option-cases (lookup k m.consumers)) [
    | inl absent ↦ Spawned-IsConfigured m k _ b _ (spawn_consumer_new m k asked w b v absent) v
    | inr (c, e) ↦ rw (spawn_consumer_duplicate m k asked w b {c = c} e) v
  ]

  pub update_concurrency-IsConfigured :
      (k : String) (asked : ℤ) → IsConfigured (update_concurrency m k asked).0
  update_concurrency-IsConfigured k asked = elim (Option-cases (lookup k m.consumers)) [
    | inl absent ↦ rw (update_missing m k asked absent) v
    | inr (c, e) ↦ rw (update_found m k asked c e) (keeps_config _ v)
  ]

  pub stop_consumer-kept :
      (taken : ℕ) (k : String)
      → IsRegistry m
      → IsRegistry (stop_consumer taken m k).0 × IsConfigured (stop_consumer taken m k).0
  stop_consumer-kept taken k reg = elim (Option-cases (lookup k m.consumers)) [
    | inl absent ↦ rw (stop_missing taken m k absent) (reg, v)
    | inr (c, e) ↦ rw (stop_found taken m k c e) (
      record {
        distinct = delete-HasDistinctKeys k m.consumers reg.distinct;
        active = delete-AllEntries IsActive k m.consumers reg.active;
      },
      keeps_config _ v,
    )
  ]

step-kept :
    (w : Answers) (s : Manager × Broker) (c : Call)
    → IsConfigured s.0
    → IsRegistry s.0
    → IsRegistry (step w s c).0 × IsConfigured (step w s c).0
unfolding step shutdown_all
step-kept w (m, b) (spawns k asked) v reg =
    (spawn_consumer-IsRegistry m k asked w b v reg, spawn_consumer-IsConfigured m v k asked w b)
step-kept w (m, b) (updates k asked) v reg =
    (update_concurrency-IsRegistry m k asked v reg, update_concurrency-IsConfigured m v k asked)
step-kept w (m, b) (stops k taken) v reg = stop_consumer-kept m v taken k reg
step-kept w (m, b) (shuts_down taken) v reg =
    (record { distinct = tt; active = tt }, keeps_config _ v)

-- Any history of calls, one at a time, from a manager with a valid configuration in whose registry every
-- tenant stands once, with one running consumer of its own whose pool has a valid size, ends in such a
-- manager.
pub run-IsRegistry :
    (w : Answers) (s : Manager × Broker) (cs : List Call)
    → IsConfigured s.0
    → IsRegistry s.0
    → IsRegistry (run w s cs).0 × IsConfigured (run w s cs).0
unfolding run
run-IsRegistry w s [] v reg = (reg, v)
run-IsRegistry w s (c ∷ cs) v reg =
    let (kept, config) = step-kept w s c v reg in run-IsRegistry w (step w s c) cs config kept
