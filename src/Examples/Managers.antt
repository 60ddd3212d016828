-- ===== src/Examples/Managers.antt =====
-- The theorems on the registry at a manager with one tenant.
use multi_tenant_messaging.Manager.Histories.{
  Call, spawns, updates, stops, Call, spawns, updates, stops,
}
use multi_tenant_messaging.Base.{List, ◌≡◌, ◌∷◌, [], refl, false, ◌⊎◌, arith}
use multi_tenant_messaging.Manager.{get_consumer, spawn_consumer}
use multi_tenant_messaging.Base.Assoc.{lookup, insert, delete}
use multi_tenant_messaging.Examples.{
  one_tenant, willing, idle_broker, consumer, one_tenant-IsRegistry, tired,
}
use multi_tenant_messaging.Base.Int.{pos}
use multi_tenant_messaging.Manager.Spawn.{spawn_consumer_duplicate}
use multi_tenant_messaging.Amqp.{err, consumer_exists, Answers}
use multi_tenant_messaging.Manager.Shared.{
  Shared, nothing_yet, store, SharedReach, resized_consumer, then_step, at_start, registers, takes,
  resizes_late,
}
use multi_tenant_messaging.Manager.Interleavings.{holders, IsOpen, no_double_close}
use multi_tenant_messaging.Manager.Counts.{Replays, counts}
use multi_tenant_messaging.Manager.Replay.{calls_told, calls-Replays}

spawn_consumer_duplicate_example :
    spawn_consumer one_tenant "aaa" (pos 2) willing idle_broker
    ≡ (one_tenant, err (consumer_exists "aaa"), idle_broker)
unfolding get_consumer lookup
spawn_consumer_duplicate_example =
    spawn_consumer_duplicate one_tenant "aaa" (pos 2) willing idle_broker {c = consumer} refl

abbrev day : List Call
day = spawns "b" (pos 2) ∷ updates "aaa" (pos 9) ∷ stops "aaa" 0 ∷ []

abbrev start_empty : Shared
start_empty = nothing_yet (λ p. consumer)

abbrev one_made : Shared
one_made = record {
  heap = store 0 consumer (λ p. consumer);
  made = 1;
  consumers = ("aaa", 0) ∷ [];
  pending = [];
  crashed = false;
}

abbrev taken_out : Shared
taken_out = record one_made { consumers = []; pending = 0 ∷ [] }

abbrev resized_late : Shared
resized_late = record taken_out {
  heap = store 0 (resized_consumer (pos 9) (taken_out.heap 0)) taken_out.heap;
}

-- A consumer that is resized after `StopConsumer` has taken it out of the map.
late_run : SharedReach start_empty resized_late
unfolding insert delete lookup
late_run =
    then_step
      (then_step
        (then_step (at_start start_empty) (registers "aaa" consumer start_empty refl refl refl))
        (takes "aaa" 0 one_made refl))
      (resizes_late 0 (pos 9) taken_out (omega arith))

no_double_close_example :
    (resized_late.crashed ≡ false)
    × ((holders 0 resized_late ≡ 0) ⊎ ((holders 0 resized_late ≡ 1) × IsOpen (resized_late.heap 0)))
no_double_close_example = no_double_close {heap = λ p. consumer} {s = resized_late} 0 late_run

abbrev few_calls : List (Answers × Call)
few_calls =
    (willing, spawns "b" (pos 2))
    ∷ (tired, spawns "c" (pos 2))
    ∷ (willing, updates "aaa" (pos 70))
    ∷ (willing, stops "b" 0)
    ∷ []

calls-Replays_example :
    let (after, told) = calls_told few_calls (one_tenant, idle_broker) in
    Replays 3 50 (counts one_tenant) few_calls told (counts after.0)
calls-Replays_example =
    calls-Replays 3 50 (omega arith) (omega arith) (omega arith) few_calls (one_tenant, idle_broker)
      (refl, refl) one_tenant-IsRegistry
