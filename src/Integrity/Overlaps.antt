-- ===== src/Integrity/Overlaps.antt =====
-- The constraints of the tables and of the registry, while the routes that change tenants overlap.
use multi_tenant_messaging.Db.{UuidFormat, Db}
use multi_tenant_messaging.Routes.Steps.{
  updates, Pending, Busy, Statement, RouteReach, RouteStep, begin, begins, no_step, creates, finish,
  finishes, one_more, to_spawn, goes_on, deletes, to_stop, to_resize,
}
use multi_tenant_messaging.Amqp.{Answers}
use multi_tenant_messaging.Base.{ℕ}
use multi_tenant_messaging.Integrity.Routes.{
  IsSound, spawned-IsSound, with_db, stopped-IsSound, resized-IsSound,
}
use multi_tenant_messaging.Routes.{System}
use multi_tenant_messaging.Tenants.{Answer, bad, good}
use multi_tenant_messaging.Integrity.Database.{
  IsDatabase, create_tenant-IsDatabase, delete_tenant-IsDatabase, update-IsDatabase,
}
use multi_tenant_messaging.Manager.Spawn.{spawn_consumer-IsRegistry, update_concurrency-IsRegistry}
use multi_tenant_messaging.Manager.Histories.{
  spawn_consumer-IsConfigured, stop_consumer-kept, update_concurrency-IsConfigured,
}

goes_on-IsSound :
    {A : Type 0} (next : A → Pending) (b : Busy) (out : Db × Answer A)
    → IsSound b.system
    → IsDatabase out.0
    → IsSound (goes_on next b out).system
goes_on-IsSound next b (db, bad e) w d = with_db b.system db w d
goes_on-IsSound next b (db, good a) w d = with_db b.system db w d

module _ (u : UuidFormat) where
  pub begin-IsSound : (a : Statement) (b : Busy) → IsSound b.system → IsSound (begin u a b).system
  begin-IsSound (creates o i now req) b w =
      goes_on-IsSound (λ t. to_spawn t) b _ w
        (create_tenant-IsDatabase u b.system.db w.database o i now req)
  begin-IsSound (deletes o id) b w =
      goes_on-IsSound (λ _. to_stop id) b _ w
        (delete_tenant-IsDatabase u b.system.db w.database o id)
  begin-IsSound (updates o now id n) b w =
      goes_on-IsSound (λ t. to_resize id n t) b _ w
        (update-IsDatabase u b.system.db w.database o now id n)

  pub finish-IsSound :
      (w : Answers) (taken : ℕ) (p : Pending) (s : System)
      → IsSound s
      → IsSound (finish w taken p s).0
  finish-IsSound w taken (to_spawn t) s v =
      spawned-IsSound s t _ v
        (spawn_consumer-IsRegistry s.manager t.id t.workers w s.broker v.configured v.registry)
        (spawn_consumer-IsConfigured s.manager v.configured t.id t.workers w s.broker)
  finish-IsSound w taken (to_stop id) s v =
      stopped-IsSound s _ v (stop_consumer-kept s.manager v.configured taken id v.registry)
  finish-IsSound w taken (to_resize id n t) s v =
      resized-IsSound s t _ v (update_concurrency-IsRegistry s.manager id n v.configured v.registry)
        (update_concurrency-IsConfigured s.manager v.configured id n)

  step-IsSound : {a b : Busy} → RouteStep u a b → IsSound a.system → IsSound b.system
  step-IsSound (begins a b) v = begin-IsSound a b v
  step-IsSound (finishes w taken s before after p) v = finish-IsSound w taken p s v

  -- However the creations, deletions and resizings of tenants overlap between their statements and their calls of
  -- the manager, and whichever fail, the tables keep their constraints, and the registry has each of its
  -- tenants once, with one running consumer of its own whose pool has a valid size.
  pub overlaps-IsSound : {a b : Busy} → RouteReach u a b → IsSound a.system → IsSound b.system
  overlaps-IsSound (no_step b) v = v
  overlaps-IsSound (one_more r step) v = step-IsSound step (overlaps-IsSound r v)
