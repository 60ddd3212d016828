-- ===== src/Examples/Races.antt =====
-- The theorems on overlapping routes, at the creation of one tenant.
use multi_tenant_messaging.Routes.Steps.{quiet, begin, creates, deletes}
use multi_tenant_messaging.Routes.{System, create_tenant_route}
use multi_tenant_messaging.Tenants.{CreateTenantRequest, create_tenant}
use multi_tenant_messaging.Base.Int.{pos, int64}
use multi_tenant_messaging.Examples.{
  running_system, config, unary_ids, config-IsConfigured, willing,
}
use multi_tenant_messaging.Manager.{spawn_consumer, make_consumer, clamp_spawn}
use multi_tenant_messaging.Db.{applied}
use multi_tenant_messaging.Base.Assoc.{lookup}
use multi_tenant_messaging.Base.{[], refl}
use multi_tenant_messaging.Topology.{declare_tenant_queues}
use multi_tenant_messaging.Pool.{new_worker_pool}
use multi_tenant_messaging.Routes.Race.{Overlap, create_delete_orphans}

abbrev bakery : CreateTenantRequest
bakery = record { name = "bakery"; workers = pos 60 }

abbrev idle_system : System
idle_system = record running_system { manager = config }

create_delete_orphans_example :
    let first = begin unary_ids (creates applied 6 10 bakery) (quiet idle_system) in
    Overlap unary_ids 6 willing first (begin unary_ids (deletes applied (unary_ids.print 6)) first)
unfolding create_tenant_route create_tenant spawn_consumer make_consumer lookup clamp_spawn
    declare_tenant_queues new_worker_pool int64
create_delete_orphans_example =
    create_delete_orphans unary_ids applied 6 10 willing bakery idle_system (config-IsConfigured [])
      refl
