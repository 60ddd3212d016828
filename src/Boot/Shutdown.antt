-- ===== src/Boot/Shutdown.antt =====
-- The end of the process: what is stopped, and what a request that comes late leaves.
use multi_tenant_messaging.Base.{ℕ, String, [], List, ◌≡◌, some, All, refl}
use multi_tenant_messaging.Boot.{shut_down, Running}
use multi_tenant_messaging.Router.{Server}
use multi_tenant_messaging.Http.Request.{Request}
use multi_tenant_messaging.Manager.Registry.{IsRegistry}
use multi_tenant_messaging.Routes.{System}
use multi_tenant_messaging.Manager.{
  shutdown_all, TenantConsumer, list_consumers, get_consumer_count,
}
use multi_tenant_messaging.Manager.Lifecycle.{IsRetired, tenants_of, shutdown_all_retires}

-- At a signal, with no request left and over a registry of running consumers, every consumer is retired, each once
-- and without a panic, the registry is empty, and the tables stay.
pub shut_down_retires :
    (v : Server) (taken : String → ℕ) (r : Running)
    → IsRegistry r.system.manager
    → let (after, retired, closed) = shut_down v taken [] r in
      (ds : List TenantConsumer) × (retired ≡ some ds)
      × All IsRetired ds
      × (tenants_of ds ≡ list_consumers r.system.manager)
      × (get_consumer_count after.system.manager ≡ 0)
      × (after.system.db ≡ r.system.db)
unfolding shut_down
shut_down_retires v taken r reg =
    let (ds, all, retired, tenants, empty) = shutdown_all_retires taken r.system.manager reg in
    (ds, all, retired, tenants, empty, refl)

-- The system between `ShutdownAll` and `app.Shutdown`.
abbrev pub emptied : (String → ℕ) → Running → System
emptied taken r = record r.system { manager = (shutdown_all taken r.system.manager).0 }
