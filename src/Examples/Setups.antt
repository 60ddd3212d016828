-- ===== src/Examples/Setups.antt =====
-- The theorems on the configuration and on starting, at a small environment.
use multi_tenant_messaging.Base.{String, Option, if◌then◌else◌, true, str_eq, some, none, ◌≡◌, refl}
use multi_tenant_messaging.Boot.{Running, Surroundings, boot, fresh_system}
use multi_tenant_messaging.Config.{Config, load, config_of, get_env, get_env_as_int}
use multi_tenant_messaging.Connection.{connected, new_connection, connect}
use multi_tenant_messaging.Base.Int.{pos, ℤ}
use multi_tenant_messaging.Manager.{get_consumer}
use multi_tenant_messaging.Tenants.{find_tenant, remove_tenant, set_concurrency}
use multi_tenant_messaging.Examples.{shop_db, idle_broker, unary_ids, shop}
use multi_tenant_messaging.Routes.{delete_tenant_route, update_concurrency_route}
use multi_tenant_messaging.Db.{applied}
use multi_tenant_messaging.Http.{internal_error_500}
use multi_tenant_messaging.Boot.Restart.{restart_breaks_routes}

abbrev one_day : String → Option ℤ
one_day s = if str_eq s "24h" then some (pos 86_400_000_000_000) else none

abbrev pub fine_env : String → String
fine_env k = if str_eq k "JWT_SECRET" then "s" else ""

abbrev pub fine_config : Config
fine_config = config_of fine_env "s" (pos 86_400_000_000_000)

abbrev pub surroundings : Surroundings
surroundings = record {
  env = fine_env;
  parse_duration = one_day;
  opens_database = true;
  pings = true;
  migrates = true;
  dial = record { dials = true; opens = true };
}

abbrev pub started : Running
started = record {
  config = fine_config;
  connection = connected new_connection;
  held = some 0;
  system = fresh_system fine_config shop_db idle_broker;
}

restart_breaks_routes_example :
    let deletes = delete_tenant_route unary_ids applied 0 "aaa" started.system in
    let updates =
      update_concurrency_route unary_ids applied 8 "aaa" (some (pos 9)) started.system in
    (get_consumer started.system.manager "aaa" ≡ none)
    × (deletes.1.status ≡ internal_error_500)
    × (deletes.0.db ≡ remove_tenant 2 shop_db)
    × (updates.1.status ≡ internal_error_500)
    × (updates.0.db ≡ set_concurrency (pos 9) 8 2 shop_db)
unfolding boot load get_env get_env_as_int connect new_connection find_tenant
restart_breaks_routes_example =
    restart_breaks_routes unary_ids surroundings shop_db idle_broker 0 8 "aaa" (pos 9) {r = started}
      {i = 2} {row = shop} refl refl refl refl
