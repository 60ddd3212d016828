-- ===== src/Boot.antt =====
-- cmd/api/main.go: what `main` does before it serves requests, and at a signal.
pub mod Fresh
pub mod Lost
pub mod Process
pub mod Restart
pub mod Shutdown
use multi_tenant_messaging.Base.{[], ◌∷◌, ℕ, String, Option, List, Bool, if◌then◌else◌, not}
use multi_tenant_messaging.Config.{
  Config, ConfigError, Env, Loaded, load, manager_of, not_loaded, loaded,
}
use multi_tenant_messaging.Db.{Db}
use multi_tenant_messaging.Amqp.{Broker}
use multi_tenant_messaging.Connection.{
  ConnError, Connection, Call, returned, Dial, call_failed, blocked, close_connection, panics,
  connect, new_connection,
}
use multi_tenant_messaging.Base.Int.{ℤ}
use multi_tenant_messaging.Routes.{System}
use multi_tenant_messaging.Manager.{TenantConsumer, shutdown_all}
use multi_tenant_messaging.Router.{Server, serve}
use multi_tenant_messaging.Http.Request.{Moment, Request}

-- What `main` exits with.
pub data Fatal : Type 0 where
  no_configuration : ConfigError → Fatal
  no_database no_ping no_migrations : Fatal
  no_rabbit_mq : ConnError → Fatal
  stuck_rabbit_mq : Fatal

-- The answers of the outside: the environment, `time.ParseDuration`, whether the driver opens, the ping
-- and the migrations succeed, and the broker.
pub record Surroundings : Type 0 where
  pub env : Env
  pub parse_duration : String → Option ℤ
  pub opens_database : Bool
  pub pings : Bool
  pub migrates : Bool
  pub dial : Dial

-- What is there once the routes are registered: the wrapper, the connection that the manager holds, and
-- the system that the requests work on.
pub record Running : Type 0 where
  pub config : Config
  pub connection : Connection
  pub held : Option ℕ
  pub system : System

pub data Boot : Type 0 where
  running : Running → Boot
  fatal : Fatal → Boot

abbrev pub fresh_system : Config → Db → Broker → System
fresh_system cfg db b = record { db = db; manager = manager_of cfg; broker = b }

-- From `Connect` on.
abbrev pub with_connection : Config → Db → Broker → Connection × Call (Unit {0}) → Boot
with_connection cfg db b (c, returned _) =
    running (record { config = cfg; connection = c; held = c.conn; system = fresh_system cfg db b })
with_connection cfg db b (c, call_failed e) = fatal (no_rabbit_mq e)
with_connection cfg db b (c, blocked) = fatal stuck_rabbit_mq
with_connection cfg db b (c, panics) = fatal stuck_rabbit_mq

abbrev pub with_config : Surroundings → Db → Broker → Loaded → Boot
with_config o db b (not_loaded e) = fatal (no_configuration e)
with_config o db b (loaded cfg) =
    if not o.opens_database
    then fatal no_database
    else if not o.pings
    then fatal no_ping
    else if not o.migrates
    then fatal no_migrations
    else with_connection cfg db b (connect o.dial new_connection)

-- `main` up to `app.Listen`, over the tables that are there.
unfoldable pub boot : Surroundings → Db → Broker → Boot
boot o db b = with_config o db b (load o.parse_duration o.env)

abbrev pub serve_all : Server → List (Moment × Request) → System → System
serve_all v [] s = s
serve_all v ((x, req) ∷ rest) s = serve_all v rest (serve v x req s).0

-- The end of `main`: `ShutdownAll`; the requests that still come in, as the server listens until
-- `app.Shutdown`, which is called after it; and the deferred `Close`. `none` is a panic of a consumer.
unfoldable pub shut_down :
    Server
    → (String → ℕ)
    → List (Moment × Request)
    → Running
    → Running × Option (List TenantConsumer) × Call (Unit {0})
shut_down v taken late r =
    let (m, retired) = shutdown_all taken r.system.manager in
    let (c, closing') = close_connection r.connection in
    (
      record r { system = serve_all v late (record r.system { manager = m }); connection = c },
      retired,
      closing',
    )
