-- ===== src/Boot/Process.antt =====
-- `main` of cmd/api/main.go as a whole: the start, what happens until a signal, and the end.
use multi_tenant_messaging.Boot.{
  Fatal, Running, Surroundings, Boot, boot, fatal, running, shut_down,
}
use multi_tenant_messaging.Config.{Config}
use multi_tenant_messaging.Http.Request.{Moment, Request}
use multi_tenant_messaging.Router.{Server, serve}
use multi_tenant_messaging.Base.{List, Option, String, Bool, if◌then◌else◌, ◌∷◌, str_eq, ℕ}
use multi_tenant_messaging.Db.{Db}
use multi_tenant_messaging.Routes.{System}
use multi_tenant_messaging.Amqp.{Broker, Answers}
use multi_tenant_messaging.Manager.{TenantConsumer}
use multi_tenant_messaging.Pool.{Select, WorkItem}
use multi_tenant_messaging.Connection.{Call}
use multi_tenant_messaging.Json.{JsonText}
use multi_tenant_messaging.Delivery.Registry.{deliver}
use multi_tenant_messaging.Retry.{Attempt, Burial, WorkError, handle_message, move_to_dead_letter}
use mathlib.Core.List.{[]}
use multi_tenant_messaging.Routes.Steps.{Statement, begin, quiet, Pending, finish}

-- What happens to the application: a whole request; the SQL statement of a request that changes a tenant, or its call of
-- the manager, between which others may come; a message that a tenant's consumer is given; an attempt of a
-- worker at an item, or an item that it moves to the dead letters.
pub data Happening : Type 0 where
  requested : Moment → Request → Happening
  began : Statement → Happening
  finished : Answers → ℕ → Pending → Happening
  consumed : Select → Bool → String → JsonText → Happening
  attempted : WorkItem → Attempt → Happening
  buried : WorkItem → WorkError → Burial → Happening

unfoldable pub happen : Server → Happening → System → System
happen v (requested x req) s = (serve v x req s).0
happen v (began a) s = (begin v.uuid a (quiet s)).system
happen v (finished w taken p) s = (finish w taken p s).0
happen v (consumed choice ack_works k body) s = record s {
  manager = deliver choice ack_works k body s.manager;
}
happen v (attempted item a) s = record s { db = (handle_message v.uuid item a s.db).0 }
happen v (buried item x b) s = record s { db = move_to_dead_letter v.uuid item x b s.db }

unfoldable pub happen_all : Server → List Happening → System → System
happen_all v [] s = s
happen_all v (h ∷ hs) s = happen_all v hs (happen v h s)

-- How the process ends: before it serves, where the port is not to be had, or at a signal, with the consumers that
-- were stopped (`none` is a panic) and what the deferred `Close` of the connection gives.
pub data Exit : Type 0 where
  not_started : Fatal → Exit
  not_listening : Exit
  signalled : Running → Option (List TenantConsumer) → Call (Unit {0}) → Exit

-- The port of `app.Listen`.
abbrev pub port_of : Config → String
port_of cfg = if str_eq cfg.app.port "" then "8080" else cfg.app.port

-- The application, with the secret of the configuration for the tokens it signs and checks.
abbrev pub application : Server → Config → Server
application v cfg = record v { secret = cfg.jwt.secret }

abbrev pub at_signal : Running × Option (List TenantConsumer) × Call (Unit {0}) → Exit
at_signal (r, retired, closed) = signalled r retired closed

-- `listens` is whether a port is free. `log.Fatalf` of the goroutine that listens ends the process at once.
abbrev pub serve_until :
    Server → (String → Bool) → List Happening → (String → ℕ) → List (Moment × Request) → Boot → Exit
serve_until v listens hs taken late (fatal e) = not_started e
serve_until v listens hs taken late (running r) =
    let app = application v r.config in
    if listens (port_of r.config)
    then at_signal (shut_down app taken late (record r { system = happen_all app hs r.system }))
    else not_listening

-- `main`
unfoldable pub main_process :
    Surroundings
    → Server
    → Db
    → Broker
    → (String → Bool)
    → List Happening
    → (String → ℕ)
    → List (Moment × Request)
    → Exit
main_process o v db b listens hs taken late = serve_until v listens hs taken late (boot o db b)
