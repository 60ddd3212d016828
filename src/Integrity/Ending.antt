-- ===== src/Integrity/Ending.antt =====
-- How the process ends, from its start on.
use multi_tenant_messaging.Boot.{Surroundings, shut_down, Running, boot, fatal, running, Boot}
use multi_tenant_messaging.Connection.{
  close_connection, new_connection, Connection, connected, Call, returned,
}
use multi_tenant_messaging.Manager.{Manager, TenantConsumer, list_consumers, get_consumer_count}
use multi_tenant_messaging.Router.{Server}
use multi_tenant_messaging.Base.{
  Option, String, List, ℕ, ◌≡◌, Bool, [], refl, some, All, false, str_eq, ◌<◌, ◌^◌, if_elim,
}
use multi_tenant_messaging.Db.{Db}
use multi_tenant_messaging.Amqp.{Broker}
use multi_tenant_messaging.Manager.Registry.{IsRegistry}
use multi_tenant_messaging.Boot.Process.{
  Happening, Exit, not_started, port_of, signalled, happen_all, application, not_listening,
  main_process, serve_until,
}
use multi_tenant_messaging.Manager.Lifecycle.{shutdown_all_retires, IsRetired, tenants_of}
use multi_tenant_messaging.Config.Workers.{IsCount}
use multi_tenant_messaging.Base.Int.{pos}
use multi_tenant_messaging.Integrity.Database.{IsDatabase}
use multi_tenant_messaging.Boot.Fresh.{boot_lem}
use multi_tenant_messaging.Integrity.Run.{boot-IsSound}
use multi_tenant_messaging.Config.Load.{load_secret}

-- Retired are the consumers of the registry, and nothing is left open.
abbrev pub HasEnded : Manager → Running → Option (List TenantConsumer) → Call (Unit {0}) → Type 0
HasEnded m r retired closed =
    ((ds : List TenantConsumer) × (retired ≡ some ds)
      × All IsRetired ds
      × (tenants_of ds ≡ list_consumers m))
    × (get_consumer_count r.system.manager ≡ 0)
    × (closed ≡ returned tt)
    × (r.connection.open_links ≡ [])

-- The ends of the process, by what led to each.
abbrev pub Ended :
    Surroundings → Server → Db → Broker → (String → Bool) → List Happening → Exit → Type 0
Ended o v db b listens hs (not_started e) = boot o db b ≡ fatal e
Ended o v db b listens hs not_listening =
    (r : Running) × (boot o db b ≡ running r) × (listens (port_of r.config) ≡ false)
Ended o v db b listens hs (signalled after retired closed) =
    (r : Running) × (boot o db b ≡ running r)
    × (str_eq r.config.jwt.secret "" ≡ false)
    × HasEnded (happen_all (application v r.config) hs r.system).manager after retired closed

close_first :
    (c : Connection)
    → c ≡ connected new_connection
    → ((close_connection c).1 ≡ returned tt) × ((close_connection c).0.open_links ≡ [])
unfolding close_connection new_connection
close_first c e = rw e (refl, refl)

shut_down-HasEnded :
    (v : Server) (taken : String → ℕ) (r : Running)
    → IsRegistry r.system.manager
    → r.connection ≡ connected new_connection
    → let (after, retired, closed) = shut_down v taken [] r in
      HasEnded r.system.manager after retired closed
unfolding shut_down
shut_down-HasEnded v taken r reg linked =
    let (ds, all, retired, tenants, empty) = shutdown_all_retires taken r.system.manager reg in
    let (closed, links) = close_first r.connection linked in
    ((ds, all, retired, tenants), empty, closed, links)

serve_until-Ended :
    (o : Surroundings) (v : Server) (db : Db) (b : Broker) (listens : String → Bool) (d l : ℕ)
    (hs : List Happening) (taken : String → ℕ) (started : Boot)
    → boot o db b ≡ started
    → IsCount o.env "DEFAULT_WORKERS" (pos 3) d
    → IsCount o.env "MAX_WORKERS" (pos 50) l
    → l < 2 ^ 31
    → IsDatabase db
    → Ended o v db b listens hs (serve_until v listens hs taken [] started)
serve_until-Ended o v db b listens d l hs taken (fatal x) e has_d has_l high tables = e
serve_until-Ended o v db b listens d l hs taken (running r) e has_d has_l high tables =
    let app = application v r.config in
    let (config_read, _, linked) = boot_lem o db b {r = r} e in
    let sound = boot-IsSound o app db b d l hs {r = r} e has_d has_l high tables in
    if_elim (λ (x : Exit). Ended o v db b listens hs x) (listens (port_of r.config))
      (λ _. (
        r,
        e,
        load_secret o.parse_duration o.env {cfg = r.config} config_read,
        shut_down-HasEnded app taken (record r { system = happen_all app hs r.system })
            sound.registry linked,
      ))
      (λ busy. (r, e, busy))

-- With positive worker variables, a limit below 2^31 and tables that keep the constraints, `main` ends in one of
-- three ways, whatever happens before the signal: it does not start; the port is taken; or, with a
-- secret that is not empty, every consumer that is there at the signal is retired, each once and without a
-- panic, none is left, and `Close` closes the connection to the broker. This is where no request comes
-- between `ShutdownAll` and the end of the server, and the connection is the one of the start.
pub main_process-Ended :
    (o : Surroundings) (v : Server) (db : Db) (b : Broker) (listens : String → Bool) (d l : ℕ)
    (hs : List Happening) (taken : String → ℕ)
    → IsCount o.env "DEFAULT_WORKERS" (pos 3) d
    → IsCount o.env "MAX_WORKERS" (pos 50) l
    → l < 2 ^ 31
    → IsDatabase db
    → Ended o v db b listens hs (main_process o v db b listens hs taken [])
unfolding main_process
main_process-Ended o v db b listens d l hs taken has_d has_l high tables =
    serve_until-Ended o v db b listens d l hs taken (boot o db b) refl has_d has_l high tables
