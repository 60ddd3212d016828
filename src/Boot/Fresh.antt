-- ===== src/Boot/Fresh.antt =====
-- What `main` has before the first request.
use multi_tenant_messaging.Base.{◌≡◌, refl, subst, if_elim, not}
use multi_tenant_messaging.Boot.{
  Surroundings, boot, Boot, Running, running, with_config, fresh_system, with_connection, fatal,
}
use multi_tenant_messaging.Config.{Config, Loaded, not_loaded, loaded, load}
use multi_tenant_messaging.Db.{Db}
use multi_tenant_messaging.Amqp.{Broker}
use multi_tenant_messaging.Connection.{
  Connection, Call, returned, call_failed, blocked, connect, panics, new_connection, Dial,
  connected,
}

-- What a boot that succeeds works on.
abbrev IsFresh : Surroundings → Db → Broker → Boot → Type 0
IsFresh o db b (running r) =
    (load o.parse_duration o.env ≡ loaded r.config)
    × (r.system ≡ fresh_system r.config db b)
    × (r.connection ≡ connected new_connection)
IsFresh o db b (fatal e) = Unit

abbrev IsLinked : Connection × Call (Unit {0}) → Type 0
IsLinked (c, returned _) = c ≡ connected new_connection
IsLinked (c, _) = Unit

connect-IsLinked : (d : Dial) → IsLinked (connect d new_connection)
unfolding connect new_connection
connect-IsLinked d =
    if_elim IsLinked (not d.dials) (λ _. tt)
      (λ _. if_elim IsLinked (not d.opens) (λ _. tt) (λ _. refl))

with_connection-IsFresh :
    (o : Surroundings) (cfg : Config) (db : Db) (b : Broker) (out : Connection × Call (Unit {0}))
    → load o.parse_duration o.env ≡ loaded cfg
    → IsLinked out
    → IsFresh o db b (with_connection cfg db b out)
with_connection-IsFresh o cfg db b (c, returned _) e linked = (e, refl, linked)
with_connection-IsFresh o cfg db b (c, call_failed x) e linked = tt
with_connection-IsFresh o cfg db b (c, blocked) e linked = tt
with_connection-IsFresh o cfg db b (c, panics) e linked = tt

with_config-IsFresh :
    (o : Surroundings) (db : Db) (b : Broker) (l : Loaded)
    → load o.parse_duration o.env ≡ l
    → IsFresh o db b (with_config o db b l)
with_config-IsFresh o db b (not_loaded x) e = tt
with_config-IsFresh o db b (loaded cfg) e =
    if_elim (IsFresh o db b) (not o.opens_database) (λ _. tt)
      (λ _.
        if_elim (IsFresh o db b) (not o.pings) (λ _. tt)
          (λ _.
            if_elim (IsFresh o db b) (not o.migrates) (λ _. tt)
              (λ _.
                with_connection-IsFresh o cfg db b (connect o.dial new_connection) e
                  (connect-IsLinked o.dial))))

-- A boot that succeeds has read its configuration, and starts on the tables with no consumer and
-- with the first connection.
pub boot_lem :
    (o : Surroundings) (db : Db) (b : Broker) {r : Running}
    → boot o db b ≡ running r
    → (load o.parse_duration o.env ≡ loaded r.config)
      × (r.system ≡ fresh_system r.config db b)
      × (r.connection ≡ connected new_connection)
unfolding boot
boot_lem o db b {r} e =
    subst (IsFresh o db b) e (with_config-IsFresh o db b (load o.parse_duration o.env) refl)
