-- ===== src/Integrity/Run.antt =====
-- The running application: requests, parts of requests, deliveries and attempts of workers, in any order.
use multi_tenant_messaging.Boot.{Surroundings, Running, boot, fresh_system, running}
use multi_tenant_messaging.Config.{Config, manager_of}
use multi_tenant_messaging.Router.{Server}
use multi_tenant_messaging.Base.{List, ◌∷◌, ℕ, ◌≡◌, ◌<◌, ◌^◌, subst, sym}
use multi_tenant_messaging.Db.{Db}
use multi_tenant_messaging.Routes.{System}
use multi_tenant_messaging.Amqp.{Broker}
use multi_tenant_messaging.Integrity.Routes.{IsSound, with_db}
use multi_tenant_messaging.Integrity.Requests.{serve-IsSound}
use multi_tenant_messaging.Delivery.Registry.{deliver-kept}
use multi_tenant_messaging.Integrity.Database.{
  IsDatabase, handle_message-IsDatabase, move_to_dead_letter-IsDatabase,
}
use multi_tenant_messaging.Manager.Bounds.{IsConfigured}
use multi_tenant_messaging.Base.Int.{pos}
use multi_tenant_messaging.Config.Workers.{IsCount, load-IsConfigured}
use multi_tenant_messaging.Manager.Registry.{new_manager-IsRegistry}
use mathlib.Core.List.{[]}
use multi_tenant_messaging.Boot.Fresh.{boot_lem}
use multi_tenant_messaging.Boot.Process.{
  Happening, happen, happen_all, requested, consumed, began, finished, attempted, buried,
}
use multi_tenant_messaging.Integrity.Overlaps.{begin-IsSound, finish-IsSound}
use multi_tenant_messaging.Routes.Steps.{quiet}

happen-IsSound : (v : Server) (h : Happening) (s : System) → IsSound s → IsSound (happen v h s)
unfolding happen
happen-IsSound v (requested x req) s w = serve-IsSound v x req s w
happen-IsSound v (consumed choice works k body) s w =
    let (reg, conf) = deliver-kept choice works k body s.manager w.configured w.registry in
    record { database = w.database; configured = conf; registry = reg }
happen-IsSound v (began a) s w = begin-IsSound v.uuid a (quiet s) w
happen-IsSound v (finished answers taken p) s w = finish-IsSound v.uuid answers taken p s w
happen-IsSound v (attempted item a) s w =
    with_db s _ w (handle_message-IsDatabase v.uuid item s.db w.database a)
happen-IsSound v (buried item x b) s w =
    with_db s _ w (move_to_dead_letter-IsDatabase v.uuid item s.db w.database x b)

happen_all-IsSound :
    (v : Server) (hs : List Happening) (s : System) → IsSound s → IsSound (happen_all v hs s)
unfolding happen_all
happen_all-IsSound v [] s w = w
happen_all-IsSound v (h ∷ hs) s w = happen_all-IsSound v hs (happen v h s) (happen-IsSound v h s w)

-- What `main` starts on, over tables that keep the constraints.
fresh-IsSound :
    (cfg : Config) (db : Db) (b : Broker)
    → IsDatabase db
    → IsConfigured (manager_of cfg)
    → IsSound (fresh_system cfg db b)
fresh-IsSound cfg db b d conf = record {
  database = d;
  configured = conf;
  registry = new_manager-IsRegistry _ _ _ _;
}

-- Wherever the process starts, over tables that keep the constraints and with positive worker variables and
-- a limit below 2^31, and whatever follows in any order - whole requests, statements and manager calls of
-- requests that overlap, deliveries, attempts of workers and dead letters: ids, names and message keys stand
-- once, a tenant's concurrency is from 1 to 50, a user's tenant is in the table or none, and the registry
-- has each tenant once, with one running consumer of its own whose pool has a valid size.
pub boot-IsSound :
    (o : Surroundings) (v : Server) (db : Db) (b : Broker) (d l : ℕ) (hs : List Happening)
    {r : Running}
    → boot o db b ≡ running r
    → IsCount o.env "DEFAULT_WORKERS" (pos 3) d
    → IsCount o.env "MAX_WORKERS" (pos 50) l
    → l < 2 ^ 31
    → IsDatabase db
    → IsSound (happen_all v hs r.system)
boot-IsSound o v db b d l hs {r} e has_d has_l high tables =
    let (config_read, fresh, _) = boot_lem o db b {r = r} e in
    let (conf, _, _) =
      load-IsConfigured o.parse_duration o.env d l {cfg = r.config} config_read has_d has_l high in
    happen_all-IsSound v hs r.system
      (subst IsSound (sym fresh) (fresh-IsSound r.config db b tables conf))
