-- ===== src/Integrity/Routes.antt =====
-- The constraints of the tables and of the registry, under the routes and handlers that change them.
use multi_tenant_messaging.Amqp.{Answers, Broker, Result, ok, err}
use multi_tenant_messaging.Base.{String, ℕ, Option, some, if_elim, Option-cases, inl, inr}
use multi_tenant_messaging.Db.{Db, UuidFormat}
use multi_tenant_messaging.Routes.{
  System, after_create, after_delete, after_update, resized, spawned, stopped,
}
use multi_tenant_messaging.Auth.{AuthAnswer, User, Bcrypt, RegisterRequest, granted, denied}
use multi_tenant_messaging.Base.Int.{ℤ}
use multi_tenant_messaging.Http.Request.{Moment}
use multi_tenant_messaging.Integrity.Database.{
  IsDatabase, register-IsDatabase, create_message-IsDatabase,
}
use multi_tenant_messaging.Manager.{Manager, TenantConsumer}
use multi_tenant_messaging.Tenants.{Answer, TenantResponse, bad, good}
use multi_tenant_messaging.Handlers.Accounts.{register_handler, registered_or}
use multi_tenant_messaging.Handlers.Messages.{create_message_handler, message_created_or}
use multi_tenant_messaging.Manager.Bounds.{IsConfigured}
use multi_tenant_messaging.Messages.{MessageResponse, CreateMessageRequest}
use multi_tenant_messaging.Manager.Registry.{IsRegistry}
use multi_tenant_messaging.Manager.Histories.{
  stop_consumer-kept, spawn_consumer-IsConfigured, update_concurrency-IsConfigured,
}
use multi_tenant_messaging.Manager.Spawn.{spawn_consumer-IsRegistry, update_concurrency-IsRegistry}
use mathlib.Core.Option.{none}
use multi_tenant_messaging.Http.{Response}

pub record IsSound (s : System) : Type 0 where
  pub database : IsDatabase s.db
  pub configured : IsConfigured s.manager
  pub registry : IsRegistry s.manager

pub with_db : (s : System) (db : Db) → IsSound s → IsDatabase db → IsSound (record s { db = db })
with_db s db v w = record { database = w; configured = v.configured; registry = v.registry }

with_manager :
    (s : System) (m : Manager) (b : Broker)
    → IsSound s
    → IsRegistry m
    → IsConfigured m
    → IsSound (record s { manager = m; broker = b })
with_manager s m b v reg conf = record { database = v.database; configured = conf; registry = reg }

pub spawned-IsSound :
    (s : System) (t : TenantResponse) (out : Manager × Result (Unit {0}) × Broker)
    → IsSound s
    → IsRegistry out.0
    → IsConfigured out.0
    → IsSound (spawned s t out).0
spawned-IsSound s t (m, ok _, b) v reg conf = with_manager s m b v reg conf
spawned-IsSound s t (m, err e, b) v reg conf = with_manager s m b v reg conf

pub after_create-IsSound :
    (w : Answers) (s : System) (out : Db × Answer TenantResponse)
    → IsSound s
    → IsDatabase out.0
    → IsSound (after_create w s out).0
after_create-IsSound w s (db, bad e) v d = with_db s db v d
after_create-IsSound w s (db, good t) v d =
    spawned-IsSound (record s { db = db }) t _ (with_db s db v d)
      (spawn_consumer-IsRegistry s.manager t.id t.workers w s.broker v.configured v.registry)
      (spawn_consumer-IsConfigured s.manager v.configured t.id t.workers w s.broker)

pub stopped-IsSound :
    (s : System) (out : Manager × Result TenantConsumer)
    → IsSound s
    → IsRegistry out.0 × IsConfigured out.0
    → IsSound (stopped s out).0
stopped-IsSound s (m, ok c) v (reg, conf) = with_manager s m s.broker v reg conf
stopped-IsSound s (m, err e) v (reg, conf) = with_manager s m s.broker v reg conf

pub after_delete-IsSound :
    (taken : ℕ) (id : String) (s : System) (out : Db × Answer (Unit {0}))
    → IsSound s
    → IsDatabase out.0
    → IsSound (after_delete taken id s out).0
after_delete-IsSound taken id s (db, bad e) v d = with_db s db v d
after_delete-IsSound taken id s (db, good _) v d =
    stopped-IsSound (record s { db = db }) _ (with_db s db v d)
      (stop_consumer-kept s.manager v.configured taken id v.registry)

pub resized-IsSound :
    (s : System) (t : TenantResponse) (out : Manager × Result (Unit {0}))
    → IsSound s
    → IsRegistry out.0
    → IsConfigured out.0
    → IsSound (resized s t out).0
resized-IsSound s t (m, ok _) v reg conf = with_manager s m s.broker v reg conf
resized-IsSound s t (m, err e) v reg conf = with_manager s m s.broker v reg conf

pub after_update-IsSound :
    (id : String) (n : ℤ) (s : System) (out : Db × Answer TenantResponse)
    → IsSound s
    → IsDatabase out.0
    → IsSound (after_update id n s out).0
after_update-IsSound id n s (db, bad e) v d = with_db s db v d
after_update-IsSound id n s (db, good t) v d =
    resized-IsSound (record s { db = db }) t _ (with_db s db v d)
      (update_concurrency-IsRegistry s.manager id n v.configured v.registry)
      (update_concurrency-IsConfigured s.manager v.configured id n)

message_created-IsDatabase :
    (out : Db × Answer MessageResponse) → IsDatabase out.0 → IsDatabase (message_created_or out).0
message_created-IsDatabase (db, good m) d = d
message_created-IsDatabase (db, bad e) d = d

registered-IsDatabase :
    (out : Db × AuthAnswer User) → IsDatabase out.0 → IsDatabase (registered_or out).0
registered-IsDatabase (db, granted user) d = d
registered-IsDatabase (db, denied e) d = d

module _ (u : UuidFormat) (x : Moment) (db : Db) (d : IsDatabase db) where
  pub create_message_handler-IsDatabase :
      (body : Option CreateMessageRequest) → IsDatabase (create_message_handler u x body db).0
  unfolding create_message_handler
  create_message_handler-IsDatabase none = d
  create_message_handler-IsDatabase (some req) =
      if_elim (λ (out : Db × Response). IsDatabase out.0) (u.parse req.tenant_id)
        (λ _. elim (Option-cases req.payload) [
          | inl e ↦ rw e d
          | inr (p, e) ↦ rw e (
              message_created-IsDatabase _
                (create_message-IsDatabase u db d x.outcome x.new_id x.now req.tenant_id p))
        ])
        (λ _. d)

  pub register_handler-IsDatabase :
      (h : Bcrypt) (body : Option RegisterRequest) → IsDatabase (register_handler u h x body db).0
  unfolding register_handler
  register_handler-IsDatabase h none = d
  register_handler-IsDatabase h (some req) =
      registered-IsDatabase _
        (register-IsDatabase u db d h x.served x.outcome x.salt x.new_id x.now req)
