-- ===== src/Routes.antt =====
-- internal/routes/tenant.go: the routes that change a tenant's row and its consumer, one after the
-- other.
pub mod Consistency
pub mod Deletion
pub mod Steps
pub mod Race
use multi_tenant_messaging.Base.{ℕ, String, Option, none, some}
use multi_tenant_messaging.Amqp.{Answers, Broker, Result, ok, err}
use multi_tenant_messaging.Db.{Db, UuidFormat, Outcome}
use multi_tenant_messaging.Manager.{
  Manager, TenantConsumer, spawn_consumer, stop_consumer, update_concurrency,
}
use multi_tenant_messaging.Base.Int.{ℤ}
use multi_tenant_messaging.Tenants.{
  Answer, TenantResponse, bad, delete_tenant, CreateTenantRequest, good, create_tenant,
  update_tenant_concurrency,
}
use multi_tenant_messaging.Http.{
  Response, answer, bad_request_400, created_201, internal_error_500, no_content_204, not_found_404,
  ok_200, empty_body, error_text, service_failed, tenant_body, manager_failure,
}

pub record System : Type 0 where
  pub db : Db
  pub manager : Manager
  pub broker : Broker

abbrev pub spawned :
    System → TenantResponse → Manager × Result (Unit {0}) × Broker → System × Response
spawned s t (m, ok _, b) =
    (record s { manager = m; broker = b }, answer created_201 (tenant_body t))
spawned s t (m, err e, b) =
    (record s { manager = m; broker = b }, manager_failure "failed to spawn consumer: " e)

abbrev pub after_create : Answers → System → Db × Answer TenantResponse → System × Response
after_create w s (db, bad e) = (record s { db = db }, answer internal_error_500 (service_failed e))
after_create w s (db, good t) =
    spawned (record s { db = db }) t (spawn_consumer s.manager t.id t.workers w s.broker)

-- `createTenant`; a body that does not parse is `none`.
unfoldable pub create_tenant_route :
    UuidFormat → Outcome → ℕ → ℕ → Answers → Option CreateTenantRequest → System → System × Response
create_tenant_route u o i now w body s = elim body [
  | none ↦ (s, answer bad_request_400 (error_text "invalid request body"))
  | some req ↦ after_create w s (create_tenant u o i now req s.db)
]

abbrev pub stopped : System → Manager × Result TenantConsumer → System × Response
stopped s (m, ok c) = (record s { manager = m }, answer no_content_204 empty_body)
stopped s (m, err e) = (record s { manager = m }, manager_failure "failed to stop consumer: " e)

abbrev pub after_delete : ℕ → String → System → Db × Answer (Unit {0}) → System × Response
after_delete taken id s (db, bad e) =
    (record s { db = db }, answer not_found_404 (error_text "tenant not found"))
after_delete taken id s (db, good _) =
    stopped (record s { db = db }) (stop_consumer taken s.manager id)

-- `deleteTenant`
unfoldable pub delete_tenant_route : UuidFormat → Outcome → ℕ → String → System → System × Response
delete_tenant_route u o taken id s = after_delete taken id s (delete_tenant u o id s.db)

abbrev pub resized : System → TenantResponse → Manager × Result (Unit {0}) → System × Response
resized s t (m, ok _) = (record s { manager = m }, answer ok_200 (tenant_body t))
resized s t (m, err e) =
    (record s { manager = m }, manager_failure "failed to update concurrency: " e)

abbrev pub after_update : String → ℤ → System → Db × Answer TenantResponse → System × Response
after_update id n s (db, bad e) = (record s { db = db }, answer not_found_404 (service_failed e))
after_update id n s (db, good t) =
    resized (record s { db = db }) t (update_concurrency s.manager id n)

-- `updateConcurrency`; the body's `workers` is 0 where it is missing.
unfoldable pub update_concurrency_route :
    UuidFormat → Outcome → ℕ → String → Option ℤ → System → System × Response
update_concurrency_route u o now id body s = elim body [
  | none ↦ (s, answer bad_request_400 (error_text "invalid request body"))
  | some n ↦ after_update id n s (update_tenant_concurrency u o now id n s.db)
]
