-- ===== src/Handlers/Tenants.antt =====
-- internal/handler/tenant_handler.go: `TenantHandler`. Of its handlers, internal/routes mounts `GetTenant` and
-- `ListTenants`; the other three change the row alone.
use multi_tenant_messaging.Base.{String, List, Option, if◌then◌else◌, none, some, str_eq, ◌||◌}
use multi_tenant_messaging.Db.{Db, UuidFormat}
use multi_tenant_messaging.Tenants.{
  Answer, ServiceError, TenantResponse, good, CreateTenantRequest, delete_tenant, get_tenant,
  list_tenants, bad, create_tenant, no_rows, update_tenant_concurrency,
}
use multi_tenant_messaging.Http.{
  Response, answer, bad_request_400, created_201, no_content_204, not_found_404, ok_200, empty_body,
  error_text, tenant_body, tenants_body, internal_error_500, service_failed,
}
use multi_tenant_messaging.Http.Request.{Moment, Request}
use multi_tenant_messaging.Base.Int.{ℤ, pos, leb_ℤ, ltb_ℤ}

-- An error of the service that is not `sql.ErrNoRows` is told with its text.
pub not_found_or : String → ServiceError → Response
not_found_or text no_rows = answer not_found_404 (error_text text)
not_found_or text e = answer internal_error_500 (service_failed e)

abbrev bad_request : String → Response
bad_request text = answer bad_request_400 (error_text text)

abbrev created_or : Db × Answer TenantResponse → Db × Response
created_or (db, good t) = (db, answer created_201 (tenant_body t))
created_or (db, bad e) = (db, answer internal_error_500 (service_failed e))

-- `CreateTenant`
unfoldable pub create_tenant_handler :
    UuidFormat → Moment → Option CreateTenantRequest → Db → Db × Response
create_tenant_handler u x body db = elim body [
  | none ↦ (db, bad_request "invalid request body")
  | some req ↦
      if str_eq req.name ""
      then (db, bad_request "name is required")
      else created_or (create_tenant u x.outcome x.new_id x.now req db)
]

abbrev deleted_or : Db × Answer (Unit {0}) → Db × Response
deleted_or (db, good _) = (db, answer no_content_204 empty_body)
deleted_or (db, bad e) = (db, not_found_or "tenant not found" e)

-- `DeleteTenant`
unfoldable pub delete_tenant_handler : UuidFormat → Moment → String → Db → Db × Response
delete_tenant_handler u x id db =
    if u.parse id
    then deleted_or (delete_tenant u x.outcome id db)
    else (db, bad_request "invalid tenant id")

abbrev pub tenant_or : Answer TenantResponse → Response
tenant_or (good t) = answer ok_200 (tenant_body t)
tenant_or (bad e) = not_found_or "tenant not found" e

-- `GetTenant`
unfoldable pub get_tenant_handler : UuidFormat → Moment → String → Db → Response
get_tenant_handler u x id db =
    if u.parse id then tenant_or (get_tenant u x.served id db) else bad_request "invalid tenant id"

abbrev updated_or : Db × Answer TenantResponse → Db × Response
updated_or (db, answer') = (db, tenant_or answer')

-- `UpdateConcurrency`, with the body's workers.
unfoldable pub update_concurrency_handler :
    UuidFormat → Moment → String → Option ℤ → Db → Db × Response
update_concurrency_handler u x id body db =
    if u.parse id
    then elim body [
      | none ↦ (db, bad_request "invalid request body")
      | some workers ↦
          if leb_ℤ workers (pos 0) || ltb_ℤ (pos 50) workers
          then (db, bad_request "workers must be between 1 and 50")
          else updated_or (update_tenant_concurrency u x.outcome x.now id workers db)
    ]
    else (db, bad_request "invalid tenant id")

abbrev tenants_or : Answer (List TenantResponse) → Response
tenants_or (good ts) = answer ok_200 (tenants_body ts)
tenants_or (bad e) = answer internal_error_500 (service_failed e)

-- `ListTenants`
unfoldable pub list_tenants_handler : UuidFormat → Moment → Request → Db → Response
list_tenants_handler u x req db = tenants_or (
    list_tenants u x.ties x.served (req.query_int "limit" (pos 20)) (req.query_int "offset" (pos 0))
      db)
