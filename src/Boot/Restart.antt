-- ===== src/Boot/Restart.antt =====
-- A process that starts over the tables of an earlier one.
use multi_tenant_messaging.Base.{ℕ, String, ◌≡◌, none, some, refl, true, ap, ◌∙◌}
use multi_tenant_messaging.Base.Assoc.{lookup}
use multi_tenant_messaging.Boot.{Surroundings, boot, Running, running}
use multi_tenant_messaging.Config.{Config, manager_of}
use multi_tenant_messaging.Db.{Db, UuidFormat, TenantRow, applied}
use multi_tenant_messaging.Manager.{get_consumer, new_manager}
use multi_tenant_messaging.Routes.{delete_tenant_route, update_concurrency_route, System}
use multi_tenant_messaging.Tenants.{
  update_tenant_concurrency, find_tenant, in_worker_range, remove_tenant, good, set_concurrency,
  TenantResponse, tenant_response,
}
use multi_tenant_messaging.Amqp.{Broker, consumer_not_found}
use multi_tenant_messaging.Base.Int.{ℤ}
use multi_tenant_messaging.Http.{internal_error_500, manager_failure_500}
use multi_tenant_messaging.Manager.Lifecycle.{stop_missing}
use multi_tenant_messaging.Manager.Spawn.{update_missing}
use multi_tenant_messaging.Boot.Fresh.{boot_lem}
use multi_tenant_messaging.Tenants.Statements.{delete_found}

no_consumer_yet : (cfg : Config) (k : String) → get_consumer (manager_of cfg) k ≡ none
unfolding get_consumer new_manager lookup
no_consumer_yet cfg k = refl

-- The row goes, and then there is no consumer to stop.
delete_without_consumer :
    (u : UuidFormat) (taken : ℕ) (id : String) (s : System) {i : ℕ} {row : TenantRow}
    → get_consumer s.manager id ≡ none
    → u.read id ≡ some i
    → find_tenant i s.db.tenants ≡ some row
    → ((delete_tenant_route u applied taken id s).1.status ≡ internal_error_500)
      × ((delete_tenant_route u applied taken id s).0.db ≡ remove_tenant i s.db)
unfolding delete_tenant_route get_consumer
delete_without_consumer u taken id s {i} {row} absent read found =
    rw
      (
        delete_found u id s.db {i = i} {row = row} read found,
        stop_missing taken s.manager id absent,
      )
      (manager_failure_500 "failed to stop consumer: " (consumer_not_found id), refl)

update_found_row :
    (u : UuidFormat) (now : ℕ) (id : String) (n : ℤ) (db : Db) {i : ℕ} {row : TenantRow}
    → u.read id ≡ some i
    → in_worker_range n ≡ true
    → find_tenant i db.tenants ≡ some row
    → (t : TenantResponse) × (update_tenant_concurrency u applied now id n db
        ≡ (set_concurrency n now i db, good t))
unfolding update_tenant_concurrency
update_found_row u now id n db {i} {row} read range found = (
  tenant_response u (record row { concurrency = n; updated_at = now }),
  rw (range, read, found, update_tenant_concurrency) refl,
)

update_without_consumer :
    (u : UuidFormat) (now : ℕ) (id : String) (n : ℤ) (s : System) {i : ℕ} {row : TenantRow}
    → get_consumer s.manager id ≡ none
    → u.read id ≡ some i
    → in_worker_range n ≡ true
    → find_tenant i s.db.tenants ≡ some row
    → ((update_concurrency_route u applied now id (some n) s).1.status ≡ internal_error_500)
      × ((update_concurrency_route u applied now id (some n) s).0.db ≡ set_concurrency n now i s.db)
unfolding update_concurrency_route lookup get_consumer
update_without_consumer u now id n s {i} {row} absent read range found =
    let (t, written) = update_found_row u now id n s.db {i = i} {row = row} read range found in
    rw (written, update_missing s.manager id n absent)
      (manager_failure_500 "failed to update concurrency: " (consumer_not_found id), refl)

-- After a restart no tenant of the table has a consumer. So `DELETE /tenants/:id` removes the row and answers
-- 500, and `PUT /tenants/:id/config/concurrency` with a valid count writes it into the row and
-- answers 500, for every tenant that was there before and whose id is given in a readable text.
pub restart_breaks_routes :
    (u : UuidFormat) (o : Surroundings) (db : Db) (b : Broker) (taken now : ℕ) (id : String) (n : ℤ)
    {r : Running} {i : ℕ} {row : TenantRow}
    → boot o db b ≡ running r
    → u.read id ≡ some i
    → find_tenant i db.tenants ≡ some row
    → in_worker_range n ≡ true
    → let deletes = delete_tenant_route u applied taken id r.system in
      let updates = update_concurrency_route u applied now id (some n) r.system in
      (get_consumer r.system.manager id ≡ none)
      × (deletes.1.status ≡ internal_error_500)
      × (deletes.0.db ≡ remove_tenant i db)
      × (updates.1.status ≡ internal_error_500)
      × (updates.0.db ≡ set_concurrency n now i db)
restart_breaks_routes u o db b taken now id n {r} {i} {row} e read found range =
    let (_, fresh, _) = boot_lem o db b {r = r} e in
    let absent =
      ap (λ (s : System). get_consumer s.manager id) fresh ∙ no_consumer_yet r.config id in
    let found_here = ap (λ (s : System). find_tenant i s.db.tenants) fresh ∙ found in
    let (gone_500, gone) =
      delete_without_consumer u taken id r.system {i = i} {row = row} absent read found_here in
    let (kept_500, written) =
      update_without_consumer u now id n r.system {i = i} {row = row} absent read range
        found_here in
    (
      absent,
      gone_500,
      gone ∙ ap (λ (s : System). remove_tenant i s.db) fresh,
      kept_500,
      written ∙ ap (λ (s : System). set_concurrency n now i s.db) fresh,
    )
