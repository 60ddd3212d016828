-- ===== src/Routes/Deletion.antt =====
-- What `deleteTenant` leaves of a tenant's row and consumer.
use multi_tenant_messaging.Base.{
  ℕ, String, ◌≡◌, some, ◌⊎◌, none, true, ◌∙◌, arith, refl, inl, Option-cases, inr, ap, eq_refl,
}
use multi_tenant_messaging.Db.{UuidFormat, Outcome, Db}
use multi_tenant_messaging.Manager.{get_consumer, Manager, TenantConsumer, stop_consumer}
use multi_tenant_messaging.Routes.{System, delete_tenant_route, stopped, after_delete}
use multi_tenant_messaging.Amqp.{Result, ok, err, consumer_not_found}
use multi_tenant_messaging.Tenants.{Answer, delete_tenant, good, get_tenant, bad, no_rows}
use multi_tenant_messaging.Manager.Registry.{IsRegistry}
use multi_tenant_messaging.Tenants.Calls.{get_tenant-delete_tenant}
use multi_tenant_messaging.Manager.Lifecycle.{stop_missing, stop_consumer_found}
use multi_tenant_messaging.Http.{
  Response, manager_failure_500, no_content_204, not_found_404, internal_error_500,
}

-- The four ways of `deleteTenant` on an id that reads as `i`, from a system `s` to `after`.
abbrev pub Deleted : UuidFormat → String → System → System × Response → Type 0
Deleted u id s (after, told) =
    ((told.status ≡ not_found_404) × (after.manager ≡ s.manager))
    ⊎ (((get_consumer s.manager id ≡ none)
          × (told.status ≡ internal_error_500)
          × (get_tenant u true id after.db ≡ bad no_rows)
          × (after.manager ≡ s.manager))
        ⊎ ((told.status ≡ no_content_204)
            × (get_tenant u true id after.db ≡ bad no_rows)
            × (get_consumer after.manager id ≡ none)))

stopped_ok :
    (s : System) (out : Manager × Result TenantConsumer) {d : TenantConsumer}
    → out.1 ≡ ok d
    → ((stopped s out).1.status ≡ no_content_204)
      × ((stopped s out).0 ≡ record s { manager = out.0 })
stopped_ok s (m, ok c) e = (refl, refl)
stopped_ok s (m, err f) e = absurd (ground (arith, e))

after_delete_cases :
    (u : UuidFormat) (taken : ℕ) (id : String) (s : System) (out : Db × Answer (Unit {0}))
    → IsRegistry s.manager
    → (out.1 ≡ good tt → get_tenant u true id out.0 ≡ bad no_rows)
    → Deleted u id s (after_delete taken id s out)
unfolding get_consumer
after_delete_cases u taken id s (db, bad e) reg gone = inl (refl, refl)
after_delete_cases u taken id s (db, good _) reg gone =
    elim (Option-cases (get_consumer s.manager id)) [
      | inl absent ↦ rw (stop_missing taken s.manager id absent) (
          inr (
            inl (
              absent,
              manager_failure_500 "failed to stop consumer: " (consumer_not_found id),
              gone refl,
              refl,
            )))
      | inr (c, found) ↦
          let (d, fine, _, _, _, others) =
            stop_consumer_found taken s.manager id {c = c} reg found in
          let (status, after) =
            stopped_ok (record s { db = db }) (stop_consumer taken s.manager id) fine in
          inr (
            inr (
              status,
              ap (λ (t : System). get_tenant u true id t.db) after ∙ gone refl,
              ap (λ (t : System). get_consumer t.manager id) after
                  ∙ others id
                  ∙ rw (eq_refl id) refl,
            ))
    ]

-- On an id that reads as a UUID, over a registry of running consumers, `deleteTenant` answers 404 and
-- leaves the registry alone; or answers 204, and neither a row nor a consumer is left under the id; or
-- the registry has no consumer under this text of the id, and it answers 500 although the row is
-- deleted, while the registry, and so a consumer under another text of the id, stays.
pub delete_tenant_route_cases :
    (u : UuidFormat) (o : Outcome) (taken : ℕ) (id : String) (s : System) {i : ℕ}
    → u.read id ≡ some i
    → IsRegistry s.manager
    → Deleted u id s (delete_tenant_route u o taken id s)
unfolding delete_tenant_route
delete_tenant_route_cases u o taken id s {i} read reg =
    after_delete_cases u taken id s (delete_tenant u o id s.db) reg
      (λ fine. get_tenant-delete_tenant u o id id s.db read read fine ∙ ground arith)
