-- ===== src/Retry/Rows.antt =====
-- Which rows the processing of an item may touch.
use multi_tenant_messaging.Base.{ℕ, ◌≡◌, some, false, Bool-cases, inr, inl, arith, ◌∙◌, ap, refl}
use multi_tenant_messaging.Db.{
  UuidFormat, Db, find_row, upsert_processing, set_status, insert_dead_letter,
}
use multi_tenant_messaging.Pool.{WorkItem}
use multi_tenant_messaging.Db.Rows.{same_key, find_row-upsert, find_row-set_status}
use multi_tenant_messaging.Retry.{FloatScale, Attempt, Burial, process_work}
use multi_tenant_messaging.Base.Int.{ℤ}
use multi_tenant_messaging.Retry.Tables.{process_work-kept}

-- The ids that an item's texts read as are not this key.
abbrev pub IsOtherKey : UuidFormat → WorkItem → ℕ → ℕ → Type 0
IsOtherKey u item j k = ¬ ((u.read item.message_id ≡ some j) × (u.read item.tenant_id ≡ some k))

-- Every table but those of messages and dead letters is as before, and so is the row of a key.
abbrev Spares : ℕ → ℕ → Db → Db → Type 0
Spares j k db after =
    (find_row j k after.messages ≡ find_row j k db.messages)
    × (after.tenants ≡ db.tenants)
    × (after.users ≡ db.users)

module _ (u : UuidFormat) (j k : ℕ) (item : WorkItem) (other : IsOtherKey u item j k) where
  differs :
      (i t : ℕ)
      → u.read item.message_id ≡ some i
      → u.read item.tenant_id ≡ some t
      → same_key i t j k ≡ false
  differs i t id_read tenant_read = elim (Bool-cases (same_key i t j k)) [
    | inr e ↦ e
    | inl same ↦
        let ids : i ≡ j = ground (arith, same) in
        let tenants : t ≡ k = ground (arith, same) in
        absurd (other (id_read ∙ ap some ids, tenant_read ∙ ap some tenants))
  ]

  -- Processing an item never changes the row of another message or of another tenant, a tenant or a user.
  pub process_work_isolates :
      (f : FloatScale) (m : ℤ) (env : ℕ → Attempt) (b : Burial) (db : Db)
      → Spares j k db (process_work u f m env b item db)
  unfolding upsert_processing set_status insert_dead_letter
  process_work_isolates f m env b db =
      process_work-kept u (Spares j k db) item
        (λ p r now i t d parsed id_read tenant_read (row, tenants, users). (
          rw (find_row-upsert p r now i t j k d.messages, differs i t id_read tenant_read) row,
          tenants,
          users,
        ))
        (λ s now i t d id_read tenant_read (row, tenants, users). (
          rw (find_row-set_status s now i t j k d.messages, differs i t id_read tenant_read) row,
          tenants,
          users,
        ))
        f m env (λ p why r now i t d same. same) b item db (refl, refl, refl) (refl, refl, refl)
