-- ===== src/Tenants/Cases.antt =====
-- What a call of `TenantService` may do to the tables: nothing, or its one statement.
use multi_tenant_messaging.Db.{UuidFormat, Db, Outcome, TenantRow, exec}
use multi_tenant_messaging.Tenants.{
  create_tenant, delete_tenant, update_tenant_concurrency, CreateTenantRequest, remove_tenant,
  clashes, in_worker_range, add_tenant, set_concurrency, find_tenant, new_tenant, tenant_response,
  count_chars,
}
use multi_tenant_messaging.Base.{
  String, ℕ, Option-cases, inl, ◌≡◌, false, inr, true, Bool-cases, ◌||◌, ltb, arith,
}
use multi_tenant_messaging.Base.Int.{ℤ}
use multi_tenant_messaging.Tenants.Statements.{on_tenant_either, answered_either}
use multi_tenant_messaging.Db.Outcomes.{exec_either}

module _ (u : UuidFormat) (P : Db → Type 0) (db : Db) (same : P db) where
  pub create_tenant_cases :
      (o : Outcome) (i now : ℕ) (req : CreateTenantRequest)
      → (clashes i req.name db.tenants ≡ false → P (add_tenant (new_tenant i now req) db))
      → P (create_tenant u o i now req db).0
  unfolding create_tenant
  create_tenant_cases o i now req added =
      elim (Bool-cases (clashes i req.name db.tenants || ltb 255 (count_chars req.name))) [
        | inl taken ↦ rw taken same
        | inr free ↦ rw free (
            answered_either P (tenant_response u (new_tenant i now req))
              (exec o (add_tenant (new_tenant i now req)) db)
              (exec_either P o (add_tenant (new_tenant i now req)) db same
                (added (ground (arith, free)))))
      ]

  pub delete_tenant_cases :
      (o : Outcome) (id : String)
      → ((i : ℕ) → P (remove_tenant i db))
      → P (delete_tenant u o id db).0
  unfolding delete_tenant
  delete_tenant_cases o id removed = elim (Option-cases (u.read id)) [
    | inl e ↦ rw (e, delete_tenant) same
    | inr (i, e) ↦
        rw (e, delete_tenant)
          (on_tenant_either P o (remove_tenant i) (λ row. tt) (find_tenant i db.tenants) db same
            (removed i))
  ]

  pub update_cases :
      (o : Outcome) (now : ℕ) (id : String) (n : ℤ)
      → ((i : ℕ) → in_worker_range n ≡ true → P (set_concurrency n now i db))
      → P (update_tenant_concurrency u o now id n db).0
  unfolding update_tenant_concurrency
  update_cases o now id n updated = elim (Bool-cases (in_worker_range n)) [
    | inr out ↦ rw (out, update_tenant_concurrency) same
    | inl ok ↦ elim (Option-cases (u.read id)) [
      | inl e ↦ rw (ok, e, update_tenant_concurrency) same
      | inr (i, e) ↦
          rw (ok, e, update_tenant_concurrency)
            (on_tenant_either P o (set_concurrency n now i)
              (λ (row : TenantRow).
                tenant_response u (record row { concurrency = n; updated_at = now }))
              (find_tenant i db.tenants) db same (updated i ok))
    ]
  ]
