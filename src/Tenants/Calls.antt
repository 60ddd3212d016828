-- ===== src/Tenants/Calls.antt =====
-- `TenantService` as its callers see it: what `GetTenant` finds after each call that changes the table.
use multi_tenant_messaging.Base.{
  ℕ, String, ◌≡◌, some, true, if◌then◌else◌, ◌==◌, arith, false, Bool-cases, inl, ◌||◌, inr, ltb,
  refl,
}
use multi_tenant_messaging.Db.{UuidFormat, Outcome, Db}
use multi_tenant_messaging.Tenants.{
  create_tenant, get_tenant, CreateTenantRequest, find_tenant, TenantResponse, delete_tenant, good,
  update_tenant_concurrency, in_worker_range, tenant_response, bad, clashes, no_rows, add_tenant,
  on_tenant, new_tenant, remove_tenant, set_concurrency, count_chars, row_or_none, bad_workers,
}
use multi_tenant_messaging.Base.Int.{ℤ, pos}
use multi_tenant_messaging.Tenants.Rows.{
  IsTenantTable, find_tenant-keep, with_concurrency, keep_tenants-IsTenantTable,
  set_concurrency_rows-IsTenantTable, find_tenant-set,
}
use multi_tenant_messaging.Tenants.Statements.{answered_good, on_tenant_good}
use multi_tenant_messaging.Tenants.Cases.{create_tenant_cases, delete_tenant_cases, update_cases}

abbrev HasTable : Db → Type 0
HasTable db = IsTenantTable db.tenants

pub default_range : (n : ℤ) → in_worker_range (if in_worker_range n then n else pos 3) ≡ true
default_range n = elim (Bool-cases (in_worker_range n)) [ inl e ↦ rw e e | inr e ↦ rw e refl ]

module _ (u : UuidFormat) where
  pub create_tenant_good :
      (o : Outcome) (i now : ℕ) (req : CreateTenantRequest) (db : Db) {r : TenantResponse}
      → (create_tenant u o i now req db).1 ≡ good r
      → ((create_tenant u o i now req db).0 ≡ add_tenant (new_tenant i now req) db)
        × (tenant_response u (new_tenant i now req) ≡ r)
  unfolding create_tenant
  create_tenant_good o i now req db e =
      elim (Bool-cases (clashes i req.name db.tenants || ltb 255 (count_chars req.name))) [
        | inl taken ↦ absurd (ground (arith, e))
        | inr free ↦ rw free (answered_good o (add_tenant (new_tenant i now req)) db (rw free at e))
      ]

  create_tenant-IsTenantTable :
      (o : Outcome) (i now : ℕ) (req : CreateTenantRequest) (db : Db)
      → HasTable db
      → HasTable (create_tenant u o i now req db).0
  create_tenant-IsTenantTable o i now req db v =
      create_tenant_cases u HasTable db v o i now req (λ free. (free, default_range req.workers, v))

  delete_tenant_read :
      (o : Outcome) (id : String) (db : Db) (i : ℕ)
      → u.read id ≡ some i
      → delete_tenant u o id db
        ≡ on_tenant o (remove_tenant i) (λ row. tt) (find_tenant i db.tenants) db
  unfolding delete_tenant
  delete_tenant_read o id db i e = rw (e, delete_tenant)

  pub delete_tenant_good :
      (o : Outcome) (id : String) (db : Db) {i : ℕ}
      → u.read id ≡ some i
      → (delete_tenant u o id db).1 ≡ good tt
      → (delete_tenant u o id db).0 ≡ remove_tenant i db
  delete_tenant_good o id db {i} read e =
      let (row, found, done, _) =
        on_tenant_good o (remove_tenant i) (λ row. tt) (find_tenant i db.tenants) db
          (rw (delete_tenant_read o id db i read) at e) in
      rw (delete_tenant_read o id db i read) done

  update_read :
      (o : Outcome) (now : ℕ) (id : String) (n : ℤ) (db : Db) (i : ℕ)
      → u.read id ≡ some i
      → in_worker_range n ≡ true
      → update_tenant_concurrency u o now id n db
        ≡ on_tenant o
            (set_concurrency n now i)
            (λ row. tenant_response u (with_concurrency n now row))
            (find_tenant i db.tenants)
            db
  unfolding update_tenant_concurrency
  update_read o now id n db i e ok = rw (ok, e, update_tenant_concurrency)

  delete_tenant-IsTenantTable :
      (o : Outcome) (id : String) (db : Db) → HasTable db → HasTable (delete_tenant u o id db).0
  delete_tenant-IsTenantTable o id db v =
      delete_tenant_cases u HasTable db v o id (λ i. keep_tenants-IsTenantTable i db.tenants v)

  update_out_of_range :
      (o : Outcome) (now : ℕ) (id : String) (n : ℤ) (db : Db)
      → in_worker_range n ≡ false
      → update_tenant_concurrency u o now id n db ≡ (db, bad bad_workers)
  unfolding update_tenant_concurrency
  update_out_of_range o now id n db out = rw (out, update_tenant_concurrency)

  update-IsTenantTable :
      (o : Outcome) (now : ℕ) (id : String) (n : ℤ) (db : Db)
      → HasTable db
      → HasTable (update_tenant_concurrency u o now id n db).0
  update-IsTenantTable o now id n db v =
      update_cases u HasTable db v o now id n
        (λ i range. set_concurrency_rows-IsTenantTable n now i db.tenants range v)

  get_tenant_read :
      (id : String) (db : Db) (i : ℕ)
      → u.read id ≡ some i
      → get_tenant u true id db ≡ row_or_none u (find_tenant i db.tenants)
  unfolding get_tenant
  get_tenant_read id db i e = rw (e, get_tenant)

  -- Where `CreateTenant` succeeds, its answer has the name that was asked for, a worker count from 1
  -- to 50 that is the one asked for if that is in range and else 3, and `GetTenant` on the answer's
  -- id gives this very answer.
  pub get_tenant-create_tenant :
      (o : Outcome) (i now : ℕ) (req : CreateTenantRequest) (db : Db) {r : TenantResponse}
      → (create_tenant u o i now req db).1 ≡ good r
      → (get_tenant u true r.id (create_tenant u o i now req db).0 ≡ good r)
        × (r.name ≡ req.name)
        × (r.workers ≡ (if in_worker_range req.workers then req.workers else pos 3))
  unfolding get_tenant find_tenant
  get_tenant-create_tenant o i now req db e =
      ground (arith, create_tenant_good o i now req db e, u.read-print i)

  -- However they end, the calls that change the table keep ids and names unique and every
  -- concurrency from 1 to 50.
  pub calls-IsTenantTable :
      (o : Outcome) (i now : ℕ) (req : CreateTenantRequest) (id : String) (n : ℤ) (db : Db)
      → IsTenantTable db.tenants
      → IsTenantTable (create_tenant u o i now req db).0.tenants
        × IsTenantTable (delete_tenant u o id db).0.tenants
        × IsTenantTable (update_tenant_concurrency u o now id n db).0.tenants
  calls-IsTenantTable o i now req id n db v = (
    create_tenant-IsTenantTable o i now req db v,
    delete_tenant-IsTenantTable o id db v,
    update-IsTenantTable o now id n db v,
  )

  -- Where `DeleteTenant` succeeds, `GetTenant` no longer finds a tenant under any text of its id, and
  -- finds every other tenant as before.
  pub get_tenant-delete_tenant :
      (o : Outcome) (id other : String) (db : Db) {i j : ℕ}
      → u.read id ≡ some i
      → u.read other ≡ some j
      → (delete_tenant u o id db).1 ≡ good tt
      → get_tenant u true other (delete_tenant u o id db).0
        ≡ (if i == j then bad no_rows else get_tenant u true other db)
  unfolding get_tenant
  get_tenant-delete_tenant o id other db {i} {j} read read_other e =
      let (row, found, done, _) =
        on_tenant_good o (remove_tenant i) (λ row. tt) (find_tenant i db.tenants) db
          (rw (delete_tenant_read o id db i read) at e) in
      rw
        (
          delete_tenant_read o id db i read,
          done,
          get_tenant_read other (remove_tenant i db) j read_other,
          get_tenant_read other db j read_other,
          find_tenant-keep i j db.tenants,
        )
        (ground arith)

  -- Where `UpdateConcurrency` of the service succeeds, the count was from 1 to 50, its answer holds it,
  -- and `GetTenant` gives the answer for the tenant and finds every other tenant as before.
  pub get_tenant-update :
      (o : Outcome) (now : ℕ) (id other : String) (n : ℤ) (db : Db) {i j : ℕ} {r : TenantResponse}
      → u.read id ≡ some i
      → u.read other ≡ some j
      → (update_tenant_concurrency u o now id n db).1 ≡ good r
      → (in_worker_range n ≡ true)
        × (r.workers ≡ n)
        × (get_tenant u true other (update_tenant_concurrency u o now id n db).0
            ≡ (if i == j then good r else get_tenant u true other db))
  unfolding get_tenant
  get_tenant-update o now id other n db {i} {j} {r} read read_other e =
      elim (Bool-cases (in_worker_range n)) [
        | inr out ↦ absurd (ground (arith, e, update_out_of_range o now id n db out))
        | inl ok ↦
            let (row, found, done, same) =
              on_tenant_good o (set_concurrency n now i)
                (λ row. tenant_response u (with_concurrency n now row)) (find_tenant i db.tenants)
                db (rw (update_read o now id n db i read ok) at e) in
            (
              ok,
              ground (arith, same),
              rw
                  (
                    update_read o now id n db i read ok,
                    done,
                    get_tenant_read other (set_concurrency n now i db) j read_other,
                    get_tenant_read other db j read_other,
                    find_tenant-set n now i j db.tenants,
                  )
                  (ground (arith, found, same)),
            )
      ]
